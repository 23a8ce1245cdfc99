-- ===== src/Sender/Reach.antt =====
-- The states of the sender, with the messages that were queued for each client.
use mathlib.Core.List.{append_assoc, append-nil}
use mathlib.Core.Path.{subst}
use ckpool.Common.{
  ℕ, ◌≡◌, refl, sym, ap, ◌∙◌, true, false, inl, inr, List, [], ◌∷◌, ◌++◌, none, ◌==◌, if◌then◌else◌,
  Bool-cases, arith, length,
}
use ckpool.Sender.{
  SenderSend, Os, Cdata, queue_send, visit, collect, collect_sends, drop_client, set_client,
}
use ckpool.Sender.Writes.{whole_message}
use ckpool.Sender.Queue.{queue, rest_for, first_for, count_at, some_none, same_address, IsDistinct}
use ckpool.Sender.Order.{IsOrdered, dead-IsOrdered}
use ckpool.Sender.Appends.{appended-IsDistinct, appended_own, appended_other}

-- No sends yet, and each client as it is allocated.
abbrev pub begun : (ℕ → ℕ) → Cdata
begun sizes = record {
  clients = λ id. record {
    invalid = false;
    sending = none;
    blocked_time = 0;
    sendbufsize = sizes id;
    written = [];
  };
  kept = [];
  sends = [];
  sender_sends = [];
  sends_generated = 0;
  sends_delayed = 0;
  sends_queued = 0;
  sends_size = 0;
  calls = 0;
  wmem_warn = false;
}

-- What is asked of the sender for each client, behind one more message.
abbrev pub asked_more : ℕ → List ℕ → (ℕ → List ℕ) → ℕ → List ℕ
asked_more client buf asked id = if client == id then asked id ++ buf else asked id

-- The rounds of the sender, and what other threads do between them; no two sends are at one address.
module _ (os : Os) (size : ℕ) where
  pub data Reachable : (ℕ → List ℕ) → Cdata → Type 0 where
    start : (sizes : ℕ → ℕ) → Reachable (λ id. []) (begun sizes)
    queued :
        {asked : ℕ → List ℕ} {d : Cdata} (address client : ℕ) (buf : List ℕ)
        → Reachable asked d
        → count_at address (queue d) ≡ 0
        → Reachable (asked_more client buf asked) (queue_send address client buf d)
    visited : {asked : ℕ → List ℕ} {d : Cdata} → Reachable asked d → Reachable asked (visit os d)
    collected :
        {asked : ℕ → List ℕ} {d : Cdata} → Reachable asked d → Reachable asked (collect size d)
    dropped :
        {asked : ℕ → List ℕ} {d : Cdata} (id : ℕ)
        → Reachable asked d
        → Reachable asked (drop_client id d)

pub record IsGood (asked : ℕ → List ℕ) (d : Cdata) : Type 0 where
  pub distinct : IsDistinct (queue d)
  pub ordered : (id : ℕ) → IsOrdered id (d.clients id) d.kept (d.sends ++ d.sender_sends) (asked id)

pub start-IsGood : (sizes : ℕ → ℕ) → IsGood (λ id. []) (begun sizes)
unfolding rest_for first_for count_at
start-IsGood sizes = record {
  distinct = λ a. omega arith;
  ordered = λ id. record {
    missing = [];
    before = refl;
    pending = λ v. refl;
    idle = λ v e. refl;
    busy = λ v k e. some_none k (sym e);
  };
}

unchanged_collect :
    (size : ℕ) (d : Cdata) (s : SenderSend) (sends : List SenderSend)
    → d.sends ≡ s ∷ sends
    → collect size d ≡ d
unfolding collect
unchanged_collect size d s sends e =
    ap (λ l. elim l [ s ∷ sends ↦ d | [] ↦ collect_sends size d ]) e

collect_is : (size : ℕ) (d : Cdata) → d.sends ≡ [] → collect size d ≡ collect_sends size d
unfolding collect
collect_is size d e = ap (λ l. elim l [ s ∷ sends ↦ d | [] ↦ collect_sends size d ]) e

pub collect-IsGood :
    (size : ℕ) (asked : ℕ → List ℕ) (d : Cdata) (sends : List SenderSend)
    → d.sends ≡ sends
    → IsGood asked d
    → IsGood asked (collect size d)
unfolding first_for collect_sends
collect-IsGood size asked d (s ∷ sends) e g =
    subst (IsGood asked) (sym (unchanged_collect size d s sends e)) g
collect-IsGood size asked d [] e g =
    let q : (d.kept ++ d.sender_sends) ++ [] ≡ queue d =
      append-nil (d.kept ++ d.sender_sends) ∙ ap (λ z. d.kept ++ (z ++ d.sender_sends)) (sym e) in
    subst (IsGood asked) (sym (collect_is size d e)) record {
      distinct = subst IsDistinct (sym q) g.distinct;
      ordered = λ id.
          let o = g.ordered id in
          record {
            missing = o.missing;
            before = o.before;
            pending = λ v. ap (λ z. (d.clients id).written ++ rest_for id z) q ∙ o.pending v;
            idle = λ v f. refl;
            busy = λ v k f. ap (first_for id) q ∙ o.busy v k f;
          };
    }

pub drop_client-IsGood :
    (id : ℕ) (asked : ℕ → List ℕ) (d : Cdata) → IsGood asked d → IsGood asked (drop_client id d)
unfolding drop_client set_client
drop_client-IsGood id asked d g = record {
  distinct = g.distinct;
  ordered = λ j. elim (Bool-cases (j == id)) [
    | inl own ↦
        let later = d.sends ++ d.sender_sends in
        let same : (d.clients id).written ≡ (d.clients j).written =
          ap (λ i. (d.clients i).written) (sym (same_address j id own)) in
        rw own (
          dead-IsOrdered j (d.clients j) (record (d.clients id) { invalid = true }) d.kept later
            d.kept later (asked j) refl same (g.ordered j))
    | inr other ↦ rw other (g.ordered j)
  ];
}

-- A new send goes behind the others.
pub queue_send-IsGood :
    (address client : ℕ) (buf : List ℕ) (asked : ℕ → List ℕ) (d : Cdata)
    → count_at address (queue d) ≡ 0
    → IsGood asked d
    → IsGood (asked_more client buf asked) (queue_send address client buf d)
unfolding queue_send
queue_send-IsGood address client buf asked d fresh g =
    let s : SenderSend = record {
      address = address;
      client = client;
      buf = buf;
      ofs = 0;
      len = length buf;
    } in
    let q : d.kept ++ (d.sends ++ (d.sender_sends ++ (s ∷ []))) ≡ queue d ++ (s ∷ []) =
      ap (λ z. d.kept ++ z) (sym (append_assoc d.sends d.sender_sends _))
      ∙ sym (append_assoc d.kept _ _) in
    record {
      distinct = subst IsDistinct (sym q) (appended-IsDistinct (queue d) s fresh g.distinct);
      ordered = λ id.
          subst (λ z. IsOrdered id (d.clients id) d.kept z (asked_more client buf asked id))
            (append_assoc d.sends d.sender_sends (s ∷ []))
            (elim (Bool-cases (client == id)) [
              | inl own ↦ rw own (
                  appended_own id (d.clients id) s d.kept (d.sends ++ d.sender_sends) (asked id) buf
                    own (whole_message address client buf) (g.ordered id))
              | inr other ↦ rw other (
                  appended_other id (d.clients id) s d.kept (d.sends ++ d.sender_sends) (asked id)
                    other (g.ordered id))
            ]);
    }
