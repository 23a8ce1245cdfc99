-- ===== src/Sender/Order.antt =====
-- What the clients get, whatever the order of the thread's rounds and of other threads' calls.
use mathlib.Core.List.{append_assoc, append-nil}
use mathlib.Core.Path.{subst}
use ckpool.Common.{
  ℕ, ◌≡◌, refl, sym, ap, ◌∙◌, Bool, true, false, inl, inr, List, [], ◌∷◌, ◌++◌, Option, none, some,
  ◌==◌, if◌then◌else◌, Bool-cases, some_inj, arith,
}
use ckpool.Sender.{SenderSend, Client, Os, Sent, out_true, other_sending, send_sender_send}
use ckpool.Sender.Writes.{
  remaining, IsClipped, Writes, attempt-Writes, true_false, dead_send, waiting_send,
}
use ckpool.Sender.Queue.{
  rest_for, first_for, first_for-found, skipped, own_first, some_none, IsDistinct, first-distinct,
  passed_over,
}

-- No bytes lost, reordered or interleaved; `kept` is behind the thread, `later` before it.
pub record IsOrdered (id : ℕ) (c : Client) (kept later : List SenderSend) (asked : List ℕ)
    : Type 0 where
  pub missing : List ℕ
  pub before : c.written ++ missing ≡ asked
  pub pending : c.invalid ≡ false → c.written ++ rest_for id (kept ++ later) ≡ asked
  pub idle : c.invalid ≡ false → c.sending ≡ none → first_for id kept ≡ none
  pub busy :
      c.invalid ≡ false → (k : ℕ) → c.sending ≡ some k → first_for id (kept ++ later) ≡ some k

-- How the thread goes on behind a send.
abbrev pub goes_on : Sent → List SenderSend → List SenderSend
goes_on r kept = if r.finished then kept else kept ++ (r.sender_send ∷ [])

moved :
    (kept later : List SenderSend) (s : SenderSend)
    → (kept ++ (s ∷ [])) ++ later ≡ kept ++ (s ∷ later)
moved kept later s = append_assoc kept (s ∷ []) later

pub dead-IsOrdered :
    (id : ℕ) (c c' : Client) (kept later kept' later' : List SenderSend) (asked : List ℕ)
    → c'.invalid ≡ true
    → c'.written ≡ c.written
    → IsOrdered id c kept later asked
    → IsOrdered id c' kept' later' asked
dead-IsOrdered id c c' kept later kept' later' asked dead same o = record {
  missing = o.missing;
  before = ap (λ w. w ++ o.missing) same ∙ o.before;
  pending = λ v. true_false (sym dead ∙ v);
  idle = λ v. true_false (sym dead ∙ v);
  busy = λ v. true_false (sym dead ∙ v);
}

other_none : (a : ℕ) (sending : Option ℕ) → other_sending sending a ≡ true → sending ≡ none → ⊥
unfolding other_sending
other_none a none h e = true_false (sym h)
other_none a (some k) h e = some_none k e

waits-IsOrdered :
    (id : ℕ) (c : Client) (s : SenderSend) (kept later : List SenderSend) (asked : List ℕ)
    → other_sending c.sending s.address ≡ true
    → IsOrdered id c kept (s ∷ later) asked
    → IsOrdered id c (kept ++ (s ∷ [])) later asked
waits-IsOrdered id c s kept later asked h o = record {
  missing = o.missing;
  before = o.before;
  pending = λ v. ap (λ z. c.written ++ rest_for id z) (moved kept later s) ∙ o.pending v;
  idle = λ v e. absurd (other_none s.address c.sending h e);
  busy = λ v k e. ap (first_for id) (moved kept later s) ∙ o.busy v k e;
}

-- A send that is tried is the first for its client.
other_free :
    (a : ℕ) (sending : Option ℕ)
    → other_sending sending a ≡ false
    → (k : ℕ) → sending ≡ some k
    → k ≡ a
unfolding other_sending
other_free a none h k e = some_none k (sym e)
other_free a (some j) h k e = let f = some_inj e in ground (arith, h, f)

-- Where the send at an address is the first for its client, none is before it.
elim_first :
    (id k : ℕ) (s : SenderSend) (kept later : List SenderSend)
    → IsDistinct (kept ++ (s ∷ later))
    → first_for id (kept ++ (s ∷ later)) ≡ some k
    → k ≡ s.address
    → (found : Option ℕ) → first_for id kept ≡ found
    → first_for id kept ≡ none
elim_first id k s kept later d f a none e = e
elim_first id k s kept later d f a (some j) e =
    let h : some j ≡ some k = sym (first_for-found id j kept (s ∷ later) e) ∙ f in
    absurd (first-distinct id j s kept later d e (sym a ∙ sym (some_inj h)))

free_first :
    (id : ℕ) (c : Client) (s : SenderSend) (kept later : List SenderSend) (asked : List ℕ)
    → c.invalid ≡ false
    → (s.client == id) ≡ true
    → other_sending c.sending s.address ≡ false
    → IsDistinct (kept ++ (s ∷ later))
    → IsOrdered id c kept (s ∷ later) asked
    → (sending : Option ℕ) → c.sending ≡ sending
    → first_for id kept ≡ none
free_first id c s kept later asked v own free d o none e = o.idle v e
free_first id c s kept later asked v own free d o (some k) e =
    let a = other_free s.address c.sending free k e in
    let f = o.busy v k e in elim_first id k s kept later d f a (first_for id kept) refl

tried-IsOrdered :
    (id : ℕ) (c : Client) (s : SenderSend) (r : Sent) (kept later : List SenderSend)
    (asked : List ℕ)
    → c.invalid ≡ false
    → (s.client == id) ≡ true
    → first_for id kept ≡ none
    → Writes (record c { sending = some s.address }) s r
    → IsOrdered id c kept (s ∷ later) asked
    → IsOrdered id r.client (goes_on r kept) later asked
tried-IsOrdered id c s r kept later asked v own f w o =
    let sent = r.sender_send in
    let own' : (r.sender_send.client == id) ≡ true = ap (λ a. a == id) w.owner ∙ own in
    let at : first_for id ((kept ++ (r.sender_send ∷ [])) ++ later) ≡ some s.address =
      ap (first_for id) (moved kept later r.sender_send)
      ∙ (skipped id kept (sent ∷ later) f).0
      ∙ (own_first id sent later own').0
      ∙ ap some w.address in
    let whole : c.written ++ (remaining s ++ rest_for id later) ≡ asked =
      ap (λ z. c.written ++ z)
        (sym ((skipped id kept (s ∷ later) f).1 ∙ (own_first id s later own).1))
      ∙ o.pending v in
    let before : r.client.written ++ (remaining r.sender_send ++ rest_for id later) ≡ asked =
      sym (append_assoc r.client.written _ _)
      ∙ ap (λ z. z ++ rest_for id later) w.bytes
      ∙ append_assoc c.written _ _
      ∙ whole in
    elim (Bool-cases r.finished) [
      | inl finished ↦ rw finished record {
        missing = remaining r.sender_send ++ rest_for id later;
        before = before;
        pending = λ valid.
            ap (λ z. r.client.written ++ z)
              ((skipped id kept later f).1
                ∙ sym (ap (λ z. z ++ rest_for id later) (w.ended finished valid)))
            ∙ before;
        idle = λ valid e. f;
        busy = λ valid k e. some_none k (sym e ∙ w.idle finished);
      }
      | inr blocked ↦ rw blocked record {
        missing = remaining r.sender_send ++ rest_for id later;
        before = before;
        pending = λ valid.
            ap (λ z. r.client.written ++ z)
              (ap (rest_for id) (moved kept later sent)
                ∙ (skipped id kept (sent ∷ later) f).1
                ∙ (own_first id sent later own').1)
            ∙ before;
        idle = λ valid e. some_none s.address (sym (w.busy blocked) ∙ e);
        busy = λ valid k e. at ∙ sym (w.busy blocked) ∙ e;
      }
    ]

-- Any round for a client's own send.
pub own-IsOrdered :
    (id : ℕ) (os : Os)
    → IsClipped os
    → (calls : ℕ) (wmem_warn : Bool) (c : Client) (s : SenderSend) (kept later : List SenderSend)
      (asked : List ℕ)
    → (s.client == id) ≡ true
    → IsDistinct (kept ++ (s ∷ later))
    → IsOrdered id c kept (s ∷ later) asked
    → let r = (send_sender_send os calls wmem_warn c s).0 in
      IsOrdered id r.client (goes_on r kept) later asked
unfolding out_true
own-IsOrdered id os clip calls wmem_warn c s kept later asked own d o =
    elim (Bool-cases c.invalid) [
      | inl dead ↦
          subst (λ r. IsOrdered id r.client (goes_on r kept) later asked)
            (sym (dead_send os calls wmem_warn c s dead))
            (dead-IsOrdered id c (record c { sending = none }) kept (s ∷ later) kept later asked
              dead refl o)
      | inr valid ↦ elim (Bool-cases (other_sending c.sending s.address)) [
        | inl waits ↦
            subst (λ r. IsOrdered id r.client (goes_on r kept) later asked)
              (sym (waiting_send os calls wmem_warn c s valid waits))
              (waits-IsOrdered id c s kept later asked waits o)
        | inr free ↦
            tried-IsOrdered id c s _ kept later asked valid own
              (free_first id c s kept later asked valid own free d o c.sending refl)
              (attempt-Writes os clip calls wmem_warn c s valid free) o
      ]
    ]

-- A round for another client's send.
pub other-IsOrdered :
    (id : ℕ) (c : Client) (s sent : SenderSend) (finished : Bool) (kept later : List SenderSend)
    (asked : List ℕ)
    → (s.client == id) ≡ false
    → sent.client ≡ s.client
    → IsOrdered id c kept (s ∷ later) asked
    → IsOrdered id c (if finished then kept else kept ++ (sent ∷ [])) later asked
other-IsOrdered id c s sent true kept later asked other e o = record {
  missing = o.missing;
  before = o.before;
  pending = λ v. ap (λ z. c.written ++ z) (sym (passed_over id s kept later other).1) ∙ o.pending v;
  idle = o.idle;
  busy = λ v k f. sym (passed_over id s kept later other).0 ∙ o.busy v k f;
}
other-IsOrdered id c s sent false kept later asked other e o =
    let other' : (sent.client == id) ≡ false = ap (λ a. a == id) e ∙ other in
    let m = moved kept later sent in
    let p = passed_over id s kept later other in
    let q = passed_over id sent kept later other' in
    record {
      missing = o.missing;
      before = o.before;
      pending = λ v. ap (λ z. c.written ++ z) (ap (rest_for id) m ∙ q.1 ∙ sym p.1) ∙ o.pending v;
      idle = λ v f.
          (passed_over id sent kept [] other').0 ∙ ap (first_for id) (append-nil kept) ∙ o.idle v f;
      busy = λ v k f. ap (first_for id) m ∙ q.0 ∙ sym p.0 ∙ o.busy v k f;
    }
