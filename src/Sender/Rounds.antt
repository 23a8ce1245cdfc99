-- ===== src/Sender/Rounds.antt =====
-- The rounds of the sender's thread.
use mathlib.Core.List.{append_assoc}
use mathlib.Core.Path.{subst}
use ckpool.Common.{
  ℕ, suc, ◌+◌, ◌≤◌, ◌≡◌, refl, sym, ap, ◌∙◌, Bool, true, false, inl, inr, List, [], ◌∷◌, ◌++◌, some,
  ◌==◌, if◌then◌else◌, Bool-cases, arith,
}
use ckpool.Sender.{SenderSend, Os, Cdata, send_sender_send, visit_send, visit, set_client}
use ckpool.Sender.Writes.{IsClipped, same_send}
use ckpool.Sender.Queue.{
  queue, rest_for, first_for, count_at, count_at-append, same_address, IsDistinct,
}
use ckpool.Sender.Order.{IsOrdered, own-IsOrdered, other-IsOrdered, goes_on}
use ckpool.Sender.Reach.{
  Reachable, start, queued, visited, collected, dropped, IsGood, start-IsGood, collect-IsGood,
  drop_client-IsGood, queue_send-IsGood,
}

-- A round keeps the addresses apart.
counted_on :
    (a : ℕ) (s sent : SenderSend) (later : List SenderSend)
    → sent.address ≡ s.address
    → (count_at a (sent ∷ later) ≡ count_at a (s ∷ later))
      × (count_at a later ≤ count_at a (s ∷ later))
unfolding count_at
counted_on a s sent later e =
    (ap (λ k. if k == a then suc (count_at a later) else count_at a later) e, ground arith)

goes_on-IsDistinct :
    (s sent : SenderSend) (finished : Bool) (kept later : List SenderSend)
    → sent.address ≡ s.address
    → IsDistinct (kept ++ (s ∷ later))
    → IsDistinct ((if finished then kept else kept ++ (sent ∷ [])) ++ later)
goes_on-IsDistinct s sent true kept later e d a =
    let c = (counted_on a s sent later e).1 in
    let m = d a in
    let p = count_at-append a kept later in
    let q = count_at-append a kept (s ∷ later) in omega (arith, c, m, p, q)
goes_on-IsDistinct s sent false kept later e d a =
    let c = (counted_on a s sent later e).0 in
    let m = d a in
    let p : count_at a ((kept ++ (sent ∷ [])) ++ later)
        ≡ count_at a kept + count_at a (sent ∷ later) =
      ap (count_at a) (append_assoc kept (sent ∷ []) later)
      ∙ count_at-append a kept (sent ∷ later) in
    let q = count_at-append a kept (s ∷ later) in omega (arith, c, m, p, q)

itself : (a : ℕ) → (a == a) ≡ true
itself a = ground arith

not_itself : (a b : ℕ) → (a == b) ≡ false → (b == a) ≡ false
not_itself a b e = ground (arith, e)

visit_send-IsGood :
    (os : Os)
    → IsClipped os
    → (asked : ℕ → List ℕ) (d : Cdata) (s : SenderSend) (sends : List SenderSend)
    → d.sends ≡ s ∷ sends
    → IsGood asked d
    → IsGood asked (visit_send os s sends d)
unfolding visit_send set_client
visit_send-IsGood os clip asked d s sends e g =
    let later = sends ++ d.sender_sends in
    let r = (send_sender_send os d.calls d.wmem_warn (d.clients s.client) s).0 in
    let same = same_send os clip d.calls d.wmem_warn (d.clients s.client) s in
    let q : queue d ≡ d.kept ++ (s ∷ later) = ap (λ z. d.kept ++ (z ++ d.sender_sends)) e in
    let apart = subst IsDistinct q g.distinct in
    let ordered : (id : ℕ) → IsOrdered id (d.clients id) d.kept (s ∷ later) (asked id) = λ id.
      subst (λ z. IsOrdered id (d.clients id) d.kept (z ++ d.sender_sends) (asked id)) e
        (g.ordered id) in
    record {
      distinct = goes_on-IsDistinct s r.sender_send r.finished d.kept later same.0 apart;
      ordered = λ id. elim (Bool-cases (id == s.client)) [
        | inl own ↦ rw own (
            subst (λ i. IsOrdered i r.client (goes_on r d.kept) later (asked i))
              (sym (same_address id s.client own))
              (own-IsOrdered s.client os clip d.calls d.wmem_warn (d.clients s.client) s d.kept
                later (asked s.client) (itself s.client) apart (ordered s.client)))
        | inr other ↦ rw other (
            other-IsOrdered id (d.clients id) s r.sender_send r.finished d.kept later (asked id)
              (not_itself id s.client other) same.1 (ordered id))
      ];
    }

visit-IsGood :
    (os : Os)
    → IsClipped os
    → (asked : ℕ → List ℕ) (d : Cdata) (sends : List SenderSend) → d.sends ≡ sends
    → IsGood asked d
    → IsGood asked (visit os d)
unfolding visit
visit-IsGood os clip asked d [] e g =
    subst (IsGood asked) (sym (ap (λ l. elim l [ [] ↦ d | s ∷ sends ↦ visit_send os s sends d ]) e))
      g
visit-IsGood os clip asked d (s ∷ sends) e g =
    subst (IsGood asked) (sym (ap (λ l. elim l [ [] ↦ d | s ∷ sends ↦ visit_send os s sends d ]) e))
      (visit_send-IsGood os clip asked d s sends e g)

reachable-IsGood :
    (os : Os)
    → IsClipped os
    → (size : ℕ) {asked : ℕ → List ℕ} {d : Cdata} → Reachable os size asked d
    → IsGood asked d
reachable-IsGood os clip size (start sizes) = start-IsGood sizes
reachable-IsGood os clip size (queued address client buf r fresh) =
    queue_send-IsGood address client buf _ _ fresh (reachable-IsGood os clip size r)
reachable-IsGood os clip size (visited r) =
    visit-IsGood os clip _ _ _ refl (reachable-IsGood os clip size r)
reachable-IsGood os clip size (collected r) =
    collect-IsGood size _ _ _ refl (reachable-IsGood os clip size r)
reachable-IsGood os clip size (dropped id r) =
    drop_client-IsGood id _ _ (reachable-IsGood os clip size r)

-- What a client got of what was asked.
pub record InOrder (id : ℕ) (asked : ℕ → List ℕ) (d : Cdata) : Type 0 where
  pub missing : List ℕ
  pub before : (d.clients id).written ++ missing ≡ asked id
  pub pending :
      (d.clients id).invalid ≡ false → (d.clients id).written ++ rest_for id (queue d) ≡ asked id
  pub first :
      (d.clients id).invalid ≡ false
      → (k : ℕ) → (d.clients id).sending ≡ some k
      → first_for id (queue d) ≡ some k

-- Where write takes no more bytes than it is given and no two queued sends are at one address: in
-- every state that the rounds of the sender and the calls of other threads lead to, what write took
-- for a client is the start of the messages that were queued for it, one after the other in their
-- order; for a valid client the queued sends hold exactly the rest, in order, and a send that the
-- client's other sends wait for is the first of them.
pub reachable-InOrder :
    (os : Os)
    → IsClipped os
    → (size : ℕ) {asked : ℕ → List ℕ} {d : Cdata} → Reachable os size asked d
    → (id : ℕ) → InOrder id asked d
reachable-InOrder os clip size r id =
    let o = (reachable-IsGood os clip size r).ordered id in
    record { missing = o.missing; before = o.before; pending = o.pending; first = o.busy }
