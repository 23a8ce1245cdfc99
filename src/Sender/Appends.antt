-- ===== src/Sender/Appends.antt =====
-- A new send behind the others.
use mathlib.Core.List.{append_assoc, append-nil}
use ckpool.Common.{
  ℕ, ◌≡◌, refl, sym, ap, ◌∙◌, true, false, inl, inr, List, [], ◌∷◌, ◌++◌, ◌==◌, Bool-cases, arith,
}
use ckpool.Sender.{SenderSend, Client}
use ckpool.Sender.Writes.{remaining}
use ckpool.Sender.Queue.{
  rest_for, first_for, count_at, rest_for-append, first_for-found, count_at-append, IsDistinct,
  passed_over, own_first, same_address,
}
use ckpool.Sender.Order.{IsOrdered}

pub appended-IsDistinct :
    (xs : List SenderSend) (s : SenderSend)
    → count_at s.address xs ≡ 0
    → IsDistinct xs
    → IsDistinct (xs ++ (s ∷ []))
unfolding count_at
appended-IsDistinct xs s fresh d a =
    let sum = count_at-append a xs (s ∷ []) in
    let most = d a in
    elim (Bool-cases (s.address == a)) [
      | inl here ↦
          let none_there : count_at a xs ≡ 0 =
            ap (λ k. count_at k xs) (sym (same_address s.address a here)) ∙ fresh in
          let one : count_at a (s ∷ []) ≡ 1 = rw here refl in omega (arith, sum, none_there, one)
      | inr other ↦
          let zero_more : count_at a (s ∷ []) ≡ 0 = rw other refl in
          omega (arith, sum, most, zero_more)
    ]

pub appended_own :
    (id : ℕ) (c : Client) (s : SenderSend) (kept later : List SenderSend) (asked buf : List ℕ)
    → (s.client == id) ≡ true
    → remaining s ≡ buf
    → IsOrdered id c kept later asked
    → IsOrdered id c kept (later ++ (s ∷ [])) (asked ++ buf)
unfolding rest_for
appended_own id c s kept later asked buf own whole o =
    let q : kept ++ (later ++ (s ∷ [])) ≡ (kept ++ later) ++ (s ∷ []) =
      sym (append_assoc kept later _) in
    record {
      missing = o.missing ++ buf;
      before = sym (append_assoc c.written o.missing buf) ∙ ap (λ z. z ++ buf) o.before;
      pending = λ v.
          ap (λ z. c.written ++ rest_for id z) q
          ∙ ap (λ z. c.written ++ z)
              (rest_for-append id (kept ++ later) (s ∷ [])
                ∙ ap (λ z. rest_for id (kept ++ later) ++ z)
                    ((own_first id s [] own).1 ∙ append-nil (remaining s) ∙ whole))
          ∙ sym (append_assoc c.written _ buf)
          ∙ ap (λ z. z ++ buf) (o.pending v);
      idle = o.idle;
      busy = λ v k e.
          ap (first_for id) q ∙ first_for-found id k (kept ++ later) (s ∷ []) (o.busy v k e);
    }

pub appended_other :
    (id : ℕ) (c : Client) (s : SenderSend) (kept later : List SenderSend) (asked : List ℕ)
    → (s.client == id) ≡ false
    → IsOrdered id c kept later asked
    → IsOrdered id c kept (later ++ (s ∷ [])) asked
appended_other id c s kept later asked other o =
    let q : kept ++ (later ++ (s ∷ [])) ≡ (kept ++ later) ++ (s ∷ []) =
      sym (append_assoc kept later _) in
    let p = passed_over id s (kept ++ later) [] other in
    let n = append-nil (kept ++ later) in
    record {
      missing = o.missing;
      before = o.before;
      pending = λ v.
          ap (λ z. c.written ++ z) (ap (rest_for id) q ∙ p.1 ∙ ap (rest_for id) n) ∙ o.pending v;
      idle = o.idle;
      busy = λ v k e. ap (first_for id) q ∙ p.0 ∙ ap (first_for id) n ∙ o.busy v k e;
    }
