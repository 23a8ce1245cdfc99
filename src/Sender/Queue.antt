-- ===== src/Sender/Queue.antt =====
-- The sends of one client in the lists of the sender.
use mathlib.Core.List.{append_assoc}
use ckpool.Common.{
  ℕ, suc, ◌+◌, ◌≤◌, ◌≡◌, refl, sym, ap, ◌∙◌, true, false, inl, inr, List, [], ◌∷◌, ◌++◌, Option,
  none, some, ◌==◌, if◌then◌else◌, Bool-cases, some_inj, arith,
}
use ckpool.Sender.{SenderSend, Cdata}
use ckpool.Sender.Writes.{remaining}

-- What is queued, in order: the sends kept in this pass, the ones before the thread, and the new ones.
abbrev pub queue : Cdata → List SenderSend
queue d = d.kept ++ (d.sends ++ d.sender_sends)

-- The bytes that are not written to a client yet.
unfoldable pub rest_for : ℕ → List SenderSend → List ℕ
rest_for id [] = []
rest_for id (s ∷ sends) =
    if s.client == id then remaining s ++ rest_for id sends else rest_for id sends

-- The first send for a client.
unfoldable pub first_for : ℕ → List SenderSend → Option ℕ
first_for id [] = none
first_for id (s ∷ sends) = if s.client == id then some s.address else first_for id sends

-- How many sends stand at an address.
unfoldable pub count_at : ℕ → List SenderSend → ℕ
count_at address [] = 0
count_at address (s ∷ sends) =
    if s.address == address then suc (count_at address sends) else count_at address sends

pub rest_for-append :
    (id : ℕ) (xs ys : List SenderSend) → rest_for id (xs ++ ys) ≡ rest_for id xs ++ rest_for id ys
unfolding rest_for
rest_for-append id [] ys = refl
rest_for-append id (s ∷ xs) ys = elim (Bool-cases (s.client == id)) [
  | inl own ↦
      rw own (
        ap (λ z. remaining s ++ z) (rest_for-append id xs ys)
        ∙ sym (append_assoc (remaining s) _ _))
  | inr other ↦ rw other (rest_for-append id xs ys)
]

pub count_at-append :
    (a : ℕ) (xs ys : List SenderSend) → count_at a (xs ++ ys) ≡ count_at a xs + count_at a ys
unfolding count_at
count_at-append a [] ys = omega arith
count_at-append a (s ∷ xs) ys =
    let r = count_at-append a xs ys in
    elim (Bool-cases (s.address == a)) [
      | inl here ↦ rw here (omega (arith, r))
      | inr other ↦ rw other r
    ]

nothing : (id : ℕ) → rest_for id [] ≡ []
unfolding rest_for
nothing id = refl

pub same_address : (a b : ℕ) → (a == b) ≡ true → a ≡ b
same_address a b e = ground (arith, e)

after_first : Option ℕ → Option ℕ → Option ℕ
after_first none later = later
after_first (some k) later = some k

first_for-after :
    (id : ℕ) (xs ys : List SenderSend)
    → first_for id (xs ++ ys) ≡ after_first (first_for id xs) (first_for id ys)
unfolding first_for after_first
first_for-after id [] ys = refl
first_for-after id (s ∷ xs) ys = elim (Bool-cases (s.client == id)) [
  | inl own ↦ rw own refl
  | inr other ↦ rw other (first_for-after id xs ys)
]

pub first_for-found :
    (id k : ℕ) (xs ys : List SenderSend)
    → first_for id xs ≡ some k
    → first_for id (xs ++ ys) ≡ some k
unfolding after_first
first_for-found id k xs ys e =
    first_for-after id xs ys ∙ ap (λ o. after_first o (first_for id ys)) e

pub own_first :
    (id : ℕ) (s : SenderSend) (xs : List SenderSend)
    → (s.client == id) ≡ true
    → (first_for id (s ∷ xs) ≡ some s.address)
      × (rest_for id (s ∷ xs) ≡ remaining s ++ rest_for id xs)
unfolding first_for rest_for
own_first id s xs own = (rw own refl, rw own refl)

pub other_first :
    (id : ℕ) (s : SenderSend) (xs : List SenderSend)
    → (s.client == id) ≡ false
    → (first_for id (s ∷ xs) ≡ first_for id xs) × (rest_for id (s ∷ xs) ≡ rest_for id xs)
unfolding first_for rest_for
other_first id s xs other = (rw other refl, rw other refl)

pub some_none {ℓ} : {A : Type ℓ} (k : ℕ) → some k ≡ none → A
some_none k e = ground (arith, e)

pub nothing_for : (id : ℕ) (xs : List SenderSend) → first_for id xs ≡ none → rest_for id xs ≡ []
nothing_for id [] e = nothing id
nothing_for id (s ∷ xs) e = elim (Bool-cases (s.client == id)) [
  | inl own ↦ some_none s.address (sym (own_first id s xs own).0 ∙ e)
  | inr other ↦ let o = other_first id s xs other in o.1 ∙ nothing_for id xs (sym o.0 ∙ e)
]

-- A list without sends for a client adds nothing before the others.
pub skipped :
    (id : ℕ) (xs ys : List SenderSend)
    → first_for id xs ≡ none
    → (first_for id (xs ++ ys) ≡ first_for id ys) × (rest_for id (xs ++ ys) ≡ rest_for id ys)
unfolding after_first
skipped id xs ys e = (
  first_for-after id xs ys ∙ ap (λ o. after_first o (first_for id ys)) e,
  rest_for-append id xs ys ∙ ap (λ z. z ++ rest_for id ys) (nothing_for id xs e),
)

counted : (k : ℕ) (s : SenderSend) (xs : List SenderSend) → s.address ≡ k → 1 ≤ count_at k (s ∷ xs)
unfolding count_at
counted k s xs e = ground (arith, e)

counted_more : (k : ℕ) (s : SenderSend) (xs : List SenderSend) → count_at k xs ≤ count_at k (s ∷ xs)
unfolding count_at
counted_more k s xs = ground arith

counted_first : (id k : ℕ) (xs : List SenderSend) → first_for id xs ≡ some k → 1 ≤ count_at k xs
unfolding first_for
counted_first id k [] e = some_none k (sym e)
counted_first id k (s ∷ xs) e = elim (Bool-cases (s.client == id)) [
  | inl own ↦ counted k s xs (some_inj (sym (own_first id s xs own).0 ∙ e))
  | inr other ↦
      let r = counted_first id k xs (sym (other_first id s xs other).0 ∙ e) in
      let m = counted_more k s xs in omega (arith, r, m)
]

-- No two sends stand at one address.
abbrev pub IsDistinct : List SenderSend → Type 0
IsDistinct xs = (a : ℕ) → count_at a xs ≤ 1

-- Of two sends of a list, the first for a client is not the other one.
pub first-distinct :
    (id k : ℕ) (s : SenderSend) (xs ys : List SenderSend)
    → IsDistinct (xs ++ (s ∷ ys))
    → first_for id xs ≡ some k
    → s.address ≡ k
    → ⊥
first-distinct id k s xs ys d f e =
    let one = counted_first id k xs f in
    let two = counted k s ys e in
    let sum = count_at-append k xs (s ∷ ys) in let most = d k in omega (arith, one, two, sum, most)

-- A send for another client, in the middle.
pub passed_over :
    (id : ℕ) (s : SenderSend) (xs ys : List SenderSend)
    → (s.client == id) ≡ false
    → (first_for id (xs ++ (s ∷ ys)) ≡ first_for id (xs ++ ys))
      × (rest_for id (xs ++ (s ∷ ys)) ≡ rest_for id (xs ++ ys))
passed_over id s xs ys other =
    let o = other_first id s ys other in
    (
      first_for-after id xs (s ∷ ys)
          ∙ ap (after_first (first_for id xs)) o.0
          ∙ sym (first_for-after id xs ys),
      rest_for-append id xs (s ∷ ys)
          ∙ ap (λ z. rest_for id xs ++ z) o.1
          ∙ sym (rest_for-append id xs ys),
    )
