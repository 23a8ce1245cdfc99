-- ===== src/Clients/Entries.antt =====
-- What a table of clients says of an id, and what changes, additions and deletions do to that.
use mathlib.Core.Path.{subst}
use ckpool.Common.{
  ℕ, ◌+◌, ◌<◌, ◌≡◌, ◌≢◌, inl, inr, refl, sym, ap, ◌∙◌, Bool, true, false, List, [], ◌∷◌, map,
  Option, none, some, ◌==◌, if◌then◌else◌, arith, Bool-cases, Option-cases, some_inj,
}
use ckpool.Clients.{Instance, instance_by_id, update_instance, delete_instance, set_dropped}

-- How many clients of an id a table has.
unfoldable pub number : ℕ → List Instance → ℕ
number id [] = 0
number id (c ∷ cs) = (if c.id == id then 1 else 0) + number id cs

unfoldable pub count : ℕ → List ℕ → ℕ
count id [] = 0
count id (i ∷ is) = (if i == id then 1 else 0) + count id is

unfoldable pub without : ℕ → List ℕ → List ℕ
without id [] = []
without id (i ∷ is) = if i == id then is else i ∷ without id is

pub count-without :
    (id j : ℕ) (is : List ℕ)
    → 0 < count j is
    → count id (without j is) + (if j == id then 1 else 0) ≡ count id is
unfolding count without
count-without id j [] pos = ground (arith, pos)
count-without id j (i ∷ is) pos = elim (Bool-cases (i == j)) [
  | inl h ↦ ground (arith, h)
  | inr h ↦ let r = count-without id j is (ground (arith, h, pos)) in ground (arith, h, r)
]

-- What a table says of an id: its client's references and whether it is dropped, or nothing.
pub record Entry : Type 0 where
  pub ref : ℕ
  pub dropped : Bool

unfoldable pub entry : ℕ → List Instance → Option Entry
entry id [] = none
entry id (c ∷ cs) =
    if c.id == id then some (record { ref = c.ref; dropped = c.dropped }) else entry id cs

pub entry-found :
    (id : ℕ) (cs : List Instance) (c : Instance)
    → instance_by_id id cs ≡ some c
    → entry id cs ≡ some (record { ref = c.ref; dropped = c.dropped })
unfolding entry instance_by_id
entry-found id [] c h = ground (arith, h)
entry-found id (d ∷ cs) c h = elim (Bool-cases (d.id == id)) [
  | inl e ↦ let same : d ≡ c = some_inj (ground (arith, e, h)) in ground (arith, e, same)
  | inr e ↦ let r = entry-found id cs c (ground (arith, e, h)) in ground (arith, e, r)
]

pub entry-none : (id : ℕ) (cs : List Instance) → instance_by_id id cs ≡ none → entry id cs ≡ none
unfolding entry instance_by_id
entry-none id [] h = refl
entry-none id (d ∷ cs) h = elim (Bool-cases (d.id == id)) [
  | inl e ↦ ground (arith, e, h)
  | inr e ↦ let r = entry-none id cs (ground (arith, e, h)) in ground (arith, e, r)
]

-- A change of an entry that keeps ids.
pub entry-update :
    (id j : ℕ) (f : Instance → Instance) (cs : List Instance)
    → ((c : Instance) → (f c).id ≡ c.id)
    → j ≢ id
    → entry id (update_instance f j cs) ≡ entry id cs
unfolding entry update_instance
entry-update id j f [] keeps ne = refl
entry-update id j f (c ∷ cs) keeps ne =
    let r = entry-update id j f cs keeps ne in
    let k = keeps c in
    elim (Bool-cases (c.id == j)) [
      | inl e ↦ ground (arith, e, k, ne)
      | inr e ↦ elim (Bool-cases (c.id == id)) [
        | inl h ↦ ground (arith, e, h)
        | inr h ↦ ground (arith, e, h, r)
      ]
    ]

pub entry-updated :
    (id : ℕ) (f : Instance → Instance) (cs : List Instance) (c : Instance)
    → ((c : Instance) → (f c).id ≡ c.id)
    → instance_by_id id cs ≡ some c
    → entry id (update_instance f id cs)
      ≡ some (record { ref = (f c).ref; dropped = (f c).dropped })
unfolding entry update_instance instance_by_id
entry-updated id f [] c keeps h = ground (arith, h)
entry-updated id f (d ∷ cs) c keeps h =
    let k = keeps d in
    elim (Bool-cases (d.id == id)) [
      | inl e ↦
          let same : d ≡ c = some_inj (ground (arith, e, h)) in
          subst
            (λ (x : Instance).
              entry id (update_instance f id (d ∷ cs))
              ≡ some (record { ref = (f x).ref; dropped = (f x).dropped }))
            same (ground (arith, e, k))
      | inr e ↦ let r = entry-updated id f cs c keeps (ground (arith, e, h)) in ground (arith, e, r)
    ]

pub entry-delete :
    (id j : ℕ) (cs : List Instance) → j ≢ id → entry id (delete_instance j cs) ≡ entry id cs
unfolding entry delete_instance
entry-delete id j [] ne = refl
entry-delete id j (c ∷ cs) ne =
    let r = entry-delete id j cs ne in
    elim (Bool-cases (c.id == j)) [
      | inl e ↦ ground (arith, e, ne)
      | inr e ↦ elim (Bool-cases (c.id == id)) [
        | inl h ↦ ground (arith, e, h)
        | inr h ↦ ground (arith, e, h, r)
      ]
    ]

pub tagged : Option Entry → Bool
tagged none = false
tagged (some e) = e.dropped

pub tagged-found :
    (id : ℕ) (cs : List Instance)
    → tagged (entry id cs) ≡ true
    → (c : Instance) × (instance_by_id id cs ≡ some c) × (c.dropped ≡ true)
unfolding tagged
tagged-found id cs t = elim (Option-cases (instance_by_id id cs)) [
  | inl n ↦ let e = entry-none id cs n in ground (arith, e, t)
  | inr (c, h) ↦ let e = entry-found id cs c h in (c, h, ground (arith, e, t))
]

pub found-tagged :
    (id : ℕ) (cs : List Instance) (c : Instance)
    → instance_by_id id cs ≡ some c
    → c.dropped ≡ true
    → tagged (entry id cs) ≡ true
unfolding tagged
found-tagged id cs c h d = let e = entry-found id cs c h in ground (arith, e, d)

-- A change that untags no client leaves a tagged one so.
pub tagged-update :
    (id j : ℕ) (f : Instance → Instance) (cs : List Instance)
    → ((c : Instance) → (f c).id ≡ c.id)
    → ((c : Instance) → c.dropped ≡ true → (f c).dropped ≡ true)
    → tagged (entry id cs) ≡ true
    → tagged (entry id (update_instance f j cs)) ≡ true
unfolding tagged
tagged-update id j f cs keeps drops t = elim (Bool-cases (j == id)) [
  | inl e ↦
      let same : j ≡ id = ground (arith, e) in
      let (c, h, d) = tagged-found id cs t in
      subst (λ k. tagged (entry id (update_instance f k cs)) ≡ true) (sym same)
        (ap tagged (entry-updated id f cs c keeps h) ∙ drops c d)
  | inr e ↦ ap tagged (entry-update id j f cs keeps (ground (arith, e))) ∙ t
]

pub tagged-other :
    (id : ℕ) (c : Instance) (cs : List Instance)
    → c.id ≢ id
    → tagged (entry id cs) ≡ true
    → tagged (entry id (c ∷ cs)) ≡ true
unfolding entry
tagged-other id c cs ne t = ground (arith, ne, t)

pub tagged-all :
    (id : ℕ) (cs : List Instance)
    → tagged (entry id cs) ≡ true
    → tagged (entry id (map set_dropped cs)) ≡ true
unfolding tagged entry set_dropped
tagged-all id [] t = t
tagged-all id (c ∷ cs) t = elim (Bool-cases (c.id == id)) [
  | inl h ↦ ground (arith, h)
  | inr h ↦ let r = tagged-all id cs (ground (arith, h, t)) in ground (arith, h, r)
]
