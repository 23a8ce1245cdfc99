-- ===== src/Work/Table.antt =====
-- Which shares and workbases the tables hold, through the operations on them.
use ckpool.Common.{
  ℕ, ◌≡◌, ◌≢◌, refl, inl, inr, Bool, true, false, ◌&&◌, ◌||◌, List, [], ◌∷◌, ◌++◌, some, ◌==◌,
  eq_bytes, eq_bytes_refl, arith, Bool-cases,
}
use ckpool.Work.{
  Workbase, Share, find_share, age_share_hashtable, delete_workbase, update_readcount,
}

-- A workbase is in the table; a share is.
unfoldable pub known : ℕ → List Workbase → Bool
known id [] = false
known id (w ∷ ws) = w.id == id || known id ws

unfoldable pub has_share : List ℕ → ℕ → List Share → Bool
has_share hash id [] = false
has_share hash id (x ∷ xs) = eq_bytes x.hash hash && x.workbase_id == id || has_share hash id xs

pub has_share-found :
    (hash : List ℕ) (id : ℕ) (xs : List Share)
    → has_share hash id xs ≡ true
    → (x : Share) × (find_share hash xs ≡ some x)
unfolding has_share find_share
has_share-found hash id [] h = ground (arith, h)
has_share-found hash id (x ∷ xs) h = elim (Bool-cases (eq_bytes x.hash hash)) [
  | inl e ↦ (x, ground (arith, e))
  | inr e ↦
      let (y, found) = has_share-found hash id xs (ground (arith, e, h)) in
      (y, ground (arith, e, found))
]

pub age-keeps :
    (hash : List ℕ) (id wb_id : ℕ) (xs : List Share)
    → wb_id ≢ id
    → has_share hash id xs ≡ true
    → has_share hash id (age_share_hashtable wb_id xs) ≡ true
unfolding has_share age_share_hashtable
age-keeps hash id wb_id [] ne h = ground (arith, h)
age-keeps hash id wb_id (x ∷ xs) ne h =
    let rest : has_share hash id xs ≡ true
        → has_share hash id (age_share_hashtable wb_id xs) ≡ true =
      age-keeps hash id wb_id xs ne in
    elim (Bool-cases (eq_bytes x.hash hash && x.workbase_id == id)) [
      | inl e ↦ ground (arith, e, ne)
      | inr e ↦
          let r = rest (ground (arith, e, h)) in
          elim (Bool-cases (x.workbase_id == wb_id)) [
            | inl k ↦ ground (arith, k, r)
            | inr k ↦ ground (arith, k, e, r)
          ]
    ]

pub known-delete :
    (id j : ℕ) (ws : List Workbase)
    → known id (delete_workbase j ws) ≡ true
    → (j ≢ id) × (known id ws ≡ true)
unfolding known delete_workbase
known-delete id j [] h = ground (arith, h)
known-delete id j (w ∷ ws) h = elim (Bool-cases (w.id == j)) [
  | inl e ↦ let (ne, k) = known-delete id j ws (ground (arith, e, h)) in (ne, ground (arith, k))
  | inr e ↦ elim (Bool-cases (w.id == id)) [
    | inl same ↦ (ground (arith, e, same), ground (arith, same))
    | inr other ↦
        let (ne, k) = known-delete id j ws (ground (arith, e, other, h)) in
        (ne, ground (arith, other, k))
  ]
]

pub known-append :
    (id : ℕ) (ws : List Workbase) (w : Workbase)
    → w.id ≢ id
    → known id (ws ++ (w ∷ [])) ≡ true
    → known id ws ≡ true
unfolding known
known-append id [] w ne h = ground (arith, ne, h)
known-append id (v ∷ ws) w ne h = elim (Bool-cases (v.id == id)) [
  | inl e ↦ ground (arith, e)
  | inr e ↦ let r = known-append id ws w ne (ground (arith, e, h)) in ground (arith, e, r)
]

pub has_share-append :
    (hash : List ℕ) (id : ℕ) (xs ys : List Share)
    → has_share hash id xs ≡ true
    → has_share hash id (xs ++ ys) ≡ true
unfolding has_share
has_share-append hash id [] ys h = ground (arith, h)
has_share-append hash id (x ∷ xs) ys h =
    elim (Bool-cases (eq_bytes x.hash hash && x.workbase_id == id)) [
      | inl e ↦ ground (arith, e)
      | inr e ↦
          let r = has_share-append hash id xs ys (ground (arith, e, h)) in ground (arith, e, r)
    ]

pub has_share-last :
    (hash : List ℕ) (id : ℕ) (xs : List Share)
    → has_share hash id (xs ++ (record { hash = hash; workbase_id = id } ∷ [])) ≡ true
unfolding has_share
has_share-last hash id [] = let r = eq_bytes_refl hash in ground (arith, r)
has_share-last hash id (x ∷ xs) = let r = has_share-last hash id xs in ground (arith, r)

pub known-update_readcount :
    (f : ℕ → ℕ) (id j : ℕ) (ws : List Workbase) → known id (update_readcount f j ws) ≡ known id ws
unfolding known update_readcount
known-update_readcount f id j [] = refl
known-update_readcount f id j (w ∷ ws) =
    let rest = known-update_readcount f id j ws in
    elim (Bool-cases (w.id == j)) [ inl e ↦ ground (arith, e) | inr e ↦ ground (arith, e, rest) ]
