-- ===== src/Work/Kept.antt =====
-- Which workbases add_base keeps.
use ckpool.Common.{
  ℕ, ◌+◌, ◌<◌, ◌≡◌, ◌≢◌, refl, sym, ◌∙◌, inl, inr, Bool, true, false, List, [], ◌∷◌, ◌++◌, some,
  ltb, ◌==◌, if◌then◌else◌, length, All, All-append, arith, Bool-cases,
}
use ckpool.Work.{
  Workbase, Sdata, find_workbase, delete_workbase, discard, is_old, age_workbases, insert_base,
  add_base,
}

find-delete :
    (id j : ℕ) (ws : List Workbase)
    → j ≢ id
    → find_workbase id (delete_workbase j ws) ≡ find_workbase id ws
unfolding find_workbase delete_workbase
find-delete id j [] ne = refl
find-delete id j (w ∷ ws) ne =
    let rest = find-delete id j ws ne in
    elim (Bool-cases (w.id == j)) [
      | inl e ↦ ground (arith, e, ne, rest)
      | inr e ↦ elim (Bool-cases (w.id == id)) [
        | inl k ↦ ground (arith, e, k)
        | inr k ↦ ground (arith, e, k, rest)
      ]
    ]

find-append :
    (id : ℕ) (ws vs : List Workbase) (w : Workbase)
    → find_workbase id ws ≡ some w
    → find_workbase id (ws ++ vs) ≡ some w
unfolding find_workbase
find-append id [] vs w h = ground (arith, h)
find-append id (x ∷ ws) vs w h = elim (Bool-cases (x.id == id)) [
  | inl e ↦ ground (arith, e, h)
  | inr e ↦ let r = find-append id ws vs w (ground (arith, e, h)) in ground (arith, e, r)
]

-- The table finds each of its workbases, so their ids differ, and new ids are larger.
pub record IsTable (s : Sdata) : Type 0 where
  pub distinct : All (λ w. find_workbase w.id s.workbases ≡ some w) s.workbases
  pub below : All (λ w. w.id < s.workbase_id) s.workbases

find-fresh :
    (id : ℕ) (ws : List Workbase) (w : Workbase)
    → All (λ v. v.id < id) ws
    → w.id ≡ id
    → find_workbase id (ws ++ (w ∷ [])) ≡ some w
unfolding find_workbase
find-fresh id [] w below e = ground (arith, e)
find-fresh id (v ∷ ws) w below e =
    let r = find-fresh id ws w below.1 e in let l = below.0 in ground (arith, l, r)

All-map {ℓ κ κ'} :
    {A : Type ℓ} (P : A → Type κ) (Q : A → Type κ') (xs : List A)
    → ((x : A) → P x → Q x)
    → All P xs
    → All Q xs
All-map P Q [] f h = tt
All-map P Q (x ∷ xs) f h = (f x h.0, All-map P Q xs f h.1)

-- The table with the new workbase.
insert_base-IsTable : (wb : Workbase) (s : Sdata) → IsTable s → IsTable (insert_base false wb s).2
unfolding insert_base
insert_base-IsTable wb s t =
    let wb' : Workbase = record wb { id = s.workbase_id } in
    let all = s.workbases ++ (wb' ∷ []) in
    record {
      distinct =
          All-append (λ w. find_workbase w.id all ≡ some w) s.workbases (wb' ∷ [])
            (All-map _ (λ w. find_workbase w.id all ≡ some w) s.workbases
              (λ w h. find-append w.id s.workbases (wb' ∷ []) w h) t.distinct)
            (find-fresh s.workbase_id s.workbases wb' t.below refl, tt);
      below =
          All-append (λ w. w.id < s.workbase_id + 1) s.workbases (wb' ∷ [])
            (All-map _ (λ w. w.id < s.workbase_id + 1) s.workbases (λ w h. omega (arith, h))
              t.below)
            (omega arith, tt);
    }

if-either {ℓ κ} :
    {A : Type ℓ} (P : A → Type κ) (b : Bool) (x y : A)
    → (b ≡ true → P x)
    → (b ≡ false → P y)
    → P (if b then x else y)
if-either P true x y f g = f refl
if-either P false x y f g = g refl

All-delete {κ} :
    (P : Workbase → Type κ) (j : ℕ) (ws : List Workbase)
    → All P ws
    → All (λ w. P w × w.id ≢ j) (delete_workbase j ws)
unfolding delete_workbase
All-delete P j [] h = tt
All-delete P j (w ∷ ws) h =
    let rest = All-delete P j ws h.1 in
    if-either (All (λ w. P w × w.id ≢ j)) (w.id == j) _ _ (λ e. rest)
      (λ e. ((h.0, ground (arith, e)), rest))

discard-IsTable : (btcsolo : Bool) (j : ℕ) (s : Sdata) → IsTable s → IsTable (discard btcsolo j s)
unfolding discard
discard-IsTable btcsolo j s t = record {
  distinct =
      All-map _ (λ w. find_workbase w.id (delete_workbase j s.workbases) ≡ some w) _
        (λ w h. find-delete w.id j s.workbases (λ e. h.1 (sym e)) ∙ h.0)
        (All-delete (λ w. find_workbase w.id s.workbases ≡ some w) j s.workbases t.distinct);
  below =
      All-map _ (λ w. w.id < s.workbase_id) _ (λ w h. h.0)
        (All-delete (λ w. w.id < s.workbase_id) j s.workbases t.below);
}

age_workbases-IsTable :
    (btcsolo : Bool) (wb : Workbase) (rest : List Workbase) (s : Sdata)
    → IsTable s
    → IsTable (age_workbases btcsolo wb rest s)
unfolding age_workbases
age_workbases-IsTable btcsolo wb [] s t = t
age_workbases-IsTable btcsolo wb (tmp ∷ rest) s t =
    if-either IsTable (ltb (length s.workbases) 3) _ _ (λ e. t)
      (λ e.
        age_workbases-IsTable btcsolo wb rest _ (
          if-either IsTable (is_old wb tmp) _ _ (λ o. discard-IsTable btcsolo tmp.id s t) (λ o. t)))

-- From a table of workbases with different ids below the next one, add_base makes such a table.
pub add_base-IsTable :
    (btcsolo new_block : Bool) (wb : Workbase) (s : Sdata)
    → IsTable s
    → IsTable (add_base false btcsolo wb new_block s).1
unfolding add_base
add_base-IsTable btcsolo new_block wb s t =
    let (wb', changed, s1) = insert_base false wb s in
    let r = age_workbases-IsTable btcsolo wb' s1.workbases s1 (insert_base-IsTable wb s t) in
    record { distinct = r.distinct; below = r.below }
