-- ===== src/Work/Shares.antt =====
-- A share is counted once: what the events of a pool do to a recorded share.
use ckpool.Common.{
  ℕ, ◌<◌, ◌≤◌, ◌≡◌, refl, sym, ◌∙◌, inl, inr, Bool, true, false, List, [], ◌∷◌, ltb, eq_bytes,
  if◌then◌else◌, length, take, arith, Bool-cases, Option-cases,
}
use ckpool.Work.{
  Workbase, Sdata, find_share, new_share, discard, is_old, age_workbases, insert_base, add_base,
  get_workbase, put_workbase,
}
use ckpool.Work.Table.{
  age-keeps, has_share, has_share-append, has_share-found, has_share-last, known, known-append,
  known-delete, known-update_readcount,
}

-- What happens to a pool with its own workbases; each caller of add_base starts with a false flag.
pub data Event : Type 0 where
  added : Workbase → Event
  submitted : List ℕ → ℕ → Event
  taken : ℕ → Event
  returned : ℕ → Event

unfoldable pub step : Bool → Event → Sdata → Sdata
step btcsolo (added wb) s = (add_base false btcsolo wb false s).1
step btcsolo (submitted hash id) s = (new_share hash id s).1
step btcsolo (taken id) s = (get_workbase id s).1
step btcsolo (returned id) s = put_workbase id s

unfoldable pub run : Bool → List Event → Sdata → Sdata
run btcsolo [] s = s
run btcsolo (e ∷ es) s = run btcsolo es (step btcsolo e s)

-- Of a state: the workbase is there still, and no newer block has come.
pub record IsCurrent (id : ℕ) (s : Sdata) : Type 0 where
  pub in_table : known id s.workbases ≡ true
  pub no_newer_block : s.blockchange_id ≤ id

known-age_one :
    (btcsolo : Bool) (id : ℕ) (wb tmp : Workbase) (s : Sdata)
    → known id (if is_old wb tmp then discard btcsolo tmp.id s else s).workbases ≡ true
    → known id s.workbases ≡ true
unfolding discard
known-age_one btcsolo id wb tmp s h = elim (Bool-cases (is_old wb tmp)) [
  | inl e ↦ (known-delete id tmp.id s.workbases (ground (arith, e, h))).1
  | inr e ↦ ground (arith, e, h)
]

known-age_workbases :
    (btcsolo : Bool) (id : ℕ) (wb : Workbase) (rest : List Workbase) (s : Sdata)
    → known id (age_workbases btcsolo wb rest s).workbases ≡ true
    → known id s.workbases ≡ true
unfolding age_workbases
known-age_workbases btcsolo id wb [] s h = h
known-age_workbases btcsolo id wb (tmp ∷ rest) s h =
    let s' = if is_old wb tmp then discard btcsolo tmp.id s else s in
    elim (Bool-cases (ltb (length s.workbases) 3)) [
      | inl e ↦ ground (arith, e, h)
      | inr e ↦
          known-age_one btcsolo id wb tmp s
            (known-age_workbases btcsolo id wb rest s' (ground (arith, e, h)))
    ]

age_one-keeps :
    (btcsolo : Bool) (hash : List ℕ) (id : ℕ) (wb tmp : Workbase) (s : Sdata)
    → known id (if is_old wb tmp then discard btcsolo tmp.id s else s).workbases ≡ true
    → has_share hash id s.shares ≡ true
    → has_share hash id (if is_old wb tmp then discard btcsolo tmp.id s else s).shares ≡ true
unfolding discard
age_one-keeps btcsolo hash id wb tmp s h k = elim (Bool-cases (is_old wb tmp)) [
  | inl e ↦
      let ne = (known-delete id tmp.id s.workbases (ground (arith, e, h))).0 in
      let kept = age-keeps hash id tmp.id s.shares ne k in ground (arith, e, kept)
  | inr e ↦ ground (arith, e, k)
]

age_workbases-keeps :
    (btcsolo : Bool) (hash : List ℕ) (id : ℕ) (wb : Workbase) (rest : List Workbase) (s : Sdata)
    → known id (age_workbases btcsolo wb rest s).workbases ≡ true
    → has_share hash id s.shares ≡ true
    → has_share hash id (age_workbases btcsolo wb rest s).shares ≡ true
unfolding age_workbases
age_workbases-keeps btcsolo hash id wb [] s h k = k
age_workbases-keeps btcsolo hash id wb (tmp ∷ rest) s h k =
    let s' = if is_old wb tmp then discard btcsolo tmp.id s else s in
    elim (Bool-cases (ltb (length s.workbases) 3)) [
      | inl e ↦ ground (arith, e, k)
      | inr e ↦
          let h' : known id (age_workbases btcsolo wb rest s').workbases ≡ true =
            ground (arith, e, h) in
          let one =
            age_one-keeps btcsolo hash id wb tmp s (known-age_workbases btcsolo id wb rest s' h')
              k in
          let all = age_workbases-keeps btcsolo hash id wb rest s' h' one in ground (arith, e, all)
    ]

-- The fields that the loop leaves alone.
age_workbases-fixed :
    (btcsolo : Bool) (wb : Workbase) (rest : List Workbase) (s : Sdata)
    → ((age_workbases btcsolo wb rest s).blockchange_id ≡ s.blockchange_id)
      × ((age_workbases btcsolo wb rest s).workbase_id ≡ s.workbase_id)
unfolding age_workbases discard
age_workbases-fixed btcsolo wb [] s = (refl, refl)
age_workbases-fixed btcsolo wb (tmp ∷ rest) s =
    let s' = if is_old wb tmp then discard btcsolo tmp.id s else s in
    let (b, w) = age_workbases-fixed btcsolo wb rest s' in
    elim (Bool-cases (ltb (length s.workbases) 3)) [
      | inl e ↦ (ground (arith, e), ground (arith, e))
      | inr e ↦ elim (Bool-cases (is_old wb tmp)) [
        | inl o ↦ (ground (arith, e, o, b), ground (arith, e, o, w))
        | inr o ↦ (ground (arith, e, o, b), ground (arith, e, o, w))
      ]
    ]

-- What a step owes to a share of a workbase that is current behind it.
record Keeps (hash : List ℕ) (id : ℕ) (s s' : Sdata) : Type 0 where
  was_current : IsCurrent id s
  kept : has_share hash id s.shares ≡ true → has_share hash id s'.shares ≡ true

step-below :
    (btcsolo : Bool) (e : Event) (id : ℕ) (s : Sdata)
    → id < s.workbase_id
    → id < (step btcsolo e s).workbase_id
unfolding step add_base insert_base new_share get_workbase put_workbase
step-below btcsolo (added wb) id s l =
    let (wb', changed, s1) = insert_base false wb s in
    let f = (age_workbases-fixed btcsolo wb' s1.workbases s1).1 in omega (arith, l, f)
step-below btcsolo (submitted hash wb_id) id s l = elim (Option-cases (find_share hash s.shares)) [
  | inl e ↦ ground (arith, e, l)
  | inr (x, e) ↦ ground (arith, e, l)
]
step-below btcsolo (taken wb_id) id s l = l
step-below btcsolo (returned wb_id) id s l = l

added-Keeps :
    (btcsolo : Bool) (wb : Workbase) (hash : List ℕ) (id : ℕ) (s : Sdata)
    → id < s.workbase_id
    → IsCurrent id (step btcsolo (added wb) s)
    → Keeps hash id s (step btcsolo (added wb) s)
unfolding step add_base insert_base
added-Keeps btcsolo wb hash id s l c =
    let (wb', changed, s1) = insert_base false wb s in
    let f = (age_workbases-fixed btcsolo wb' s1.workbases s1).0 in
    elim (Bool-cases (eq_bytes (take 64 wb.prevhash) (take 64 s.lasthash))) [
      | inl same ↦ record {
        was_current = record {
          in_table =
              known-append id s.workbases wb' (omega (arith, l))
                (known-age_workbases btcsolo id wb' s1.workbases s1 c.in_table);
          no_newer_block = ground (arith, same, f, c);
        };
        kept = λ h.
            let k = age_workbases-keeps btcsolo hash id wb' s1.workbases s1 c.in_table h in
            ground (arith, same, k);
      }
      | inr other ↦ absurd (ground (arith, other, f, l, c))
    ]

step-Keeps :
    (btcsolo : Bool) (e : Event) (hash : List ℕ) (id : ℕ) (s : Sdata)
    → id < s.workbase_id
    → IsCurrent id (step btcsolo e s)
    → Keeps hash id s (step btcsolo e s)
unfolding step new_share get_workbase put_workbase
step-Keeps btcsolo (added wb) hash id s l c = added-Keeps btcsolo wb hash id s l c
step-Keeps btcsolo (submitted other wb_id) hash id s l c =
    elim (Option-cases (find_share other s.shares)) [
      | inl e ↦ record {
        was_current = record {
          in_table = ground (arith, e, c);
          no_newer_block = ground (arith, e, c);
        };
        kept = λ h.
            let k =
              has_share-append hash id s.shares (record { hash = other; workbase_id = wb_id } ∷ [])
                h in
            ground (arith, e, k);
      }
      | inr (x, e) ↦ record {
        was_current = record {
          in_table = ground (arith, e, c);
          no_newer_block = ground (arith, e, c);
        };
        kept = λ h. ground (arith, e, h);
      }
    ]
step-Keeps btcsolo (taken wb_id) hash id s l c = record {
  was_current = record {
    in_table = sym (known-update_readcount _ id wb_id s.workbases) ∙ c.in_table;
    no_newer_block = c.no_newer_block;
  };
  kept = λ h. h;
}
step-Keeps btcsolo (returned wb_id) hash id s l c = record {
  was_current = record {
    in_table = sym (known-update_readcount _ id wb_id s.workbases) ∙ c.in_table;
    no_newer_block = c.no_newer_block;
  };
  kept = λ h. h;
}

run-Keeps :
    (btcsolo : Bool) (es : List Event) (hash : List ℕ) (id : ℕ) (s : Sdata)
    → id < s.workbase_id
    → IsCurrent id (run btcsolo es s)
    → Keeps hash id s (run btcsolo es s)
unfolding run
run-Keeps btcsolo [] hash id s l c = record { was_current = c; kept = λ h. h }
run-Keeps btcsolo (e ∷ es) hash id s l c =
    let later = run-Keeps btcsolo es hash id (step btcsolo e s) (step-below btcsolo e id s l) c in
    let now = step-Keeps btcsolo e hash id s l later.was_current in
    record { was_current = now.was_current; kept = λ h. later.kept (now.kept h) }

has_share-new_share :
    (hash : List ℕ) (id : ℕ) (s : Sdata)
    → (new_share hash id s).0 ≡ true
    → has_share hash id (new_share hash id s).1.shares ≡ true
unfolding new_share
has_share-new_share hash id s h = elim (Option-cases (find_share hash s.shares)) [
  | inl e ↦ let k = has_share-last hash id s.shares in ground (arith, e, k)
  | inr (x, e) ↦ ground (arith, e, h)
]

-- A share that new_share has accepted for a workbase is refused from then on, whatever workbase it
-- names and whatever events have happened between, as long as its own workbase is in the table and
-- no newer block has come. The workbase's id is below the next one.
pub new_share-once :
    (btcsolo : Bool) (hash : List ℕ) (id id' : ℕ) (s : Sdata) (es : List Event)
    → id < s.workbase_id
    → (new_share hash id s).0 ≡ true
    → IsCurrent id (run btcsolo es (new_share hash id s).1)
    → (new_share hash id' (run btcsolo es (new_share hash id s).1)).0 ≡ false
unfolding new_share step
new_share-once btcsolo hash id id' s es l h c =
    let s' = (new_share hash id s).1 in
    let kept =
      (run-Keeps btcsolo es hash id s' (step-below btcsolo (submitted hash id) id s l) c).kept
        (has_share-new_share hash id s h) in
    let (x, found) = has_share-found hash id (run btcsolo es s').shares kept in
    ground (arith, found)
