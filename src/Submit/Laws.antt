-- ===== src/Submit/Laws.antt =====
-- Which shares parse_submit accepts, and what it leaves behind.
use ckpool.Common.{
  ℕ, ◌+◌, ◌-◌, ◌%◌, ◌^◌, ◌<◌, ◌≡◌, refl, ap, ◌∙◌, ◌⊎◌, inl, inr, Bool, true, false, not, ◌&&◌, List,
  [], ◌∷◌, Option, none, some, ◌==◌, All, arith, Bool-cases, Option-cases,
}
use ckpool.Work.{
  Workbase, Share, Sdata, find_workbase, find_share, new_share, update_readcount, get_workbase,
  put_workbase,
}
use ckpool.Submit.{
  ShareErr, Check, refused, passed, Fields, Outcome, World, check_params, is_late, ntime_is_valid,
  evaluated, settle, judge, judge_found, parse_submit,
}

unfoldable pub is_new : List ℕ → List Share → Bool
is_new hash shares = elim (find_share hash shares) [ none ↦ true | some x ↦ false ]

pub Check-cases {ℓ} :
    {A : Type ℓ} (c : Check A) → ((e : ShareErr) × (c ≡ refused e)) ⊎ ((a : A) × (c ≡ passed a))
Check-cases (refused e) = inl (e, refl)
Check-cases (passed a) = inr (a, refl)

readcount-back : (n : ℕ) → n < 2 ^ 32 → ((n + 1) % 2 ^ 32 + 2 ^ 32 - 1) % 2 ^ 32 ≡ n
readcount-back n small = omega (arith, small)

update_readcount-hit :
    (f : ℕ → ℕ) (id : ℕ) (w : Workbase) (ws : List Workbase)
    → w.id == id ≡ true
    → update_readcount f id (w ∷ ws) ≡ record w { readcount = f w.readcount } ∷ ws
unfolding update_readcount
update_readcount-hit f id w ws e = ground (arith, e)

update_readcount-none :
    (f : ℕ → ℕ) (id : ℕ) (ws : List Workbase)
    → find_workbase id ws ≡ none
    → update_readcount f id ws ≡ ws
unfolding update_readcount find_workbase
update_readcount-none f id [] n = refl
update_readcount-none f id (w ∷ ws) n = elim (Bool-cases (w.id == id)) [
  | inl e ↦ ground (arith, e, n)
  | inr e ↦ let r = update_readcount-none f id ws (ground (arith, e, n)) in ground (arith, e, r)
]

update_readcount-back :
    (id : ℕ) (ws : List Workbase)
    → All (λ w. w.readcount < 2 ^ 32) ws
    → update_readcount
        (λ n. (n + 2 ^ 32 - 1) % 2 ^ 32)
        id
        (update_readcount (λ n. (n + 1) % 2 ^ 32) id ws)
      ≡ ws
unfolding update_readcount
update_readcount-back id [] small = refl
update_readcount-back id (w ∷ ws) small = elim (Bool-cases (w.id == id)) [
  | inl e ↦
      let b = readcount-back w.readcount small.0 in
      ap (update_readcount (λ n. (n + 2 ^ 32 - 1) % 2 ^ 32) id)
        (update_readcount-hit (λ n. (n + 1) % 2 ^ 32) id w ws e)
      ∙ update_readcount-hit (λ n. (n + 2 ^ 32 - 1) % 2 ^ 32) id
          (record w { readcount = (w.readcount + 1) % 2 ^ 32 }) ws e
      ∙ ap (λ n. record w { readcount = n } ∷ ws) b
  | inr e ↦ let r = update_readcount-back id ws small.1 in ground (arith, e, r)
]

module _ (W : World) where
  open W use {at_least, mindiff, scan32, scan_id, version_mask}

  -- A share of a known workbase counts: not late, its time in the window, difficult enough, new.
  unfoldable pub acceptable : Fields → Workbase → Sdata → Bool
  acceptable f wb s =
      let (sdiff, hash) = evaluated W f wb s in
      not (is_late W (scan_id f.job_id) wb s)
      && ntime_is_valid W (scan32 f.ntime) wb
      && at_least sdiff mindiff
      && is_new hash s.shares

  -- The same from the parameters on: they pass the checks, and the workbase is known.
  unfoldable pub acceptable_params :
      Option (List ℕ) → Option (List (Option (List ℕ))) → Sdata → Bool
  acceptable_params client_name params s =
      elim (check_params scan32 version_mask client_name params) [
        | refused e ↦ false
        | passed f ↦ elim (find_workbase (scan_id f.job_id) s.workbases) [
          | none ↦ false
          | some wb ↦ acceptable f wb s
        ]
      ]

  fresh-is_new :
      (hash : List ℕ) (id : ℕ) (s : Sdata) → (new_share hash id s).0 ≡ is_new hash s.shares
  unfolding new_share is_new
  fresh-is_new hash id s = elim (Option-cases (find_share hash s.shares)) [
    | inl e ↦ ground (arith, e)
    | inr (x, e) ↦ ground (arith, e)
  ]

  fresh-put :
      (hash : List ℕ) (id : ℕ) (s : Sdata)
      → (new_share hash id (put_workbase id s)).0 ≡ is_new hash s.shares
  unfolding put_workbase
  fresh-put hash id s = fresh-is_new hash id (put_workbase id s)

  judge-result :
      (f : Fields) (current wb : Workbase) (s : Sdata)
      → (judge W f current wb s).result ≡ acceptable f wb s
  unfolding judge settle acceptable
  judge-result f current wb s =
      let n = fresh-put (evaluated W f wb s).1 (scan_id f.job_id) s in
      elim (Bool-cases (is_late W (scan_id f.job_id) wb s)) [
        | inl l ↦ ground (arith, l)
        | inr l ↦ elim (Bool-cases (ntime_is_valid W (scan32 f.ntime) wb)) [
          | inl v ↦ elim (Bool-cases (at_least (evaluated W f wb s).0 mindiff)) [
            | inl d ↦ ground (arith, l, v, d, n)
            | inr d ↦ ground (arith, l, v, d)
          ]
          | inr v ↦ ground (arith, l, v)
        ]
      ]

  acceptable-got :
      (f : Fields) (wb : Workbase) (id : ℕ) (s : Sdata)
      → acceptable f wb (get_workbase id s).1 ≡ acceptable f wb s
  unfolding acceptable get_workbase is_late evaluated
  acceptable-got f wb id s = refl

  -- The answer of parse_submit, once there is a current workbase.
  pub parse_submit-acceptable :
      (client_name : Option (List ℕ)) (params : Option (List (Option (List ℕ))))
      (current : Workbase) (s : Sdata)
      → (parse_submit W client_name params (some current) s).result
        ≡ acceptable_params client_name params s
  unfolding parse_submit judge_found acceptable_params get_workbase
  parse_submit-acceptable client_name params current s =
      elim (Check-cases (check_params scan32 version_mask client_name params)) [
        | inl (e, c) ↦ ground (arith, c)
        | inr (f, c) ↦ elim (Option-cases (find_workbase (scan_id f.job_id) s.workbases)) [
          | inl n ↦ ground (arith, c, n)
          | inr (wb, k) ↦
              let j =
                judge-result f current wb (get_workbase (scan_id f.job_id) s).1
                ∙ acceptable-got f wb (scan_id f.job_id) s in
              ground (arith, c, k, j)
        ]
      ]

  new_share-workbases :
      (hash : List ℕ) (id : ℕ) (s : Sdata) → (new_share hash id s).1.workbases ≡ s.workbases
  unfolding new_share
  new_share-workbases hash id s = elim (Option-cases (find_share hash s.shares)) [
    | inl e ↦ ground (arith, e)
    | inr (x, e) ↦ ground (arith, e)
  ]

  new_share-refused :
      (hash : List ℕ) (id : ℕ) (s : Sdata)
      → (new_share hash id s).0 ≡ false
      → (new_share hash id s).1.shares ≡ s.shares
  unfolding new_share
  new_share-refused hash id s h = elim (Option-cases (find_share hash s.shares)) [
    | inl e ↦ ground (arith, e, h)
    | inr (x, e) ↦ ground (arith, e)
  ]

  judge-tables :
      (f : Fields) (current wb : Workbase) (s : Sdata)
      → ((judge W f current wb s).sdata.workbases ≡ (put_workbase (scan_id f.job_id) s).workbases)
        × ((judge W f current wb s).result ≡ false
            → (judge W f current wb s).sdata.shares ≡ (put_workbase (scan_id f.job_id) s).shares)
  unfolding judge settle
  judge-tables f current wb s =
      let id = scan_id f.job_id in
      let s' = put_workbase id s in
      let hash = (evaluated W f wb s).1 in
      let w = new_share-workbases hash id s' in
      let r = new_share-refused hash id s' in
      elim (Bool-cases (is_late W id wb s)) [
        | inl l ↦ (ground (arith, l), λ no. ground (arith, l))
        | inr l ↦ elim (Bool-cases (ntime_is_valid W (scan32 f.ntime) wb)) [
          | inl v ↦ elim (Bool-cases (at_least (evaluated W f wb s).0 mindiff)) [
            | inl d ↦ (
              ground (arith, l, v, d, w),
              λ no. let k = r (ground (arith, l, v, d, no)) in ground (arith, l, v, d, k),
            )
            | inr d ↦ (ground (arith, l, v, d), λ no. ground (arith, l, v, d))
          ]
          | inr v ↦ (ground (arith, l, v), λ no. ground (arith, l, v))
        ]
      ]

  taken-put :
      (id : ℕ) (s : Sdata)
      → All (λ w. w.readcount < 2 ^ 32) s.workbases
      → (put_workbase id (get_workbase id s).1).workbases ≡ s.workbases
  unfolding put_workbase get_workbase
  taken-put id s small = update_readcount-back id s.workbases small

  shares-put : (id : ℕ) (s : Sdata) → (put_workbase id (get_workbase id s).1).shares ≡ s.shares
  unfolding put_workbase get_workbase
  shares-put id s = refl

  -- What a handler leaves of the tables: the same workbases with the same read counts, and the
  -- same shares unless it accepted one.
  pub record IsBalanced (s : Sdata) (o : Outcome) : Type 0 where
    pub same_workbases : o.sdata.workbases ≡ s.workbases
    pub same_shares : o.result ≡ false → o.sdata.shares ≡ s.shares

  unread-shares : (id : ℕ) (s : Sdata) → (get_workbase id s).1.shares ≡ s.shares
  unfolding get_workbase
  unread-shares id s = refl

  unread-workbases :
      (id : ℕ) (s : Sdata)
      → (get_workbase id s).0 ≡ none
      → (get_workbase id s).1.workbases ≡ s.workbases
  unfolding get_workbase
  unread-workbases id s n = update_readcount-none _ id s.workbases n

  found-IsBalanced :
      (f : Fields) (current : Workbase) (s : Sdata)
      → All (λ w. w.readcount < 2 ^ 32) s.workbases
      → IsBalanced s (judge_found W f current (get_workbase (scan_id f.job_id) s))
  unfolding judge_found
  found-IsBalanced f current s small =
      let id = scan_id f.job_id in
      let s1 = (get_workbase id s).1 in
      elim (Option-cases (get_workbase id s).0) [
        | inl n ↦ record {
          same_workbases = let u = unread-workbases id s n in ground (arith, n, u);
          same_shares = λ no. let u = unread-shares id s in ground (arith, n, u);
        }
        | inr (wb, k) ↦
            let (w, r) = judge-tables f current wb s1 in
            let back = w ∙ taken-put id s small in
            record {
              same_workbases = ground (arith, k, back);
              same_shares =
                  λ no. let x = r (ground (arith, k, no)) ∙ shares-put id s in ground (arith, k, x);
            }
      ]

  -- On every path of parse_submit, errors included, with read counts that fit their 32 bits: the
  -- read count it takes is given back, and a share that is not accepted leaves no trace.
  pub parse_submit-IsBalanced :
      (client_name : Option (List ℕ)) (params : Option (List (Option (List ℕ))))
      (current : Option Workbase) (s : Sdata)
      → All (λ w. w.readcount < 2 ^ 32) s.workbases
      → IsBalanced s (parse_submit W client_name params current s)
  unfolding parse_submit judge_found
  parse_submit-IsBalanced client_name params current s small =
      elim (Check-cases (check_params scan32 version_mask client_name params)) [
        | inl (e, c) ↦ record {
          same_workbases = ground (arith, c);
          same_shares = λ no. ground (arith, c);
        }
        | inr (f, c) ↦ elim (Option-cases current) [
          | inl n ↦ record {
            same_workbases = ground (arith, c, n);
            same_shares = λ no. ground (arith, c, n);
          }
          | inr (cur, k) ↦
              let b = found-IsBalanced f cur s small in
              let w = b.same_workbases in
              let r = b.same_shares in
              record {
                same_workbases = ground (arith, c, k, w);
                same_shares = λ no. let x = r (ground (arith, c, k, no)) in ground (arith, c, k, x);
              }
        ]
      ]
