-- ===== src/Vardiff/Change.antt =====
-- When add_submit changes the difficulty, and what it leaves alone.
use mathlib.Core.Path.{subst}
use ckpool.Common.{
  ℕ, ◌+◌, ◌^◌, ◌≤◌, ◌<◌, ◌≡◌, ◌≢◌, ◌⊎◌, inl, inr, refl, sym, Bool, true, false, not, ◌&&◌, Option,
  none, some, some_inj, ltb, ◌==◌, if◌then◌else◌, Bool-cases, arith,
}
use ckpool.Vardiff.{
  Doubles, Tv, Config, Client, Worker, Sdata, network_of, Submitted, sane_tdiff, least_diff,
  optimal_diff, change_diff, retarget, first_shared,
}
use ckpool.Vardiff.Bounds.{IsTruncation, IsNumber, IsClamped, clamp-IsClamped}

chosen :
    (a b c : Bool) (x y n : ℕ)
    → (if a then none else if b then some x else if c then none else some y) ≡ some n
    → (x ≡ n) ⊎ (y ≡ n)
chosen true b c x y n e = ground (arith, e)
chosen false true c x y n e = inl (some_inj e)
chosen false false true x y n e = ground (arith, e)
chosen false false false x y n e = inr (some_inj e)

module _ (D : Doubles) where
  pub record IsSame (c : Client D) (r : Client D × Option ℕ) : Type 0 where
    pub diff : r.0.diff ≡ c.diff
    pub old_diff : r.0.old_diff ≡ c.old_diff
    pub diff_change_job_id : r.0.diff_change_job_id ≡ c.diff_change_job_id
    pub sent : r.1 ≡ none

  -- A new difficulty, in its limits: the one before is kept for the jobs before this one, the count
  -- starts again, and the client is told. It is lowered on a later share than the first only.
  pub record IsChange (cfg : Config) (mindiff most id : ℕ) (c : Client D) (r : Client D × Option ℕ)
      : Type 0 where
    pub clamped : IsClamped cfg mindiff most r.0.diff
    pub positive : 1 ≤ r.0.diff
    pub other : r.0.diff ≢ c.diff
    pub old_diff : r.0.old_diff ≡ c.diff
    pub diff_change_job_id : r.0.diff_change_job_id ≡ id
    pub ssdc : r.0.ssdc ≡ 0
    pub sent : r.1 ≡ some r.0.diff
    pub lowered : r.0.diff < c.diff → 0 < c.ssdc

  -- Enough shares or time behind the last change, and a share at the client's difficulty.
  pub record IsDue (now_t : Tv) (diff : D.Double) (c : Client D) : Type 0 where
    pub often : (71 ≤ c.ssdc) ⊎ (D.less (sane_tdiff D now_t c.ldc) (D.decimal 240 0) ≡ false)
    pub own : D.equal diff (D.of_int c.diff) ≡ true

  optimal-IsClamped :
      IsTruncation D
      → (cfg : Config) → cfg.maxdiff ≤ 2 ^ 53
      → (network_diff : D.Double) → IsNumber D network_diff
      → (c : Client D) (w : Worker D) (dsps : D.Double) (n : ℕ)
      → optimal_diff D cfg network_diff c w dsps ≡ some n
      → IsClamped cfg (least_diff D c w) (D.truncate network_diff) n
  unfolding optimal_diff
  optimal-IsClamped trunc cfg exact network_diff number c w dsps n e =
      let drr = D.over dsps (D.of_int c.diff) in
      let least = least_diff D c w in
      let a =
        clamp-IsClamped D trunc cfg exact least network_diff number
          (D.lround (D.times dsps (D.decimal 333 2))) in
      let b =
        clamp-IsClamped D trunc cfg exact least network_diff number
          (D.lround (D.times dsps (D.decimal 24 1))) in
      elim (chosen (D.less (D.decimal 15 2) drr && D.less drr (D.decimal 4 1)) (least == 0)
        (D.less drr (D.decimal 5 1)) _ _ n e) [
          | inl x ↦ subst (IsClamped cfg least (D.truncate network_diff)) x a
          | inr y ↦ subst (IsClamped cfg least (D.truncate network_diff)) y b
        ]

  different : (a b : ℕ) → (a == b) ≡ false → b ≢ a
  different a b h e = ground (arith, h, e)

  later_share : (n d ssdc : ℕ) → (ltb n d && ssdc + 1 == 1) ≡ false → n < d → 0 < ssdc
  later_share n d ssdc h l = ground (arith, h, l)

  change_diff_lem :
      (cfg : Config) (mindiff most id : ℕ) (now_t : Tv) (before : Client D) (n : ℕ)
      → IsClamped cfg mindiff most n
      → let r = change_diff D id now_t (record before { ssdc = before.ssdc + 1 }) n in
        IsSame before r ⊎ IsChange cfg mindiff most id before r
  unfolding change_diff
  change_diff_lem cfg mindiff most id now_t before n bounds = elim (Bool-cases (ltb n 1)) [
    | inl small ↦
        rw small
          (inl record { diff = refl; old_diff = refl; diff_change_job_id = refl; sent = refl })
    | inr positive ↦ elim (Bool-cases (before.diff == n)) [
      | inl same ↦
          rw (positive, same)
            (inl record { diff = refl; old_diff = refl; diff_change_job_id = refl; sent = refl })
      | inr other ↦ elim (Bool-cases (ltb n before.diff && before.ssdc + 1 == 1)) [
        | inl early ↦
            rw (positive, other, early)
              (inl record { diff = refl; old_diff = refl; diff_change_job_id = refl; sent = refl })
        | inr due ↦
            rw (positive, other, due)
              (inr record {
                clamped = bounds;
                positive = ground (arith, positive);
                other = different before.diff n other;
                old_diff = refl;
                diff_change_job_id = refl;
                ssdc = refl;
                sent = refl;
                lowered = later_share n before.diff before.ssdc due;
              })
      ]
    ]
  ]

  -- The answer of retarget: the same difficulty, or a new one that is due.
  unfoldable pub Retargeted :
      Config → Sdata D → Tv → D.Double → Client D → Worker D → Client D × Option ℕ → Type 0
  Retargeted cfg sdata now_t diff before w r =
      IsSame before r
      ⊎ (IsChange cfg (least_diff D before w) (D.truncate (network_of D cfg sdata))
            sdata.workbase_id before r
          × IsDue now_t diff before)

  due_often :
      (ssdc : ℕ) (early : Bool)
      → (ltb (ssdc + 1) 72 && early) ≡ false
      → (71 ≤ ssdc) ⊎ (early ≡ false)
  due_often ssdc true e = inl (ground (arith, e))
  due_often ssdc false e = inr refl

  by_optimal :
      (cfg : Config) (mindiff most id : ℕ) (now_t : Tv) (diff : D.Double) (before : Client D)
      (o : Option ℕ)
      → ((n : ℕ) → o ≡ some n → IsClamped cfg mindiff most n)
      → IsDue now_t diff before
      → let c : Client D = record before { ssdc = before.ssdc + 1 } in
        let r : Client D × Option ℕ = elim o [
          | none ↦ (c, none)
          | some optimal ↦ change_diff D id now_t c optimal
        ] in
        IsSame before r ⊎ (IsChange cfg mindiff most id before r × IsDue now_t diff before)
  by_optimal cfg mindiff most id now_t diff before none bounds due =
      inl record { diff = refl; old_diff = refl; diff_change_job_id = refl; sent = refl }
  by_optimal cfg mindiff most id now_t diff before (some n) bounds due =
      elim (change_diff_lem cfg mindiff most id now_t before n (bounds n refl)) [
        | inl same ↦ inl same
        | inr change ↦ inr (change, due)
      ]

  positive_of : (b : Bool) → not b ≡ false → b ≡ true
  positive_of true e = refl
  positive_of false e = sym e

  pub retarget-Retargeted :
      IsTruncation D
      → (cfg : Config) → cfg.maxdiff ≤ 2 ^ 53
      → (sdata : Sdata D) → IsNumber D (network_of D cfg sdata)
      → (now_t : Tv) (diff : D.Double) (before : Client D) (w : Worker D)
      → Retargeted cfg sdata now_t diff before w (retarget D cfg sdata now_t diff before w)
  unfolding retarget Retargeted least_diff
  retarget-Retargeted trunc cfg exact sdata number now_t diff before w =
      elim (Bool-cases
        (ltb (before.ssdc + 1) 72 && D.less (sane_tdiff D now_t before.ldc) (D.decimal 240 0))) [
          | inl early ↦
              rw early (
                inl record { diff = refl; old_diff = refl; diff_change_job_id = refl; sent = refl })
          | inr due ↦ elim (Bool-cases (not (D.equal diff (D.of_int before.diff)))) [
            | inl other ↦
                rw (due, other)
                  (inl
                    record { diff = refl; old_diff = refl; diff_change_job_id = refl; sent = refl })
            | inr own ↦
                rw (due, own)
                  (by_optimal cfg (least_diff D before w) (D.truncate (network_of D cfg sdata))
                    sdata.workbase_id now_t diff before _
                    (λ n e.
                      optimal-IsClamped trunc cfg exact (network_of D cfg sdata) number
                        (record before { ssdc = before.ssdc + 1 }) w _ n e)
                    record {
                      often =
                          due_often before.ssdc
                            (D.less (sane_tdiff D now_t before.ldc) (D.decimal 240 0)) due;
                      own = positive_of (D.equal diff (D.of_int before.diff)) own;
                    })
          ]
        ]

  -- What add_submit does with the difficulty.
  unfoldable pub Answered : Config → Sdata D → Tv → D.Double → Submitted D → Submitted D → Type 0
  Answered cfg sdata now_t diff s r =
      IsSame s.client (r.client, r.sent)
      ⊎ (IsChange cfg (least_diff D s.client s.worker) (D.truncate (network_of D cfg sdata))
            sdata.workbase_id s.client (r.client, r.sent)
          × IsDue now_t diff (first_shared D now_t s.client))
