-- ===== src/Vardiff/Answers.antt =====
-- What a share does to the difficulty of its client.
use mathlib.Core.Path.{subst}
use ckpool.Common.{
  ℕ, ◌^◌, ◌≤◌, ◌<◌, ◌≡◌, inl, inr, refl, sym, ap, ◌∙◌, Bool, true, false, not, ◌&&◌, Option, none,
  ◌==◌, if◌then◌else◌, Bool-cases,
}
use ckpool.Vardiff.{
  Doubles, Tv, Config, Client, Worker, Sdata, network_of, Submitted, least_diff, first_shared,
  shared, worker_shared, add_submit,
}
use ckpool.Vardiff.Bounds.{IsTruncation, IsNumber, IsClamped}
use ckpool.Vardiff.Change.{IsSame, IsChange, IsDue, Retargeted, retarget-Retargeted, Answered}

module _ (D : Doubles) where
  record SharedAs (c c' : Client D) : Type 0 where
    diff : c'.diff ≡ c.diff
    old_diff : c'.old_diff ≡ c.old_diff
    diff_change_job_id : c'.diff_change_job_id ≡ c.diff_change_job_id
    ssdc : c'.ssdc ≡ c.ssdc
    suggest_diff : c'.suggest_diff ≡ c.suggest_diff

  shared_as : (now_t : Tv) (diff : D.Double) (c : Client D) → SharedAs c (shared D now_t diff c)
  unfolding shared first_shared
  shared_as now_t diff c = elim (Bool-cases (c.first_share.tv_sec == 0)) [
    | inl first ↦ rw first record {
      diff = refl;
      old_diff = refl;
      diff_change_job_id = refl;
      ssdc = refl;
      suggest_diff = refl;
    }
    | inr later ↦ rw later record {
      diff = refl;
      old_diff = refl;
      diff_change_job_id = refl;
      ssdc = refl;
      suggest_diff = refl;
    }
  ]

  shared-IsSame :
      (c c' : Client D) (r : Client D × Option ℕ) → SharedAs c c' → IsSame D c' r → IsSame D c r
  shared-IsSame c c' r a s = record {
    diff = s.diff ∙ a.diff;
    old_diff = s.old_diff ∙ a.old_diff;
    diff_change_job_id = s.diff_change_job_id ∙ a.diff_change_job_id;
    sent = s.sent;
  }

  shared-IsChange :
      (cfg : Config) (mindiff mindiff' most id : ℕ) (c c' : Client D) (r : Client D × Option ℕ)
      → mindiff' ≡ mindiff
      → SharedAs c c'
      → IsChange D cfg mindiff' most id c' r
      → IsChange D cfg mindiff most id c r
  shared-IsChange cfg mindiff mindiff' most id c c' r e a s = record {
    clamped = subst (λ m. IsClamped cfg m most r.0.diff) e s.clamped;
    positive = s.positive;
    other = λ same. s.other (same ∙ sym a.diff);
    old_diff = s.old_diff ∙ a.diff;
    diff_change_job_id = s.diff_change_job_id;
    ssdc = s.ssdc;
    sent = s.sent;
    lowered = λ l.
        let h = s.lowered (subst (λ d. r.0.diff < d) (sym a.diff) l) in subst (λ n. 0 < n) a.ssdc h;
  }

  same_least :
      (now_t : Tv) (diff : D.Double) (valid : Bool) (c c' : Client D) (w : Worker D)
      → SharedAs c c'
      → least_diff D c' (worker_shared D now_t diff valid w) ≡ least_diff D c w
  unfolding least_diff worker_shared
  same_least now_t diff valid c c' w a = ap (λ n. if n == 0 then w.mindiff else n) a.suggest_diff

  shared-IsDue :
      (now_t : Tv) (diff : D.Double) (c : Client D)
      → IsDue D now_t diff (shared D now_t diff c)
      → IsDue D now_t diff (first_shared D now_t c)
  unfolding shared
  shared-IsDue now_t diff c d = record { often = d.often; own = d.own }

  unchanged_as : (c c' : Client D) → SharedAs c c' → IsSame D c (c', none)
  unchanged_as c c' a = record {
    diff = a.diff;
    old_diff = a.old_diff;
    diff_change_job_id = a.diff_change_job_id;
    sent = refl;
  }

  one_of_three {ℓ κ} :
      {A : Type ℓ} (P : A → Type κ) (a b : Bool) (x y z : A)
      → P x
      → P y
      → P z
      → P (if a then x else if b then y else z)
  one_of_three P true b x y z p q r = p
  one_of_three P false true x y z p q r = q
  one_of_three P false false x y z p q r = r

  pub add_submit-Answered :
      IsTruncation D
      → (cfg : Config) → cfg.maxdiff ≤ 2 ^ 53
      → (sdata : Sdata D) → IsNumber D (network_of D cfg sdata)
      → (now_t : Tv) (diff : D.Double) (valid submit : Bool) (s : Submitted D)
      → Answered D cfg sdata now_t diff s (add_submit D cfg sdata now_t diff valid submit s)
  unfolding add_submit Answered Retargeted
  add_submit-Answered trunc cfg exact sdata number now_t diff valid submit s =
      let c = shared D now_t diff s.client in
      let w = worker_shared D now_t diff valid s.worker in
      let a = shared_as now_t diff s.client in
      one_of_three (Answered D cfg sdata now_t diff s) (not valid && not submit) cfg.node _ _ _
        (inl record { diff = refl; old_diff = refl; diff_change_job_id = refl; sent = refl })
        (inl (unchanged_as s.client c a))
        (elim (retarget-Retargeted D trunc cfg exact sdata number now_t diff c w) [
          | inl same ↦ inl (shared-IsSame s.client c _ a same)
          | inr change ↦ inr (
            shared-IsChange cfg _ _ _ sdata.workbase_id s.client c _
                (same_least now_t diff valid s.client c s.worker a) a change.0,
            shared-IsDue now_t diff s.client change.1,
          )
        ])

  pub record IsSound (c : Client D) : Type 0 where
    pub diff : 1 ≤ c.diff
    pub old_diff : 1 ≤ c.old_diff

  pub Answered-IsSound :
      (cfg : Config) (sdata : Sdata D) (now_t : Tv) (diff : D.Double) (s r : Submitted D)
      → Answered D cfg sdata now_t diff s r
      → IsSound s.client
      → IsSound r.client
  unfolding Answered
  Answered-IsSound cfg sdata now_t diff s r (inl same) g = record {
    diff = subst (λ n. 1 ≤ n) (sym same.diff) g.diff;
    old_diff = subst (λ n. 1 ≤ n) (sym same.old_diff) g.old_diff;
  }
  Answered-IsSound cfg sdata now_t diff s r (inr change) g = record {
    diff = change.0.positive;
    old_diff = subst (λ n. 1 ≤ n) (sym change.0.old_diff) g.diff;
  }
