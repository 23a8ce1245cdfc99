-- ===== src/Vardiff/Bounds.antt =====
-- The difficulty that add_submit sets.
use ckpool.Common.{ℕ, ◌^◌, ◌≤◌, ◌≡◌, ◌⊎◌, inl, inr, refl, true, false, ◌==◌, Bool-cases, arith}
use ckpool.Vardiff.{Doubles, Config, max_diff, min_diff, min_network, clamp}

-- A double that int64_t can take: no NaN, not below 0, and below 2 ^ 63.
pub record IsNumber (D : Doubles) (x : D.Double) : Type 0 where
  pub nonnegative : D.less x (D.decimal 0 0) ≡ false
  pub bounded : D.less x (D.of_int (2 ^ 63)) ≡ true

-- The conversion of a double to an integer, and the order of an integer and a double. Up to 2 ^ 53 the
-- double of an integer is exact. A double below that of an integer is no NaN.
pub record IsTruncation (D : Doubles) : Type 0 where
  pub below :
      (n : ℕ) (x : D.Double) → IsNumber D x → D.less (D.of_int n) x ≡ true → n ≤ D.truncate x
  pub above :
      (n : ℕ) (x : D.Double)
      → n ≤ 2 ^ 53
      → IsNumber D x
      → D.less (D.of_int n) x ≡ false
      → D.truncate x ≤ n
  pub one :
      (n : ℕ) (x : D.Double)
      → D.less x (D.decimal 1 0) ≡ false
      → D.less x (D.of_int n) ≡ true
      → 1 ≤ D.truncate x
  pub unit : D.truncate (D.decimal 1 0) ≡ 1

max_least : (a b : ℕ) → (a ≤ max_diff a b) × (b ≤ max_diff a b)
unfolding max_diff
max_least a b = ground arith

min_most : (a b : ℕ) → (min_diff a b ≤ a) × (min_diff a b ≤ b)
unfolding min_diff
min_most a b = ground arith

min_one : (a b : ℕ) → (min_diff a b ≡ a) ⊎ (min_diff a b ≡ b)
unfolding min_diff
min_one a b = ground arith

-- Between the least difficulties and the greatest ones, unless these are below those.
pub record IsClamped (cfg : Config) (mindiff most n : ℕ) : Type 0 where
  pub network : n ≤ most
  pub greatest : (cfg.maxdiff ≡ 0) ⊎ (n ≤ cfg.maxdiff)
  pub least : ((cfg.mindiff ≤ n) × (mindiff ≤ n)) ⊎ ((n ≡ cfg.maxdiff) ⊎ (n ≡ most))

module _ (D : Doubles) (trunc : IsTruncation D) where
  min_network_lem :
      (n : ℕ) (x : D.Double)
      → IsNumber D x
      → ((n ≤ 2 ^ 53 → min_network D n x ≤ n) × (min_network D n x ≤ D.truncate x))
        × ((min_network D n x ≡ n) ⊎ (min_network D n x ≡ D.truncate x))
  unfolding min_network
  min_network_lem n x number = elim (Bool-cases (D.less (D.of_int n) x)) [
    | inl l ↦ rw l ((λ exact. omega arith, trunc.below n x number l), inl refl)
    | inr g ↦ rw g ((λ exact. trunc.above n x exact number g, omega arith), inr refl)
  ]

  pub clamp-IsClamped :
      (cfg : Config)
      → cfg.maxdiff ≤ 2 ^ 53
      → (mindiff : ℕ) (network_diff : D.Double) → IsNumber D network_diff
      → (optimal : ℕ)
      → IsClamped cfg mindiff (D.truncate network_diff) (clamp D cfg mindiff network_diff optimal)
  unfolding clamp
  clamp-IsClamped cfg exact mindiff network_diff number optimal =
      let a = max_diff optimal cfg.mindiff in
      let raised = max_diff a mindiff in
      let l = max_least optimal cfg.mindiff in
      let m = max_least a mindiff in
      let top = min_most raised cfg.maxdiff in
      let high : (cfg.mindiff ≤ raised) × (mindiff ≤ raised) = (omega (arith, l.1, m.0), m.1) in
      elim (Bool-cases (cfg.maxdiff == 0)) [
        | inl unset ↦ rw unset (
            let n = min_network_lem raised network_diff number in
            record {
              network = n.0.1;
              greatest = inl (ground (arith, unset));
              least = elim n.1 [
                | inl e ↦ inl (omega (arith, e, high.0), omega (arith, e, high.1))
                | inr e ↦ inr (inr e)
              ];
            })
        | inr set ↦ rw set (
            let n = min_network_lem (min_diff raised cfg.maxdiff) network_diff number in
            let held = n.0.0 (omega (arith, top.1, exact)) in
            record {
              network = n.0.1;
              greatest = inr (omega (arith, held, top.1));
              least = elim n.1 [
                | inl e ↦ elim (min_one raised cfg.maxdiff) [
                  | inl r ↦ inl (omega (arith, e, r, high.0), omega (arith, e, r, high.1))
                  | inr r ↦ inr (inl (omega (arith, e, r)))
                ]
                | inr e ↦ inr (inr e)
              ];
            })
      ]
