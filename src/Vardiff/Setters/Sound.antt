-- ===== src/Vardiff/Setters/Sound.antt =====
-- No difficulty of 0 without a share.
use ckpool.Common.{
  ℕ, ◌≤◌, ◌≡◌, refl, Bool, true, false, not, ◌&&◌, List, [], ◌∷◌, Option, none, some, ltb, ltb→lt,
  ◌==◌, if◌then◌else◌, arith,
}
use ckpool.Vardiff.{Doubles, Tv, Config, Client}
use ckpool.Vardiff.Setters.{
  Entry, integer, missing, other_value, Text, add_instance, rental_service, authorise_diff, suggest,
  update_diff, set_both, override_diff, apply_rental, pattern_diff, with_password, apply_password,
  limited,
}
use ckpool.Vardiff.Bounds.{IsTruncation}
use ckpool.Vardiff.Answers.{IsSound}

found_positive : (b : Bool) (n : ℕ) → (b && not (n == 0)) ≡ true → 1 ≤ n
found_positive b n e = ground (arith, e)

higher : (low high : ℕ) → 1 ≤ low → ltb low high ≡ true → 1 ≤ high
higher low high h more = let l = ltb→lt low high more in omega (arith, h, l)

when {ℓ κ} :
    {A : Type ℓ} (P : A → Type κ) (b : Bool) (x y : A)
    → (b ≡ true → P x)
    → (b ≡ false → P y)
    → P (if b then x else y)
when P true x y p q = p refl
when P false x y p q = q refl

module _ (D : Doubles) where
  both-IsSound : (n : ℕ) (c : Client D) → 1 ≤ n → IsSound D (set_both D n c)
  unfolding set_both
  both-IsSound n c h = record { diff = h; old_diff = h }

  pub add_instance-IsSound :
      (cfg : Config) (server_highdiff : Bool) (now_t : Tv) (zeroed : Client D)
      → 1 ≤ cfg.startdiff
      → IsSound D (add_instance D cfg server_highdiff now_t zeroed)
  unfolding add_instance set_both
  add_instance-IsSound cfg server_highdiff now_t zeroed h =
      when (IsSound D) server_highdiff _ _
        (λ high.
          when (IsSound D) (ltb cfg.startdiff cfg.highdiff) _ _
            (λ more.
              let l = higher cfg.startdiff cfg.highdiff h more in record { diff = l; old_diff = l })
            (λ less. record { diff = h; old_diff = h }))
        (λ low. record { diff = h; old_diff = h })

  some_override : (n default : ℕ) → 1 ≤ default → 1 ≤ (if n == 0 then default else n)
  some_override n default h = ground (arith, h)

  override_diff-positive :
      (lower mixed : Entry) (default : ℕ) → 1 ≤ default → 1 ≤ override_diff D lower mixed default
  unfolding override_diff
  override_diff-positive (integer n) mixed default h = some_override n default h
  override_diff-positive other_value mixed default h = h
  override_diff-positive missing (integer n) default h = some_override n default h
  override_diff-positive missing missing default h = h
  override_diff-positive missing other_value default h = h

  rental-IsSound : (n : ℕ) (c : Client D) → 1 ≤ n → IsSound D (apply_rental D n c)
  unfolding apply_rental set_both
  rental-IsSound n c h = record { diff = h; old_diff = h }

  pub rental_service-IsSound :
      (nicehash miningrigrentals : Bool) (overrides : List ℕ → Entry) (c : Client D)
      → IsSound D c
      → IsSound D (rental_service D nicehash miningrigrentals overrides c)
  unfolding rental_service
  rental_service-IsSound nicehash miningrigrentals overrides c g =
      when (IsSound D) nicehash _ _
        (λ n. rental-IsSound _ c (override_diff-positive _ _ 500000 (omega arith)))
        (λ other.
          when (IsSound D) miningrigrentals _ _
            (λ m. rental-IsSound _ c (override_diff-positive _ _ 1000000 (omega arith)))
            (λ none_of_them. g))

  pattern_diff-IsSound :
      (entries : List (Bool × ℕ)) (c : Client D)
      → IsSound D c
      → IsSound D (pattern_diff D entries c)
  unfolding pattern_diff set_both
  pattern_diff-IsSound [] c g = g
  pattern_diff-IsSound (entry ∷ entries) c g =
      when (IsSound D) (entry.0 && not (entry.1 == 0)) _ _
        (λ found. let h = found_positive entry.0 entry.1 found in record { diff = h; old_diff = h })
        (λ other. pattern_diff-IsSound entries c g)

  one_at_least :
      (b c : Bool) (low high n : ℕ)
      → 1 ≤ n
      → (b ≡ false → 1 ≤ low)
      → (c ≡ false → 1 ≤ high)
      → 1 ≤ (
          if not c && ltb high (if not b && ltb n low then low else n)
          then high
          else if not b && ltb n low
          then low
          else n)
  one_at_least b c low high n h l g = ground (arith, h, l, g)

  not_zero_number : (n : ℕ) → (n == 0) ≡ false → 1 ≤ n
  not_zero_number n e = ground (arith, e)

  limited-positive : (cfg : Config) (n : ℕ) → 1 ≤ n → 1 ≤ limited D cfg n
  unfolding limited
  limited-positive cfg n h =
      one_at_least (cfg.mindiff == 0) (cfg.maxdiff == 0) cfg.mindiff cfg.maxdiff n h
        (not_zero_number cfg.mindiff) (not_zero_number cfg.maxdiff)

  apply_password-IsSound :
      (cfg : Config) (asked : Option ℕ) (c : Client D)
      → IsSound D c
      → IsSound D (apply_password D cfg asked c)
  unfolding apply_password set_both
  apply_password-IsSound cfg none c g = g
  apply_password-IsSound cfg (some n) c g =
      when (IsSound D) (n == 0) _ _ (λ unset. g)
        (λ set.
          let h = limited-positive cfg n (not_zero_number n set) in
          record { diff = h; old_diff = h })

  with_password-IsSound :
      (cfg : Config) (text : Text) (pass : Option (List ℕ)) (c : Client D)
      → IsSound D c
      → IsSound D (with_password D cfg text pass c)
  unfolding with_password
  with_password-IsSound cfg text none c g = g
  with_password-IsSound cfg text (some pass) c g = apply_password-IsSound cfg _ c g

  pub authorise_diff-IsSound :
      (cfg : Config) (text : Text) (overrides : List (Bool × ℕ)) (pass : Option (List ℕ))
      (c : Client D)
      → 1 ≤ cfg.startdiff
      → IsSound D c
      → IsSound D (authorise_diff D cfg text overrides pass c)
  unfolding authorise_diff
  authorise_diff-IsSound cfg text overrides pass c start g =
      let named = if c.rental_diff then c else pattern_diff D overrides c in
      let n =
        when (IsSound D) c.rental_diff c (pattern_diff D overrides c) (λ rental. g)
          (λ other. pattern_diff-IsSound overrides c g) in
      let asked = with_password D cfg text pass named in
      when (IsSound D) (asked.diff == 0) (set_both D cfg.startdiff asked) asked
        (λ unset. both-IsSound cfg.startdiff asked start)
        (λ set. with_password-IsSound cfg text pass named n)

  clamped_low : (asked low : ℕ) → 1 ≤ low → 1 ≤ (if ltb asked low then low else asked)
  clamped_low asked low h = ground (arith, h)

  pub suggest-IsSound :
      (cfg : Config) (workbase_id : ℕ) (active : Bool) (asked : Option ℕ) (c : Client D)
      → 1 ≤ cfg.mindiff
      → IsSound D c
      → IsSound D (suggest D cfg workbase_id active asked c).0
  unfolding suggest
  suggest-IsSound cfg workbase_id active none c low g = g
  suggest-IsSound cfg workbase_id active (some asked) c low g =
      let P : Client D × Option ℕ → Type 0 = λ r. IsSound D r.0 in
      when P (not active) _ _ (λ idle. g)
        (λ used.
          when P (_ == c.suggest_diff) _ _ (λ again. g)
            (λ other.
              when P (c.diff == _) _ _ (λ same. record { diff = g.diff; old_diff = g.old_diff })
                (λ new. record { diff = clamped_low asked cfg.mindiff low; old_diff = g.diff })))

  clamped_read :
      (b : Bool) (x y z : D.Double)
      → b ≡ false
      → D.less (if b then x else y) z ≡ true
      → D.less y z ≡ true
  clamped_read true x y z e l = absurd (ground (arith, e))
  clamped_read false x y z e l = l

  pub update_diff-IsSound :
      IsTruncation D
      → (old_diff read : D.Double) (c : Client D) → IsSound D c
      → IsSound D (update_diff D old_diff read c).0
  unfolding update_diff
  update_diff-IsSound trunc old_diff read c g =
      let P : Client D × Option ℕ → Type 0 = λ r. IsSound D r.0 in
      when P (D.less old_diff _) _ _ (λ raised. g)
        (λ dropped.
          when P (D.less _ (D.of_int c.diff)) _ _
            (λ above. record {
              diff =
                  when (λ x. 1 ≤ D.truncate x) (D.less read (D.decimal 1 0)) (D.decimal 1 0) read
                    (λ small. omega (arith, trunc.unit))
                    (λ large. trunc.one c.diff read large (clamped_read _ _ _ _ large above));
              old_diff = g.old_diff;
            })
            (λ below. g))
