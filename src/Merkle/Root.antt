-- ===== src/Merkle/Root.antt =====
-- The merkle root of Bitcoin, and that the branch leads from the coinbase to it.
use ckpool.Common.{
  ℕ, zero, suc, ◌+◌, ◌*◌, ◌%◌, ◌^◌, ◌≤◌, ◌<◌, ◌≡◌, refl, ap, sym, List, [], ◌∷◌, some, none,
  some_inj, ◌∙◌, length, ◌==◌, leb, if◌then◌else◌, arith, Bool-cases, inl, inr,
}
use mathlib.Core.Path.{subst}
use ckpool.Merkle.{last_twice, hash_pairs, next_slots, merkle_loop, merkle_bins, merkle_root}

module _ {ℓ} {A : Type ℓ} (hash : A → A → A) where
  -- One level of the tree: neighbours are hashed together, an odd last one with itself.
  pub data Level : List A → List A → Type ℓ where
    done : Level [] []
    odd : (x : A) → Level (x ∷ []) (hash x x ∷ [])
    pair : (x y : A) (xs ys : List A) → Level xs ys → Level (x ∷ y ∷ xs) (hash x y ∷ ys)

  -- The root is the only hash of the last level.
  pub data Root : List A → A → Type ℓ where
    alone : (x : A) → Root (x ∷ []) x
    up :
        (x y : A) (xs next : List A) (r : A)
        → Level (x ∷ y ∷ xs) next
        → Root next r
        → Root (x ∷ y ∷ xs) r

  last_twice-longer :
      (x y : A) (xs : List A)
      → length xs % 2 ≡ 1
      → last_twice hash (x ∷ y ∷ xs) ≡ x ∷ y ∷ last_twice hash xs
  unfolding last_twice
  last_twice-longer x y [] e = absurd (omega (arith, e))
  last_twice-longer x y (z ∷ zs) e = refl

  odd_again : (n : ℕ) → (suc (suc n) % 2 == 1) ≡ (n % 2 == 1)
  odd_again n = let e : suc (suc n) % 2 ≡ n % 2 = omega arith in ap (λ m. m == 1) e

  hash_pairs-longer :
      (x y : A) (xs : List A)
      → hash_pairs hash
          (if length (x ∷ y ∷ xs) % 2 == 1 then last_twice hash (x ∷ y ∷ xs) else x ∷ y ∷ xs)
        ≡ hash x y ∷ hash_pairs hash (if length xs % 2 == 1 then last_twice hash xs else xs)
  unfolding hash_pairs
  hash_pairs-longer x y xs =
      subst
        (λ b.
          hash_pairs hash (if b then last_twice hash (x ∷ y ∷ xs) else x ∷ y ∷ xs)
          ≡ hash x y ∷ hash_pairs hash (if length xs % 2 == 1 then last_twice hash xs else xs))
        (sym (odd_again (length xs)))
        (elim (Bool-cases (length xs % 2 == 1)) [
          | inl h ↦
              let e = last_twice-longer x y xs (ground (arith, h)) in
              rw h (ap (λ slots. hash_pairs hash slots) e)
          | inr h ↦ rw h refl
        ])

  pairs-Level :
      (xs : List A)
      → Level xs (hash_pairs hash (if length xs % 2 == 1 then last_twice hash xs else xs))
  unfolding hash_pairs last_twice
  pairs-Level [] = done
  pairs-Level (x ∷ []) = odd x
  pairs-Level (x ∷ y ∷ xs) =
      subst (λ level. Level (x ∷ y ∷ xs) level) (sym (hash_pairs-longer x y xs))
        (pair x y xs _ (pairs-Level xs))

  next_slots-Level :
      (acc x : A) (xs : List A) → Level (acc ∷ x ∷ xs) (hash acc x ∷ next_slots hash x xs)
  unfolding next_slots
  next_slots-Level acc x xs =
      let e : (2 + length xs) % 2 ≡ length xs % 2 = omega arith in
      pair acc x xs (next_slots hash x xs) (rw e (pairs-Level xs))

  length-Level : {xs ys : List A} → Level xs ys → 2 * length ys ≡ length xs + length xs % 2
  length-Level done = refl
  length-Level (odd x) = refl
  length-Level (pair x y xs ys l) = omega (arith, length-Level l)

  length-next_slots :
      (x : A) (xs : List A) → 2 * length (next_slots hash x xs) ≡ length xs + length xs % 2
  length-next_slots x xs = omega (arith, length-Level (next_slots-Level x x xs))

  -- The branch for some transactions: the loop returns it with room for this number of hashes, it
  -- has as many hashes as the number of transactions needs bits, and hashing the coinbase up it gives
  -- the merkle root.
  pub record Branch (fuel : ℕ) (acc : A) (txids : List A) : Type ℓ where
    pub bins : List A
    pub run : merkle_loop hash fuel txids ≡ some bins
    pub few : length bins ≤ fuel
    pub many : length txids < 2 ^ length bins
    pub root : Root (acc ∷ txids) (merkle_root hash acc bins)

  merkle_loop-some :
      (fuel : ℕ) (x : A) (xs bins : List A)
      → merkle_loop hash fuel (next_slots hash x xs) ≡ some bins
      → merkle_loop hash (suc fuel) (x ∷ xs) ≡ some (x ∷ bins)
  unfolding merkle_loop
  merkle_loop-some fuel x xs bins e = ground (arith, e)

  doubled : (m n k : ℕ) → 2 * n ≡ m + m % 2 → n < 2 ^ k → suc m < 2 ^ suc k
  doubled m n k e l = omega (arith, e, l)

  longer :
      (fuel : ℕ) (acc x : A) (xs : List A)
      → Branch fuel (hash acc x) (next_slots hash x xs)
      → Branch (suc fuel) acc (x ∷ xs)
  unfolding merkle_root
  longer fuel acc x xs b =
      let n = length-next_slots x xs in
      record {
        bins = x ∷ b.bins;
        run = merkle_loop-some fuel x xs b.bins b.run;
        few = omega (arith, b.few);
        many = doubled (length xs) (length (next_slots hash x xs)) (length b.bins) n b.many;
        root = up acc x xs (hash acc x ∷ next_slots hash x xs) _ (next_slots-Level acc x xs) b.root;
      }

  merkle_loop-Branch :
      (fuel : ℕ) (acc : A) (txids : List A) → length txids < 2 ^ fuel → Branch fuel acc txids
  unfolding merkle_loop merkle_root
  merkle_loop-Branch fuel acc [] small = record {
    bins = [];
    run = refl;
    few = omega arith;
    many = omega arith;
    root = alone acc;
  }
  merkle_loop-Branch zero acc (x ∷ xs) small = absurd (omega (arith, small))
  merkle_loop-Branch (suc fuel) acc (x ∷ xs) small =
      let n = length-next_slots x xs in
      longer fuel acc x xs
        (merkle_loop-Branch fuel (hash acc x) (next_slots hash x xs) (omega (arith, n, small)))

  halved : (m n k : ℕ) → 2 * n ≡ m + m % 2 → 2 ^ suc k ≤ suc m → 2 ^ k ≤ n
  halved m n k e l = omega (arith, e, l)

  power_positive : (k : ℕ) → 0 < 2 ^ k
  power_positive zero = omega arith
  power_positive (suc k) = omega (arith, power_positive k)

  merkle_loop-none :
      (fuel : ℕ) (txids : List A) → 2 ^ fuel ≤ length txids → merkle_loop hash fuel txids ≡ none
  unfolding merkle_loop
  merkle_loop-none zero [] many = absurd (omega (arith, many))
  merkle_loop-none (suc fuel) [] many = absurd (omega (arith, many, power_positive fuel))
  merkle_loop-none zero (x ∷ xs) many = refl
  merkle_loop-none (suc fuel) (x ∷ xs) many =
      let n = length-next_slots x xs in
      let r =
        merkle_loop-none fuel (next_slots hash x xs)
          (halved (length xs) (length (next_slots hash x xs)) fuel n many) in
      ground (arith, r)

  -- For fewer than 65536 transactions the loop of wb_merkle_bin_txns stays within the 16 entries of
  -- merklebin and ends with a branch that has as many hashes as the number of transactions needs bits,
  -- with which submission_diff computes the merkle root of the coinbase and the transactions; for
  -- 65536 transactions or more it writes behind the entries.
  pub merkle_bins-Branch :
      (acc : A) (txids : List A)
      → (length txids < 2 ^ 16
          → Branch 16 acc txids × merkle_bins hash txids ≡ merkle_loop hash 16 txids)
        × (2 ^ 16 ≤ length txids → merkle_bins hash txids ≡ none)
  unfolding merkle_bins
  merkle_bins-Branch acc txids =
      (λ few. (merkle_loop-Branch 16 acc txids few, refl), λ many. merkle_loop-none 16 txids many)

  merkle_bins-few :
      (txids bins : List A) → merkle_bins hash txids ≡ some bins → length txids < 2 ^ 16
  unfolding merkle_bins
  merkle_bins-few txids bins run = elim (Bool-cases (leb (2 ^ 16) (length txids))) [
    | inl many ↦
        let e = merkle_loop-none 16 txids (ground (arith, many)) in absurd (ground (arith, run, e))
    | inr few ↦ ground (arith, few)
  ]

  -- The branch in merklebin leads to the merkle root.
  pub bins_branch :
      (acc : A) (txids bins : List A)
      → merkle_bins hash txids ≡ some bins
      → Root (acc ∷ txids) (merkle_root hash acc bins)
  bins_branch acc txids bins run =
      let b = (merkle_bins-Branch acc txids).0 (merkle_bins-few txids bins run) in
      let same : b.0.bins ≡ bins = some_inj (sym b.0.run ∙ sym b.1 ∙ run) in
      subst (λ z. Root (acc ∷ txids) (merkle_root hash acc z)) same b.0.root
