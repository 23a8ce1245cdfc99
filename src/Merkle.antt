-- ===== src/Merkle.antt =====
-- wb_merkle_bin_txns and the merkle part of submission_diff of src/stratifier.c. The array hashbin is
-- the list of its 32-byte slots behind the empty first one; `gen_hash` is a parameter here.
pub mod Root
mod Tests
use ckpool.Common.{
  ℕ, zero, suc, ◌+◌, ◌%◌, List, [], ◌∷◌, ◌++◌, Option, none, some, length, ◌==◌, if◌then◌else◌,
}

module _ {ℓ} {A : Type ℓ} (hash : A → A → A) where
  -- memcpy(hashbin + binlen, hashbin + binlen - 32, 32) behind the first slot.
  unfoldable pub last_twice : List A → List A
  last_twice [] = []
  last_twice (x ∷ []) = x ∷ x ∷ []
  last_twice (x ∷ y ∷ xs) = x ∷ last_twice (y ∷ xs)

  -- The for loop: the slots from the second on, hashed in pairs.
  unfoldable pub hash_pairs : List A → List A
  hash_pairs (x ∷ y ∷ xs) = hash x y ∷ hash_pairs xs
  hash_pairs (x ∷ []) = []
  hash_pairs [] = []

  -- One pass behind the append to merklebin: binleft is 1 + length (x ∷ xs).
  unfoldable pub next_slots : A → List A → List A
  next_slots x xs = hash_pairs (if (2 + length xs) % 2 == 1 then last_twice xs else xs)

  -- while (42), on the entries of merklebin that are left; the result is merklebin.
  unfoldable pub merkle_loop : ℕ → List A → Option (List A)
  merkle_loop fuel [] = some []
  merkle_loop zero (x ∷ xs) = none
  merkle_loop (suc fuel) (x ∷ xs) = elim (merkle_loop fuel (next_slots x xs)) [
    | some bins ↦ some (x ∷ bins)
    | none ↦ none
  ]

  -- wb->merklebin has 16 entries; none is a write behind them.
  unfoldable pub merkle_bins : List A → Option (List A)
  merkle_bins txids = merkle_loop 16 txids

  -- The loop over merklebin in submission_diff.
  pub merkle_root : A → List A → A
  merkle_root acc [] = acc
  merkle_root acc (bin ∷ bins) = merkle_root (hash acc bin) bins
