-- ===== src/Base58.antt =====
-- bch_b58decode_strict of src/libckpool.c: Base58 text to a 25-byte big-endian buffer.
pub mod Laws
mod Tests
use mathlib.Core.Option
use ckpool.Common.{
  ℕ, ◌+◌, ◌*◌, ◌/◌, ◌%◌, Bool, ◌||◌, List, [], ◌∷◌, Option, none, some, ltb, ◌==◌, if◌then◌else◌,
  length, replicate, codes, index_of,
}

-- b58_alphabet.
abbrev pub b58_alphabet : List ℕ
b58_alphabet = codes "123456789ABCDEFGHJKLMNPQRSTUVWXYZabcdefghijkmnopqrstuvwxyz"

pub record Carried : Type 0 where
  pub out : List ℕ
  pub carry : ℕ

-- The inner loop, from the last byte of `out25` to the first: out = out * 58 + carry, with what
-- does not fit left in the carry.
unfoldable pub mul_add : List ℕ → ℕ → Carried
mul_add [] carry = record { out = []; carry = carry }
mul_add (b ∷ bs) carry =
    let low = mul_add bs carry in
    let t = low.carry + 58 * b in record { out = t % 256 ∷ low.out; carry = t / 256 }

-- One character of the outer loop; `none` is `return false`.
unfoldable pub b58_step : List ℕ → ℕ → Option (List ℕ)
b58_step out c = elim (index_of c b58_alphabet) [
  | none ↦ none
  | some d ↦ let r = mul_add out d in if r.carry == 0 then some r.out else none
]

unfoldable pub b58_loop : List ℕ → List ℕ → Option (List ℕ)
b58_loop out [] = some out
b58_loop out (c ∷ cs) = elim (b58_step out c) [ none ↦ none | some out' ↦ b58_loop out' cs ]

-- `none` is false; otherwise the contents of out25.
unfoldable pub bch_b58decode_strict : List ℕ → Option (List ℕ)
bch_b58decode_strict s =
    if length s == 0 || ltb 100 (length s) then none else b58_loop (replicate 25 0) s
