-- ===== src/ScriptNumber.antt =====
-- Numbers in the coinbase script: ser_number and get_sernumber of src/libckpool.c. An int32_t is
-- its bit pattern, a number below 2 ^ 32 that is negative from 2 ^ 31 on.
mod Laws
mod Tests
use ckpool.Common.{
  ℕ, zero, suc, ◌+◌, ◌/◌, ◌%◌, ◌^◌, Bool, ◌||◌, List, [], ◌∷◌, ltb, leb, if◌then◌else◌, take,
  le_bytes, le_value, get_or,
}

-- `val < bound` for an int32_t and a positive bound.
abbrev lt_signed : ℕ → ℕ → Bool
lt_signed val bound = leb (2 ^ 31) val || ltb val bound

unfoldable pub number_len : ℕ → ℕ
number_len val =
    if lt_signed val 0x80
    then 1
    else if lt_signed val 0x8000
    then 2
    else if lt_signed val 0x800000
    then 3
    else 4

-- The five bytes that ser_number stores at `s`, whatever the length, and its result.
pub record Serialised : Type 0 where
  pub stored : List ℕ
  pub used : ℕ

unfoldable pub ser_number : ℕ → Serialised
unfolding number_len
ser_number val = record { stored = number_len val ∷ le_bytes 4 val; used = number_len val + 1 }

-- `val` is zero before the memcpy of `len` bytes into it.
pub get_sernumber : List ℕ → ℕ
get_sernumber [] = 0
get_sernumber (len ∷ rest) = if ltb len 1 || ltb 4 len then 0 else le_value (take len rest)
