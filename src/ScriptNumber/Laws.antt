-- ===== src/ScriptNumber/Laws.antt =====
-- What the two routines promise one another, and the encoding's form.
use ckpool.Common.{
  ℕ, ◌+◌, ◌-◌, ◌*◌, ◌^◌, ◌<◌, ◌≤◌, ◌≡◌, List, ◌++◌, take, get_or, le_bytes, le_value, arith, ◌⊎◌,
}
use ckpool.ScriptNumber.{number_len, ser_number, get_sernumber}

-- For every number that is not negative, the bytes that ser_number accounts for read back as
-- that number by get_sernumber, whatever follows them in the buffer.
pub get_sernumber-ser_number :
    (val : ℕ) (rest : List ℕ)
    → val < 2 ^ 31
    → get_sernumber (take (ser_number val).used (ser_number val).stored ++ rest) ≡ val
unfolding get_sernumber ser_number le_bytes le_value
get_sernumber-ser_number val rest h = ground arith

-- The encoding of a number that is not negative is the shortest with its sign bit clear: between
-- 1 and 4 bytes, the last below 0x80, and one byte less could not hold the number so.
pub ser_number_minimal :
    (val : ℕ)
    → val < 2 ^ 31
    → let n = number_len val in
      (1 ≤ n)
      × (n ≤ 4)
      × ((ser_number val).used ≡ n + 1)
      × (get_or (ser_number val).stored n 0 < 0x80)
      × ((n ≡ 1) ⊎ (128 * 256 ^ (n - 2) ≤ val))
unfolding ser_number le_bytes
ser_number_minimal val h = ground arith
