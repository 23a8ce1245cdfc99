-- ===== src/Hex.antt =====
-- Hexadecimal text: __bin2hex, validhex and hex2bin of src/libckpool.c. A C string is the list
-- of its bytes before the terminator, so a byte of a string is never 0.
pub mod RoundTrip
pub mod Pieces
mod Tests
use ckpool.Common.{
  ℕ, zero, suc, ◌+◌, ◌-◌, ◌*◌, ◌/◌, ◌%◌, Bool, true, false, ◌&&◌, ◌||◌, not, List, [], ◌∷◌, Option,
  none, some, ltb, leb, ◌==◌, if◌then◌else◌, length,
}

-- The table `hex` of __bin2hex, at an index below 16.
unfoldable pub hex_digit : ℕ → ℕ
hex_digit n = if ltb n 10 then n + b'0' else n - 10 + b'a'

-- p[i] >> 4 and p[i] & 0xF of an unsigned char, each looked up; then the terminator.
unfoldable pub bin2hex : List ℕ → List ℕ
bin2hex [] = []
bin2hex (b ∷ bs) = hex_digit (b / 16) ∷ hex_digit (b % 16) ∷ bin2hex bs

-- hex2bin_tbl, with `none` for its -1.
unfoldable pub hex2bin_tbl : ℕ → Option ℕ
hex2bin_tbl c =
    if leb b'0' c && leb c b'9'
    then some (c - b'0')
    else if leb b'A' c && leb c b'F'
    then some (c - b'A' + 10)
    else if leb b'a' c && leb c b'f'
    then some (c - b'a' + 10)
    else none

pub is_hex : ℕ → Bool
unfolding hex2bin_tbl
is_hex c = elim (hex2bin_tbl c) [ none ↦ false | some n ↦ true ]

pub all_hex : List ℕ → Bool
all_hex [] = true
all_hex (c ∷ cs) = is_hex c && all_hex cs

pub validhex : List ℕ → Bool
validhex buf = if length buf == 0 || not (length buf % 2 == 0) then false else all_hex buf

unfoldable pub nibbles : Option ℕ → Option ℕ → Option ℕ
nibbles none lo = none
nibbles (some hi) none = none
nibbles (some hi) (some lo) = some (hi * 16 + lo)

-- What hex2bin leaves behind: the bytes it wrote, and what it returns.
pub record Decoded : Type 0 where
  pub bytes : List ℕ
  pub ok : Bool

abbrev failed : Decoded
failed = record { bytes = []; ok = false }

abbrev store : Option ℕ → Decoded → Decoded
store none r = failed
store (some b) r = record { bytes = b ∷ r.bytes; ok = r.ok }

-- `hex2bin p hexstr len`: the bytes in front of a failure have been written by then.
unfoldable pub hex2bin : List ℕ → ℕ → Decoded
hex2bin [] zero = record { bytes = []; ok = true }
hex2bin [] (suc n) = failed
hex2bin (c ∷ cs) zero = failed
hex2bin (c ∷ []) (suc n) = failed
hex2bin (c ∷ d ∷ cs) (suc n) = store (nibbles (hex2bin_tbl c) (hex2bin_tbl d)) (hex2bin cs n)
