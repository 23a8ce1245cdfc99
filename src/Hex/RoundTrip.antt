-- ===== src/Hex/RoundTrip.antt =====
-- Encoding and decoding are inverse to one another.
use ckpool.Common.{
  ℕ, zero, suc, ◌+◌, ◌*◌, ◌/◌, ◌%◌, ◌<◌, ◌≤◌, ◌≡◌, ◌↔◌, refl, true, ◌&&◌, List, [], ◌∷◌, some, leb,
  if◌then◌else◌, length, IsBytes, arith, map, inl, inr, Option-cases,
}
use ckpool.Hex.{hex_digit, bin2hex, hex2bin_tbl, is_hex, all_hex, validhex, nibbles, hex2bin}

hex2bin_tbl-hex_digit : (n : ℕ) → n < 16 → hex2bin_tbl (hex_digit n) ≡ some n
unfolding hex2bin_tbl hex_digit
hex2bin_tbl-hex_digit n h = ground arith

-- Decoding the encoding of any bytes, with their number as the length, writes those bytes and
-- returns true.
pub hex2bin-bin2hex :
    (bs : List ℕ) → IsBytes bs → hex2bin (bin2hex bs) (length bs) ≡ record { bytes = bs; ok = true }
unfolding hex2bin bin2hex nibbles
hex2bin-bin2hex [] h = refl
hex2bin-bin2hex (b ∷ bs) h =
    ground
      (arith, hex2bin_tbl-hex_digit (b / 16), hex2bin_tbl-hex_digit (b % 16), hex2bin-bin2hex bs)

-- The lower-case form of a hexadecimal digit.
abbrev pub lower_hex : ℕ → ℕ
lower_hex c = if leb b'A' c && leb c b'F' then c + 32 else c

hex_digit-hex2bin_tbl : (c n : ℕ) → hex2bin_tbl c ≡ some n → (n < 16) × (hex_digit n ≡ lower_hex c)
unfolding hex2bin_tbl hex_digit
hex_digit-hex2bin_tbl c n h = ground arith

-- Whenever hex2bin returns true it has written exactly `len` bytes, all below 256, and encoding
-- them gives the text back in lower case.
pub bin2hex-hex2bin :
    (s : List ℕ) (n : ℕ)
    → (hex2bin s n).ok ≡ true
    → (length (hex2bin s n).bytes ≡ n)
      × IsBytes (hex2bin s n).bytes
      × (bin2hex (hex2bin s n).bytes ≡ map lower_hex s)
unfolding hex2bin bin2hex nibbles
bin2hex-hex2bin [] zero h = (refl, tt, refl)
bin2hex-hex2bin [] (suc n) h = ground arith
bin2hex-hex2bin (c ∷ cs) zero h = ground arith
bin2hex-hex2bin (c ∷ []) (suc n) h = ground arith
bin2hex-hex2bin (c ∷ d ∷ cs) (suc n) h = elim (Option-cases (hex2bin_tbl c)) [
  | inl e ↦ ground arith
  | inr (hi, e) ↦ elim (Option-cases (hex2bin_tbl d)) [
    | inl e' ↦ ground arith
    | inr (lo, e') ↦
        ground
          (arith, hex_digit-hex2bin_tbl c hi e, hex_digit-hex2bin_tbl d lo e', bin2hex-hex2bin cs n)
  ]
]

is_hex-hex_digit : (n : ℕ) → n < 16 → is_hex (hex_digit n) ≡ true
unfolding is_hex hex_digit
is_hex-hex_digit n h = ground arith

all_hex-bin2hex : (bs : List ℕ) → IsBytes bs → all_hex (bin2hex bs) ≡ true
unfolding all_hex bin2hex
all_hex-bin2hex [] h = refl
all_hex-bin2hex (b ∷ bs) h =
    ground (arith, is_hex-hex_digit (b / 16), is_hex-hex_digit (b % 16), all_hex-bin2hex bs)

length-bin2hex : (bs : List ℕ) → length (bin2hex bs) ≡ 2 * length bs
unfolding bin2hex
length-bin2hex [] = refl
length-bin2hex (b ∷ bs) = omega (arith, length-bin2hex bs)

hex2bin_ok_iff :
    (s : List ℕ) (n : ℕ) → ((hex2bin s n).ok ≡ true) ↔ ((all_hex s ≡ true) × (length s ≡ 2 * n))
unfolding hex2bin nibbles all_hex is_hex
hex2bin_ok_iff [] zero = ground arith
hex2bin_ok_iff [] (suc n) = ground arith
hex2bin_ok_iff (c ∷ cs) zero = ground arith
hex2bin_ok_iff (c ∷ []) (suc n) = ground arith
hex2bin_ok_iff (c ∷ d ∷ cs) (suc n) = elim (Option-cases (hex2bin_tbl c)) [
  | inl e ↦ ground arith
  | inr (hi, e) ↦ elim (Option-cases (hex2bin_tbl d)) [
    | inl e' ↦ ground arith
    | inr (lo, e') ↦ ground (arith, hex2bin_ok_iff cs n)
  ]
]

-- validhex is exactly the guard that hex2bin needs: it accepts a text just when hex2bin succeeds
-- on it for some positive length, which is then half the text's.
pub validhex-hex2bin_iff :
    (s : List ℕ)
    → (validhex s ≡ true) ↔ ((0 < length s / 2) × ((hex2bin s (length s / 2)).ok ≡ true))
unfolding validhex
validhex-hex2bin_iff s = ground (arith, hex2bin_ok_iff s (length s / 2))

-- hex2bin never writes more than the length it is given.
pub length-hex2bin-le : (s : List ℕ) (n : ℕ) → length (hex2bin s n).bytes ≤ n
unfolding hex2bin
length-hex2bin-le [] zero = omega arith
length-hex2bin-le [] (suc n) = omega arith
length-hex2bin-le (c ∷ cs) zero = omega arith
length-hex2bin-le (c ∷ []) (suc n) = omega arith
length-hex2bin-le (c ∷ d ∷ cs) (suc n) =
    elim (Option-cases (nibbles (hex2bin_tbl c) (hex2bin_tbl d))) [
      | inl e ↦ rw e (omega arith)
      | inr (b, e) ↦ rw e (omega (arith, length-hex2bin-le cs n))
    ]
