-- ===== src/Hex/Tests.antt =====
-- Witnesses of the hexadecimal round trips.
use ckpool.Common.{
  ℕ, ◌≡◌, ◌↔◌, ◌<◌, ◌/◌, refl, true, List, [], ◌∷◌, codes, map, length, IsBytes, arith,
}
use ckpool.Hex.{bin2hex, hex2bin, validhex, hex2bin_tbl, nibbles}
use ckpool.Hex.RoundTrip.{hex2bin-bin2hex, bin2hex-hex2bin, validhex-hex2bin_iff, lower_hex}

abbrev some_bytes : List ℕ
some_bytes = 0 ∷ 171 ∷ 255 ∷ []

abbrev some_text : List ℕ
some_text = codes "00aBfF"

hex2bin-bin2hex_example :
    hex2bin (bin2hex some_bytes) (length some_bytes) ≡ record { bytes = some_bytes; ok = true }
hex2bin-bin2hex_example = hex2bin-bin2hex some_bytes (omega arith, (omega arith, (omega arith, tt)))

bin2hex-hex2bin_example :
    (length (hex2bin some_text 3).bytes ≡ 3)
    × IsBytes (hex2bin some_text 3).bytes
    × (bin2hex (hex2bin some_text 3).bytes ≡ map lower_hex some_text)
unfolding hex2bin hex2bin_tbl nibbles
bin2hex-hex2bin_example = bin2hex-hex2bin some_text 3 refl

validhex-hex2bin_iff_example :
    (validhex some_text ≡ true)
    ↔ ((0 < length some_text / 2) × ((hex2bin some_text (length some_text / 2)).ok ≡ true))
validhex-hex2bin_iff_example = validhex-hex2bin_iff some_text
