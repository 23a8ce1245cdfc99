-- ===== src/Base58/Tests.antt =====
-- Witnesses of the Base58 theorems, on a legacy address.
use ckpool.Common.{ℕ, ◌≡◌, ◌⊎◌, ◌<◌, ◌≤◌, ◌^◌, List, ◌∷◌, none, some, codes, arith}
use ckpool.Base58.{bch_b58decode_strict}
use ckpool.Base58.Laws.{
  b58_value, Holds, bch_b58decode_strict-Holds, bch_b58decode_strict-leading_one,
}

abbrev legacy_text : List ℕ
legacy_text = codes "1BpEi6DfDAUFd7GtittLSdBeYJvcoaVggu"

bch_b58decode_strict-Holds_example :
    ((b58_value 0 legacy_text ≡ none) × (bch_b58decode_strict legacy_text ≡ none))
    ⊎ ((w : ℕ) × (b58_value 0 legacy_text ≡ some w)
        × (((w < 256 ^ 25)
              × ((out : List ℕ) × (bch_b58decode_strict legacy_text ≡ some out) × Holds w out))
            ⊎ ((256 ^ 25 ≤ w) × (bch_b58decode_strict legacy_text ≡ none))))
bch_b58decode_strict-Holds_example =
    bch_b58decode_strict-Holds legacy_text (omega arith) (omega arith)

bch_b58decode_strict-leading_one_example :
    bch_b58decode_strict (b'1' ∷ legacy_text) ≡ bch_b58decode_strict legacy_text
bch_b58decode_strict-leading_one_example =
    bch_b58decode_strict-leading_one legacy_text (omega arith) (omega arith)
