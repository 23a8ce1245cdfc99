-- ===== src/CashAddr/Tests.antt =====
-- Witnesses of the CashAddr theorems, on an address of the specification.
use ckpool.Common.{
  ℕ, ◌≡◌, refl, true, false, List, [], ◌∷◌, ◌++◌, some, codes, map, tolower, eq_nocase, index_of,
  arith,
}
use ckpool.CashAddr.{
  ok, fault, rejected, cashaddr_decode_checked, case_is_consistent, payload_of, Payee,
  convert_bits_5to8, split_colon, decode_chars, has_lower, has_upper, decode_payload, parse_version,
  regroup, feed, drain, padding_ok, polymod, checksum_input, charset_rev,
}
use ckpool.CashAddr.Bits.{convert_bits_5to8_iff, Regrouped}
use ckpool.CashAddr.Laws.{cashaddr_decode_checked-Accepted, Accepted}
use ckpool.CashAddr.Case.{
  cashaddr_decode_checked-lower, cashaddr_decode_checked-fault, cashaddr_decode_checked-bare,
  cashaddr_decode_checked-network,
}

abbrev mainnet : List ℕ
mainnet = codes "bitcoincash"

abbrev bare_text : List ℕ
bare_text = codes "qpm2qsznhks23z7629mms6s4cwef74vcwvy22gdx6a"

abbrev whole_text : List ℕ
whole_text = mainnet ++ (b':' ∷ bare_text)

abbrev payee : Payee
payee = record {
  hash160 =
      0x76 ∷ 0xa0 ∷ 0x40 ∷ 0x53 ∷ 0xbd ∷ 0xa0 ∷ 0xa8 ∷ 0x8b ∷ 0xda ∷ 0x51 ∷ 0x77 ∷ 0xb8 ∷ 0x6a
      ∷ 0x15 ∷ 0xc3 ∷ 0xb2 ∷ 0x9f ∷ 0x55 ∷ 0x98 ∷ 0x73 ∷ [];
  is_p2sh = false;
}

whole_text-accepted : cashaddr_decode_checked whole_text mainnet ≡ ok payee
unfolding cashaddr_decode_checked case_is_consistent has_lower has_upper payload_of split_colon
    decode_payload decode_chars charset_rev parse_version convert_bits_5to8 regroup feed drain
    padding_ok polymod checksum_input eq_nocase index_of
whole_text-accepted = refl

cashaddr_decode_checked-Accepted_example :
    (case_is_consistent whole_text ≡ true)
    × ((payload : List ℕ) × (payload_of whole_text mainnet ≡ some payload)
        × Accepted mainnet payload payee)
cashaddr_decode_checked-Accepted_example =
    cashaddr_decode_checked-Accepted whole_text mainnet payee whole_text-accepted

abbrev five_bits : List ℕ
five_bits = 31 ∷ 28 ∷ []

convert_bits_5to8_iff_example :
    ((convert_bits_5to8 five_bits ≡ some (255 ∷ [])) → Regrouped five_bits (255 ∷ []))
    × (Regrouped five_bits (255 ∷ []) → (convert_bits_5to8 five_bits ≡ some (255 ∷ [])))
convert_bits_5to8_iff_example = convert_bits_5to8_iff five_bits (255 ∷ [])

cashaddr_decode_checked-lower_example :
    cashaddr_decode_checked (map tolower whole_text) mainnet
    ≡ cashaddr_decode_checked whole_text mainnet
unfolding case_is_consistent has_lower has_upper
cashaddr_decode_checked-lower_example = cashaddr_decode_checked-lower whole_text mainnet refl

abbrev bad_tail : List ℕ
bad_tail = codes "pppppppppppp"

cashaddr_decode_checked-fault_example :
    cashaddr_decode_checked (codes "qp" ++ 200 ∷ bad_tail) mainnet ≡ fault
unfolding case_is_consistent has_lower has_upper payload_of split_colon decode_chars charset_rev
    index_of
cashaddr_decode_checked-fault_example =
    cashaddr_decode_checked-fault (codes "qp" ++ 200 ∷ bad_tail) mainnet (codes "qp") (0 ∷ 1 ∷ [])
      bad_tail 200 refl refl (omega arith) (omega arith) refl (omega arith)

cashaddr_decode_checked-bare_example :
    cashaddr_decode_checked (mainnet ++ b':' ∷ bare_text) mainnet
    ≡ cashaddr_decode_checked bare_text mainnet
unfolding case_is_consistent has_lower has_upper split_colon
cashaddr_decode_checked-bare_example = cashaddr_decode_checked-bare mainnet bare_text refl refl refl

cashaddr_decode_checked-network_example :
    cashaddr_decode_checked whole_text (codes "bchtest") ≡ rejected
unfolding split_colon eq_nocase
cashaddr_decode_checked-network_example =
    cashaddr_decode_checked-network whole_text mainnet bare_text mainnet (codes "bchtest") payee
      refl whole_text-accepted refl
