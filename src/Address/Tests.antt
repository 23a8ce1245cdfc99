-- ===== src/Address/Tests.antt =====
-- Witnesses of the address theorems, on the two spellings of one payee.
use ckpool.Common.{ℕ, ◌≡◌, refl, List, [], ◌∷◌, codes, index_of, eq_bytes, eq_nocase}
use ckpool.Sha256.{
  gen_hash, sha256, sha256_final, sha256_update, sha256_init, sha256_transf, memcpy_at,
  unpack_words, unpack32,
}
use ckpool.Sha256.Compress.{transf_block}
use ckpool.Base58.{bch_b58decode_strict, b58_loop, b58_step, mul_add}
use ckpool.CashAddr.{ok, rejected}
use ckpool.Address.{
  Classified, legacy_p2pkh, validate_address, bch_address_to_script, bch_classify_legacy, checksum4,
  legacy_type, legacy_from,
}
use ckpool.Address.Laws.{Agree, validate_address-script-Agree, bch_classify_legacy-network}

abbrev mainnet : List ℕ
mainnet = codes "bitcoincash"

abbrev cash_text : List ℕ
cash_text = codes "bitcoincash:qpm2qsznhks23z7629mms6s4cwef74vcwvy22gdx6a"

abbrev legacy_text : List ℕ
legacy_text = codes "1BpEi6DfDAUFd7GtittLSdBeYJvcoaVggu"

abbrev classified : Classified
classified = record {
  type = legacy_p2pkh;
  hash160 =
      0x76 ∷ 0xa0 ∷ 0x40 ∷ 0x53 ∷ 0xbd ∷ 0xa0 ∷ 0xa8 ∷ 0x8b ∷ 0xda ∷ 0x51 ∷ 0x77 ∷ 0xb8 ∷ 0x6a
      ∷ 0x15 ∷ 0xc3 ∷ 0xb2 ∷ 0x9f ∷ 0x55 ∷ 0x98 ∷ 0x73 ∷ [];
}

legacy_text-accepted : bch_classify_legacy legacy_text mainnet ≡ ok classified
unfolding bch_classify_legacy legacy_from checksum4 legacy_type bch_b58decode_strict b58_loop
    b58_step mul_add gen_hash sha256 sha256_final sha256_update sha256_init sha256_transf memcpy_at
    unpack_words unpack32 transf_block index_of eq_bytes eq_nocase
legacy_text-accepted = refl

validate_address-script-Agree_example :
    Agree (validate_address cash_text mainnet) (bch_address_to_script cash_text mainnet)
validate_address-script-Agree_example = validate_address-script-Agree cash_text mainnet

bch_classify_legacy-network_example : bch_classify_legacy legacy_text (codes "bchtest") ≡ rejected
unfolding eq_nocase
bch_classify_legacy-network_example =
    bch_classify_legacy-network legacy_text mainnet (codes "bchtest") classified
      legacy_text-accepted refl
