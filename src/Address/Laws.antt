-- ===== src/Address/Laws.antt =====
-- Validation, script construction and the networks.
use ckpool.Common.{
  ℕ, ◌≡◌, inl, inr, refl, sym, ◌∙◌, Bool, true, false, not, List, [], ◌∷◌, ◌++◌, none, some, length,
  eq_nocase, arith, length-take, Bool-cases, Option-cases,
}
use ckpool.Base58.{bch_b58decode_strict}
use ckpool.Base58.Laws.{length-bch_b58decode_strict}
use ckpool.CashAddr.Laws.{cashaddr_decode_checked-Accepted}
use ckpool.CashAddr.{
  Result, ok, rejected, fault, Payee, cashaddr_decode_checked, hash160_to_p2pkh_script,
  hash160_to_p2sh_script,
}
use ckpool.Address.{
  of_payee, AddrType, cashaddr_p2pkh, cashaddr_p2sh, legacy_p2pkh, legacy_p2sh, Classified,
  mainnet_prefix, bch_addr_is_cashaddr_shaped, legacy_type, legacy_from, bch_classify_legacy,
  bch_classify_address, bch_address_to_script, script_of, is_script, validate_address,
}

-- What validation and the script have to say of one address.
pub data Agree : Result Bool → Result (List ℕ) → Type 0 where
  p2pkh :
      (hash script : List ℕ)
      → length hash ≡ 20
      → script ≡ 0x76 ∷ 0xa9 ∷ 0x14 ∷ hash ++ 0x88 ∷ 0xac ∷ []
      → Agree (ok false) (ok script)
  p2sh :
      (hash script : List ℕ)
      → length hash ≡ 20
      → script ≡ 0xa9 ∷ 0x14 ∷ hash ++ 0x87 ∷ []
      → Agree (ok true) (ok script)
  invalid : Agree rejected (ok [])
  undefined : Agree fault fault

classify_legacy-none :
    (addr prefix : List ℕ)
    → bch_b58decode_strict addr ≡ none
    → bch_classify_legacy addr prefix ≡ rejected
unfolding bch_classify_legacy
classify_legacy-none addr prefix e = ground arith

classify_legacy-some :
    (addr prefix decoded : List ℕ)
    → bch_b58decode_strict addr ≡ some decoded
    → bch_classify_legacy addr prefix ≡ legacy_from (eq_nocase prefix mainnet_prefix) decoded
unfolding bch_classify_legacy
classify_legacy-some addr prefix decoded e = ground arith

payee_size :
    (addr prefix : List ℕ) (c : Classified) (r : Result Payee)
    → cashaddr_decode_checked addr prefix ≡ r
    → of_payee r ≡ ok c
    → length c.hash160 ≡ 20
payee_size addr prefix c (ok p) e h =
    let size = (cashaddr_decode_checked-Accepted addr prefix p e).1.2.hash_size in
    ground (arith, size)
payee_size addr prefix c rejected e h = cc
payee_size addr prefix c fault e h = cc

legacy_from_size :
    (mainnet : Bool) (decoded : List ℕ) (c : Classified)
    → length decoded ≡ 25
    → legacy_from mainnet decoded ≡ ok c
    → length c.hash160 ≡ 20
unfolding legacy_from
legacy_from_size mainnet [] c size h = cc
legacy_from_size mainnet (version ∷ rest) c size h = ground (arith, length-take 20 rest)

legacy_size :
    (addr prefix : List ℕ) (c : Classified)
    → bch_classify_legacy addr prefix ≡ ok c
    → length c.hash160 ≡ 20
legacy_size addr prefix c h = elim (Option-cases (bch_b58decode_strict addr)) [
  | inl bad ↦ absurd (cc (classify_legacy-none addr prefix bad))
  | inr (decoded, good) ↦
      legacy_from_size _ decoded c (length-bch_b58decode_strict addr decoded good)
        (sym (classify_legacy-some addr prefix decoded good) ∙ h)
]

hash-size :
    (addr prefix : List ℕ) (c : Classified)
    → bch_classify_address addr prefix ≡ ok c
    → length c.hash160 ≡ 20
unfolding bch_classify_address
hash-size addr prefix c h = elim (Bool-cases (bch_addr_is_cashaddr_shaped addr)) [
  | inl shaped ↦
      payee_size addr prefix c (cashaddr_decode_checked addr prefix) refl (rw shaped at h)
  | inr plain ↦ legacy_size addr prefix c (rw plain at h)
]

Agree-on :
    (t : AddrType) (hash : List ℕ)
    → length hash ≡ 20
    → Agree (ok (is_script t)) (ok (script_of t hash))
unfolding is_script script_of hash160_to_p2pkh_script hash160_to_p2sh_script
Agree-on cashaddr_p2pkh hash size = p2pkh hash _ size refl
Agree-on legacy_p2pkh hash size = p2pkh hash _ size refl
Agree-on cashaddr_p2sh hash size = p2sh hash _ size refl
Agree-on legacy_p2sh hash size = p2sh hash _ size refl

Agree-at :
    (addr prefix : List ℕ) (r : Result Classified)
    → bch_classify_address addr prefix ≡ r
    → Agree (validate_address addr prefix) (bch_address_to_script addr prefix)
unfolding validate_address bch_address_to_script
Agree-at addr prefix (ok c) e =
    rw (e, validate_address, bch_address_to_script)
      (Agree-on c.type c.hash160 (hash-size addr prefix c e))
Agree-at addr prefix rejected e = rw (e, validate_address, bch_address_to_script) invalid
Agree-at addr prefix fault e = rw (e, validate_address, bch_address_to_script) undefined

-- Validation and payout never disagree, for any text and any active prefix: an address validated
-- as no script gets the 25-byte P2PKH script of a 20-byte hash, one validated as a script the
-- 23-byte P2SH script, and one that is not valid gets no script.
pub validate_address-script-Agree :
    (addr prefix : List ℕ)
    → Agree (validate_address addr prefix) (bch_address_to_script addr prefix)
validate_address-script-Agree addr prefix =
    Agree-at addr prefix (bch_classify_address addr prefix) refl

legacy_type-network :
    (mainnet other : Bool) (version : ℕ) (t : AddrType)
    → legacy_type mainnet version ≡ some t
    → mainnet ≡ not other
    → legacy_type other version ≡ none
unfolding legacy_type
legacy_type-network true true version t h e = cc
legacy_type-network true false version t h e = ground arith
legacy_type-network false true version t h e = ground arith
legacy_type-network false false version t h e = cc

legacy_from-network :
    (mainnet other : Bool) (decoded : List ℕ) (c : Classified)
    → legacy_from mainnet decoded ≡ ok c
    → mainnet ≡ not other
    → legacy_from other decoded ≡ rejected
unfolding legacy_from
legacy_from-network mainnet other [] c h e = refl
legacy_from-network mainnet other (version ∷ rest) c h e =
    elim (Option-cases (legacy_type mainnet version)) [
      | inl bad ↦ ground (arith, bad)
      | inr (t, good) ↦ ground (arith, legacy_type-network mainnet other version t good e)
    ]

-- A legacy address belongs to one network: accepted under mainnet's prefix, it is rejected under
-- any other, and the other way round.
pub bch_classify_legacy-network :
    (addr prefix other : List ℕ) (c : Classified)
    → bch_classify_legacy addr prefix ≡ ok c
    → eq_nocase prefix mainnet_prefix ≡ not (eq_nocase other mainnet_prefix)
    → bch_classify_legacy addr other ≡ rejected
bch_classify_legacy-network addr prefix other c h differ =
    elim (Option-cases (bch_b58decode_strict addr)) [
      | inl bad ↦ absurd (cc (classify_legacy-none addr prefix bad))
      | inr (decoded, good) ↦
          classify_legacy-some addr other decoded good
          ∙ legacy_from-network _ _ decoded c
              (sym (classify_legacy-some addr prefix decoded good) ∙ h) differ
    ]
