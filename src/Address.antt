-- ===== src/Address.antt =====
-- Bitcoin Cash addresses: the classification and the payout script of src/libckpool.c,
-- validate_address of src/bitcoin.c, and looks_like_address of src/stratifier.c.
mod Laws
mod Tests
use ckpool.Common.{
  ℕ, ◌+◌, Bool, true, false, not, ◌&&◌, ◌||◌, List, [], ◌∷◌, ◌++◌, Option, none, some, ltb, leb,
  ◌==◌, if◌then◌else◌, length, take, drop, replicate, codes, index_of, tolower, eq_nocase, eq_bytes,
}
use ckpool.Sha256.{gen_hash}
use ckpool.Base58.{bch_b58decode_strict, b58_alphabet}
use ckpool.CashAddr.{
  Result, ok, rejected, fault, Payee, cashaddr_decode_checked, split_colon, charset,
  hash160_to_p2pkh_script, hash160_to_p2sh_script,
}

pub data AddrType : Type 0 where
  cashaddr_p2pkh cashaddr_p2sh legacy_p2pkh legacy_p2sh : AddrType

-- A valid address; BCH_ADDR_INVALID is the result `rejected`.
pub record Classified : Type 0 where
  pub type : AddrType
  pub hash160 : List ℕ

abbrev pub mainnet_prefix : List ℕ
mainnet_prefix = codes "bitcoincash"

abbrev known_prefix : List ℕ → Bool
known_prefix p =
    eq_nocase p mainnet_prefix || eq_nocase p (codes "bchtest") || eq_nocase p (codes "bchreg")

pub bch_addr_is_cashaddr_shaped : List ℕ → Bool
bch_addr_is_cashaddr_shaped addr = elim (split_colon addr) [
  | none ↦ length addr == 42
  | some (prefix, payload) ↦ known_prefix prefix
]

-- The double hash of 21 bytes; what the contexts' memory held does not matter to it.
pub checksum4 : List ℕ → List ℕ
checksum4 bytes = take 4 (gen_hash (replicate 128 0) bytes)

-- The type that a version byte stands for, by the network.
pub legacy_type : Bool → ℕ → Option AddrType
legacy_type mainnet version =
    if (mainnet && version == 0x00) || (not mainnet && version == 0x6f)
    then some legacy_p2pkh
    else if (mainnet && version == 0x05) || (not mainnet && version == 0xc4)
    then some legacy_p2sh
    else none

abbrev with_hash : List ℕ → Option AddrType → Result Classified
with_hash hash none = rejected
with_hash hash (some t) = ok (record { type = t; hash160 = hash })

pub legacy_from : Bool → List ℕ → Result Classified
unfolding legacy_type
legacy_from mainnet [] = rejected
legacy_from mainnet (version ∷ rest) =
    if not (eq_bytes (checksum4 (version ∷ take 20 rest)) (drop 20 rest))
    then rejected
    else with_hash (take 20 rest) (legacy_type mainnet version)

pub bch_classify_legacy : List ℕ → List ℕ → Result Classified
bch_classify_legacy addr cashaddr_prefix = elim (bch_b58decode_strict addr) [
  | none ↦ rejected
  | some decoded ↦ legacy_from (eq_nocase cashaddr_prefix mainnet_prefix) decoded
]

abbrev of_payee : Result Payee → Result Classified
of_payee (ok p) =
    ok (record { type = if p.is_p2sh then cashaddr_p2sh else cashaddr_p2pkh; hash160 = p.hash160 })
of_payee rejected = rejected
of_payee fault = fault

pub bch_classify_address : List ℕ → List ℕ → Result Classified
bch_classify_address addr cashaddr_prefix =
    if bch_addr_is_cashaddr_shaped addr
    then of_payee (cashaddr_decode_checked addr cashaddr_prefix)
    else bch_classify_legacy addr cashaddr_prefix

pub script_of : AddrType → List ℕ → List ℕ
script_of cashaddr_p2pkh hash160 = hash160_to_p2pkh_script hash160
script_of legacy_p2pkh hash160 = hash160_to_p2pkh_script hash160
script_of cashaddr_p2sh hash160 = hash160_to_p2sh_script hash160
script_of legacy_p2sh hash160 = hash160_to_p2sh_script hash160

-- The bytes written to `out`; their number is the int returned, 0 where none are written.
pub bch_address_to_script : List ℕ → List ℕ → Result (List ℕ)
unfolding script_of
bch_address_to_script addr cashaddr_prefix = elim (bch_classify_address addr cashaddr_prefix) [
  | ok c ↦ ok (script_of c.type c.hash160)
  | rejected ↦ ok []
  | fault ↦ fault
]

pub is_script : AddrType → Bool
is_script cashaddr_p2pkh = false
is_script legacy_p2pkh = false
is_script cashaddr_p2sh = true
is_script legacy_p2sh = true

-- `ok script` is true with *script set so, `rejected` is false.
pub validate_address : List ℕ → List ℕ → Result Bool
unfolding is_script
validate_address address active_prefix = elim (bch_classify_address address active_prefix) [
  | ok c ↦ ok (is_script c.type)
  | rejected ↦ rejected
  | fault ↦ fault
]

pub all_in : List ℕ → List ℕ → Bool
all_in alphabet [] = true
all_in alphabet (c ∷ cs) = elim (index_of c alphabet) [ none ↦ false | some i ↦ all_in alphabet cs ]

pub all_cashaddr : List ℕ → Bool
all_cashaddr [] = true
all_cashaddr (c ∷ cs) = elim (index_of (tolower c) charset) [
  | none ↦ false
  | some i ↦ all_cashaddr cs
]

abbrev leads : Bool → ℕ → Bool
leads mainnet c = c == b'1' || c == b'3' || (not mainnet && (c == b'm' || c == b'n' || c == b'2'))

pub legacy_lead : Bool → List ℕ → Bool
legacy_lead mainnet [] = false
legacy_lead mainnet (c ∷ cs) = leads mainnet c

pub has_known_prefix : List ℕ → Bool
has_known_prefix username = elim (split_colon username) [
  | none ↦ false
  | some (prefix, payload) ↦ known_prefix prefix
]

pub looks_like_address : List ℕ → List ℕ → Bool
looks_like_address username active_prefix =
    let mainnet = eq_nocase active_prefix mainnet_prefix in
    let len = length username in
    if len == 0
    then false
    else if has_known_prefix username
    then true
    else if len == 42 && all_cashaddr username
    then true
    else legacy_lead mainnet username && leb 25 len && leb len 36 && all_in b58_alphabet username
