-- ===== src/CashAddr.antt =====
-- src/cashaddr_simple.c: the local CashAddr decoder and the payout scripts. An address is the list
-- of its characters' codes, the hash160 a list of bytes. CHARSET_REV has 128 entries and is indexed by an unsigned char: a
-- read behind its end is undefined in C, and is the outcome `fault` here.
pub mod Bits
pub mod Case
pub mod Laws
mod Tests
use Prim.Native.Nat.{bit_and, bit_xor}
use mathlib.Core.Option
use ckpool.Common.{
  ℕ, zero, suc, ◌+◌, ◌-◌, ◌*◌, ◌/◌, ◌%◌, ◌^◌, Bool, true, false, not, ◌&&◌, ◌||◌, List, [], ◌∷◌,
  ◌++◌, Option, none, some, map, ltb, leb, ◌==◌, if◌then◌else◌, length, take, drop, codes, index_of,
  is_lower, is_upper, tolower, eq_nocase,
}

abbrev pub charset : List ℕ
charset = codes "qpzry9x8gf2tvdw0s3jn54khce6mua7l"

-- What a routine does: it succeeds, returns false, or reads behind the end of a table.
pub data Result {ℓ} (A : Type ℓ) : Type ℓ where
  ok : A → Result A
  rejected : Result A
  fault : Result A

infixl 5 ◌>>=◌
abbrev pub ◌>>=◌ {ℓ κ} : {X : Type ℓ} {Y : Type κ} (m : Result X) (next : X → Result Y) → Result Y
fault >>= next = fault
rejected >>= next = rejected
ok x >>= next = next x

abbrev pub or_reject {ℓ} : {A : Type ℓ} → Option A → Result A
or_reject none = rejected
or_reject (some a) = ok a

abbrev pub require : Bool → Result (Unit {0})
require true = ok tt
require false = rejected

infixl 5 ◌>>◌
abbrev pub ◌>>◌ {κ} : {Y : Type κ} (check : Result (Unit {0})) (next : Result Y) → Result Y
check >> next = check >>= λ done. next

-- CHARSET_REV[tolower(c)]: up to its end the table is the inverse of the string.
pub charset_rev : ℕ → Result ℕ
charset_rev c = if ltb (tolower c) 128 then or_reject (index_of (tolower c) charset) else fault

-- One of the five conditional xors.
abbrev tap : ℕ → ℕ → ℕ → ℕ → ℕ
tap c0 bit g c = if bit_and c0 bit == 0 then c else bit_xor c g

pub polymod_step : ℕ → ℕ → ℕ
polymod_step c value =
    let c0 = c / 2 ^ 35 % 256 in
    let shifted = bit_xor (bit_and c 0x07ffffffff * 32) value in
    tap c0 0x10 0x1e4f43e470 (
      tap c0 0x08 0xae2eabe2a8
        (tap c0 0x04 0xf33e5fb3c4 (tap c0 0x02 0x79b76d99e2 (tap c0 0x01 0x98f2bc8e61 shifted))))

pub polymod_from : ℕ → List ℕ → ℕ
polymod_from c [] = c
polymod_from c (v ∷ vs) = polymod_from (polymod_step c v) vs

pub polymod : List ℕ → ℕ
unfolding polymod_from polymod_step
polymod = polymod_from 1

-- convert_bits_5to8: `acc` is a uint32_t and wraps, `bits` counts the bits not yet written.
pub record Regroup : Type 0 where
  pub acc : ℕ
  pub bits : ℕ
  pub out : List ℕ

-- The inner while loop. It subtracts 8 from `bits` in each round, so it makes bits / 8 rounds.
pub drain : ℕ → Regroup → Regroup
drain zero r = r
drain (suc rounds) r =
    drain rounds
      (record r { bits = r.bits - 8; out = r.out ++ r.acc / 2 ^ (r.bits - 8) % 256 ∷ [] })

-- The body of the outer loop for a value below 32, where the low five bits of acc << 5 are free
-- and `|` adds.
pub feed : Regroup → ℕ → Regroup
feed r value =
    drain ((r.bits + 5) / 8)
      (record r { acc = (r.acc * 32 % 2 ^ 32 + value) % 2 ^ 32; bits = r.bits + 5 })

pub regroup : Regroup → List ℕ → Option Regroup
regroup r [] = some r
regroup r (v ∷ vs) = let rest = regroup (feed r v) vs in if leb 32 v then none else rest

pub padding_ok : Regroup → Bool
padding_ok r = not (leb 5 r.bits || (ltb 0 r.bits && not (r.acc * 2 ^ (8 - r.bits) % 256 == 0)))

pub convert_bits_5to8 : List ℕ → Option (List ℕ)
convert_bits_5to8 vs = elim (regroup (record { acc = 0; bits = 0; out = [] }) vs) [
  | none ↦ none
  | some r ↦ if padding_ok r then some r.out else none
]

pub has_lower : List ℕ → Bool
has_lower [] = false
has_lower (c ∷ cs) = is_lower c || has_lower cs

pub has_upper : List ℕ → Bool
has_upper [] = false
has_upper (c ∷ cs) = is_upper c || has_upper cs

pub case_is_consistent : List ℕ → Bool
case_is_consistent s = not (has_lower s && has_upper s)

-- The text in front of the first ':' and behind it, if there is one.
pub split_colon : List ℕ → Option (List ℕ × List ℕ)
split_colon [] = none
split_colon (c ∷ cs) =
    if c == b':' then some ([], cs) else Option.map (λ p. (c ∷ p.0, p.1)) (split_colon cs)

pub payload_of : List ℕ → List ℕ → Option (List ℕ)
payload_of addr expected_prefix = elim (split_colon addr) [
  | none ↦ some addr
  | some (prefix, payload) ↦ if eq_nocase prefix expected_prefix then some payload else none
]

pub decode_chars : List ℕ → Result (List ℕ)
decode_chars [] = ok []
decode_chars (c ∷ cs) = do v ← charset_rev c; vs ← decode_chars cs; ok (v ∷ vs)

abbrev low5 : ℕ → ℕ
low5 c = c % 32

pub checksum_input : List ℕ → List ℕ → List ℕ
checksum_input prefix values = map low5 prefix ++ 0 ∷ values

-- What an address says: its hash160 and whether it pays to a script.
pub record Payee : Type 0 where
  pub hash160 : List ℕ
  pub is_p2sh : Bool

-- From the version byte on; its lowest three bits, the size of the hash, are not looked at.
pub parse_version : List ℕ → Result Payee
parse_version [] = rejected
parse_version (version ∷ hash) = do
  require (length hash == 20)
  require (ltb version 0x80)
  require (leb (version / 8 % 16) 1)
  ok (record { hash160 = hash; is_p2sh = version / 8 % 16 == 1 })

pub decode_payload : List ℕ → List ℕ → Result Payee
decode_payload expected_prefix payload = do
  require (leb 14 (length payload) && leb (length payload) 112)
  values ← decode_chars payload
  require (leb (length expected_prefix + 1 + length values) 133)
  require (polymod (checksum_input expected_prefix values) == 1)
  decoded ← or_reject (convert_bits_5to8 (take (length values - 8) values))
  parse_version decoded

pub cashaddr_decode_checked : List ℕ → List ℕ → Result Payee
cashaddr_decode_checked addr expected_prefix = do
  require (case_is_consistent addr)
  payload ← or_reject (payload_of addr expected_prefix)
  decode_payload expected_prefix payload

-- OP_DUP OP_HASH160 <20 bytes> OP_EQUALVERIFY OP_CHECKSIG, and OP_HASH160 <20 bytes> OP_EQUAL.
unfoldable pub hash160_to_p2pkh_script : List ℕ → List ℕ
hash160_to_p2pkh_script hash160 = 0x76 ∷ 0xa9 ∷ 0x14 ∷ hash160 ++ 0x88 ∷ 0xac ∷ []

unfoldable pub hash160_to_p2sh_script : List ℕ → List ℕ
hash160_to_p2sh_script hash160 = 0xa9 ∷ 0x14 ∷ hash160 ++ 0x87 ∷ []
