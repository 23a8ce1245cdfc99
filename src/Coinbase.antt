-- ===== src/Coinbase.antt =====
-- generate_coinbase, __generate_userwb and __user_coinb2 of src/stratifier.c. A buffer is the list
-- of the bytes up to its length field; the length fields are the lengths of the lists.
-- The pool fee is a double. Its type, the test against 0 and the conversion
-- (uint64_t)((double)g64 / 100 * poolfee) are parameters.
pub mod Pays
pub mod Headers
pub mod Users
mod Tests
use ckpool.Common.{
  ℕ, zero, suc, ◌+◌, ◌-◌, ◌*◌, ◌/◌, ◌%◌, ◌^◌, Bool, true, false, not, ◌&&◌, ◌||◌, List, [], ◌∷◌,
  ◌++◌, Option, none, some, ltb, ◌==◌, if◌then◌else◌, length, take, drop, replicate, u8, u64,
  le_bytes, codes,
}
use ckpool.Hex.{hex2bin}
use ckpool.ScriptNumber.{ser_number}

pub data Result {ℓ} (A : Type ℓ) : Type ℓ where
  ok : A → Result A
  exited : Result A

pub record Fees : Type 1 where
  pub Fee : Type 0
  pub positive : Fee → Bool
  pub none_set : Fee
  pub fee_sats : ℕ → Fee → ℕ

-- What the template and the clock put into a workbase.
pub record Template : Type 0 where
  pub height : ℕ
  pub flags : List ℕ
  pub tv_sec : ℕ
  pub tv_nsec : ℕ
  pub coinbasevalue : ℕ
  pub insert_witness : Bool
  pub witnessdata : List ℕ
  pub bbversion : List ℕ
  pub prevhash : List ℕ
  pub ntime : List ℕ
  pub nbit : List ℕ

pub record Coinbase : Type 0 where
  pub coinb1bin : List ℕ
  pub coinb2bin : List ℕ
  pub coinb3bin : List ℕ
  pub headerbin : List ℕ
  pub enonce1varlen : ℕ
  pub enonce2varlen : ℕ

-- hex2bin of `len` bytes into zeroed memory.
pub hex_field : List ℕ → ℕ → List ℕ
hex_field hex len = let bytes = (hex2bin hex len).bytes in bytes ++ replicate (len - length bytes) 0

-- The bytes that ser_number accounts for.
pub number_bytes : ℕ → List ℕ
number_bytes v = take (ser_number v).used (ser_number v).stored

-- The script in coinb1 behind its length: height, flags, time, and the length of the nonces.
pub script_front : Template → ℕ → ℕ → List ℕ
script_front t nonce1length nonce2length =
    let len = length t.flags / 2 in
    number_bytes t.height
    ++ (u8 len ∷ hex_field t.flags len)
    ++ number_bytes t.tv_sec
    ++ number_bytes t.tv_nsec
    ++ (u8 (nonce1length + nonce2length) ∷ [])

abbrev hex_zeros : ℕ → List ℕ
hex_zeros n = replicate n b'0'

-- workpadding of src/stratifier.c.
abbrev workpadding : List ℕ
workpadding =
    codes
      "000000800000000000000000000000000000000000000000000000000000000000000000000000000000000080020000"

-- The block header in hexadecimal with an empty merkle root and nonce, cut at 224 digits.
pub header_template : Template → List ℕ
header_template t =
    hex_field
      (take 224 (
        t.bbversion
        ++ t.prevhash
        ++ hex_zeros 64
        ++ t.ntime
        ++ t.nbit
        ++ hex_zeros 8
        ++ workpadding))
      112

-- The signature at the front of coinb2; an unset one is the empty text.
pub sig_part : List ℕ → List ℕ
sig_part [] = []
sig_part (c ∷ cs) = u8 (length (c ∷ cs)) ∷ c ∷ cs

module _ (F : Fees) where
  open F use {Fee, positive, none_set, fee_sats}

  pub record Ckp : Type 0 where
    pub nonce1length : ℕ
    pub nonce2length : ℕ
    pub btcsig : List ℕ
    pub poolvalid : Bool
    pub poolfee : Fee
    pub btcsolo : Bool
    pub coinbase_valid : Bool

  -- The scripts of the pool and of its operator.
  pub record Scripts : Type 0 where
    pub txnbin : List ℕ
    pub pooltxnbin : List ℕ

  pub takes_fee : Ckp → Bool
  takes_fee ckp = ckp.poolvalid && positive ckp.poolfee

  -- d64 behind the dust guard; 0 where no fee is taken.
  pub fee_value : Ckp → ℕ → ℕ
  fee_value ckp value =
      let d64 = fee_sats value ckp.poolfee in
      if takes_fee ckp then (if ltb d64 546 then 0 else d64) else 0

  -- g64 -= d64, on uint64_t.
  pub miner_value : Ckp → ℕ → ℕ
  miner_value ckp value = u64 (value + 2 ^ 64 - fee_value ckp value)

  pub poolfee_dust : Ckp → ℕ → Bool
  poolfee_dust ckp value = takes_fee ckp && ltb (fee_sats value ckp.poolfee) 546

  pub output_count : Ckp → Template → ℕ
  output_count ckp t =
      (if takes_fee ckp && not (poolfee_dust ckp t.coinbasevalue) then 2 else 1)
      + (if t.insert_witness then 1 else 0)

  -- Signature, sequence number, number of outputs and the value of the first.
  pub coinb2 : Ckp → Template → List ℕ
  coinb2 ckp t =
      sig_part ckp.btcsig
      ++ (0xff ∷ 0xff ∷ 0xff ∷ 0xff ∷ [])
      ++ (output_count ckp t ∷ [])
      ++ le_bytes 8 (miner_value ckp t.coinbasevalue)

  pub fee_output : Ckp → Scripts → ℕ → List ℕ
  fee_output ckp s value =
      if takes_fee ckp && not (poolfee_dust ckp value)
      then le_bytes 8 (fee_value ckp value) ++ (u8 (length s.pooltxnbin) ∷ s.pooltxnbin)
      else []

  pub witness_output : Template → List ℕ
  witness_output t =
      if t.insert_witness
      then replicate 8 0 ++ (38 ∷ 0x6a ∷ 36 ∷ hex_field t.witnessdata 36)
      else []

  pub coinb3 : Ckp → Scripts → Template → List ℕ
  coinb3 ckp s t = fee_output ckp s t.coinbasevalue ++ witness_output t ++ replicate 4 0

  -- ckp->poolfee afterwards: a dust fee stays configured.
  pub poolfee_after : Ckp → ℕ → Fee
  poolfee_after ckp value =
      if takes_fee ckp && not (poolfee_dust ckp value)
      then ckp.poolfee
      else if not (poolfee_dust ckp value)
      then none_set
      else ckp.poolfee

  -- An output script in front of the rest: the length byte, the script, and coinb3. The splices of
  -- generate_coinbase, __generate_userwb and __user_coinb2 are this one.
  pub splice : List ℕ → List ℕ → List ℕ → List ℕ
  splice coinb2bin txnbin coinb3bin = coinb2bin ++ (u8 (length txnbin) ∷ txnbin) ++ coinb3bin

  pub coinb1 : List ℕ → Ckp → Template → List ℕ
  coinb1 scriptsig_header_bin ckp t =
      let front = script_front t ckp.nonce1length ckp.nonce2length in
      let len =
        1 + length front + ckp.nonce1length + ckp.nonce2length + length (sig_part ckp.btcsig) in
      scriptsig_header_bin ++ (u8 (len - 1) ∷ front)

  -- The transaction that is tested once, with zeros for the nonces.
  pub sample : List ℕ → Ckp → List ℕ → List ℕ
  sample coinb1bin ckp tail = coinb1bin ++ replicate (ckp.nonce1length + ckp.nonce2length) 0 ++ tail

  -- The whole function; `checktxn` is generator_checktxn, and an invalid sample ends the process.
  pub generate_coinbase :
      (List ℕ → Bool) → List ℕ → Ckp → Scripts → Template → Result (Coinbase × Ckp)
  generate_coinbase checktxn header ckp s t =
      let c1 = coinb1 header ckp t in
      let spliced = splice (coinb2 ckp t) s.txnbin (coinb3 ckp s t) in
      let ckp' = record ckp {
        poolfee = poolfee_after ckp t.coinbasevalue;
        coinbase_valid = true;
      } in
      let built : Coinbase = record {
        coinb1bin = c1;
        coinb2bin = if ckp.btcsolo then coinb2 ckp t else spliced;
        coinb3bin = if ckp.btcsolo then coinb3 ckp s t else [];
        headerbin = header_template t;
        enonce1varlen = ckp.nonce1length;
        enonce2varlen = ckp.nonce2length;
      } in
      if ckp.coinbase_valid || checktxn (sample c1 ckp spliced) then ok (built, ckp') else exited

  -- __user_coinb2: the user's own template in solo mode, the pool's script where it is missing.
  unfoldable pub user_coinb2 : Ckp → Scripts → Coinbase → Option (List ℕ) → List ℕ
  user_coinb2 ckp s wb userwb =
      if ckp.btcsolo
      then elim userwb [ some bin ↦ bin | none ↦ splice wb.coinb2bin s.txnbin wb.coinb3bin ]
      else wb.coinb2bin

-- A user's payout script and the templates built for it, by workbase id.
pub record User : Type 0 where
  pub txnbin : List ℕ
  pub userwbs : List (ℕ × List ℕ)

pub find_userwb : ℕ → List (ℕ × List ℕ) → Option (List ℕ)
find_userwb id [] = none
find_userwb id ((i, bin) ∷ rest) = if i == id then some bin else find_userwb id rest

pub generate_userwb : ℕ → Coinbase → User → User
generate_userwb id wb user = elim (find_userwb id user.userwbs) [
  | some bin ↦ user
  | none ↦ record user {
    userwbs =
        (id, wb.coinb2bin ++ (u8 (length user.txnbin) ∷ user.txnbin) ++ wb.coinb3bin)
        ∷ user.userwbs;
  }
]

-- Every user that has a payout script.
pub generate_userwbs : ℕ → Coinbase → List User → List User
generate_userwbs id wb [] = []
generate_userwbs id wb (u ∷ us) =
    (if length u.txnbin == 0 then u else generate_userwb id wb u) ∷ generate_userwbs id wb us
