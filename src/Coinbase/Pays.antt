-- ===== src/Coinbase/Pays.antt =====
-- What the coinbase transaction pays: its outputs against the value of the block.
use mathlib.Core.List.{append_assoc, append-nil}
use ckpool.Common.{
  ℕ, ◌+◌, ◌-◌, ◌^◌, ◌<◌, ◌≤◌, ◌≡◌, refl, ap, ◌∙◌, sym, inl, inr, ◌&&◌, List, [], ◌∷◌, ◌++◌, ltb,
  leb, if◌then◌else◌, length, length-append, length-replicate, replicate, u8, le_bytes, arith,
  Bool-cases,
}
use ckpool.Hex.{hex2bin}
use ckpool.Hex.RoundTrip.{length-hex2bin-le}
use ckpool.Coinbase.{
  Fees, Template, Ckp, Scripts, hex_field, sig_part, takes_fee, fee_value, miner_value,
  poolfee_dust, output_count, coinb2, fee_output, witness_output, coinb3, splice,
}

-- An output of a transaction, and how it is written: value, script length (which is one byte below
-- 0xfd), script.
pub record Output : Type 0 where
  pub value : ℕ
  pub script : List ℕ

pub output_bytes : Output → List ℕ
output_bytes o = le_bytes 8 o.value ++ (length o.script ∷ o.script)

pub outputs_bytes : List Output → List ℕ
outputs_bytes [] = []
outputs_bytes (o ∷ os) = output_bytes o ++ outputs_bytes os

abbrev pub total : List Output → ℕ
total [] = 0
total (o ∷ os) = o.value + total os

-- A signature and sequence number, the outputs with their count, and a lock time of 0.
pub record IsTail (sig : List ℕ) (outs : List Output) (bytes : List ℕ) : Type 0 where
  pub few : length outs ≤ 3
  pub written :
      bytes
      ≡ sig
        ++ (0xff ∷ 0xff ∷ 0xff ∷ 0xff ∷ [])
        ++ (length outs ∷ outputs_bytes outs)
        ++ replicate 4 0

length-hex_field : (hex : List ℕ) (n : ℕ) → length (hex_field hex n) ≡ n
unfolding hex_field
length-hex_field hex n =
    let bytes = (hex2bin hex n).bytes in
    omega (
      arith,
      length-append bytes (replicate (n - length bytes) 0),
      length-replicate {0} {A = ℕ} (n - length bytes) 0,
      length-hex2bin-le hex n,
    )

module _ (F : Fees) where
  open F use {fee_sats, positive}

  -- The operator's output: the fee in whole satoshi, left out where it is dust.
  pub fee_outputs : Ckp F → Scripts F → ℕ → List Output
  fee_outputs ckp s value =
      if takes_fee F ckp && leb 546 (fee_sats value ckp.poolfee)
      then record { value = fee_sats value ckp.poolfee; script = s.pooltxnbin } ∷ []
      else []

  pub witness_outputs : Template → List Output
  witness_outputs t =
      if t.insert_witness
      then record { value = 0; script = 0x6a ∷ 36 ∷ hex_field t.witnessdata 36 } ∷ []
      else []

  -- All outputs: the miner has what the operator does not.
  pub paid : Ckp F → Scripts F → Template → List ℕ → List Output
  paid ckp s t txnbin =
      record {
        value = t.coinbasevalue - total (fee_outputs ckp s t.coinbasevalue);
        script = txnbin;
      }
      ∷ (fee_outputs ckp s t.coinbasevalue ++ witness_outputs t)

  fee_output-bytes :
      (ckp : Ckp F) (s : Scripts F) (value : ℕ)
      → length s.pooltxnbin < 0xfd
      → fee_output F ckp s value ≡ outputs_bytes (fee_outputs ckp s value)
  unfolding fee_output fee_outputs outputs_bytes output_bytes fee_value poolfee_dust
  fee_output-bytes ckp s value short = elim (Bool-cases (takes_fee F ckp)) [
    | inl h ↦ elim (Bool-cases (ltb (fee_sats value ckp.poolfee) 546)) [
      | inl k ↦ ground arith
      | inr k ↦ grind (arith, append-nil)
    ]
    | inr h ↦ ground arith
  ]

  data_output-bytes :
      (bs : List ℕ)
      → length bs ≡ 36
      → output_bytes (record { value = 0; script = 0x6a ∷ 36 ∷ bs })
        ≡ replicate 8 0 ++ (38 ∷ 0x6a ∷ 36 ∷ bs)
  unfolding output_bytes le_bytes
  data_output-bytes bs e = ground (arith, e)

  witness_output-bytes : (t : Template) → witness_output F t ≡ outputs_bytes (witness_outputs t)
  unfolding witness_output witness_outputs outputs_bytes output_bytes
  witness_output-bytes t = elim (Bool-cases t.insert_witness) [
    | inl h ↦ grind (
      arith,
      append-nil,
      data_output-bytes (hex_field t.witnessdata 36) (length-hex_field t.witnessdata 36),
    )
    | inr h ↦ ground arith
  ]

  outputs_bytes-append :
      (os ps : List Output) → outputs_bytes (os ++ ps) ≡ outputs_bytes os ++ outputs_bytes ps
  unfolding outputs_bytes
  outputs_bytes-append [] ps = refl
  outputs_bytes-append (o ∷ os) ps =
      ap (λ bs. output_bytes o ++ bs) (outputs_bytes-append os ps)
      ∙ sym (append_assoc (output_bytes o) (outputs_bytes os) (outputs_bytes ps))

  total-append : (os ps : List Output) → total (os ++ ps) ≡ total os + total ps
  total-append [] ps = omega arith
  total-append (o ∷ os) ps = omega (arith, total-append os ps)

  total-witness : (t : Template) → total (witness_outputs t) ≡ 0
  unfolding witness_outputs
  total-witness t = elim (Bool-cases t.insert_witness) [
    | inl h ↦ ground arith
    | inr h ↦ ground arith
  ]

  output_count-length :
      (ckp : Ckp F) (s : Scripts F) (t : Template) (txnbin : List ℕ)
      → output_count F ckp t ≡ length (paid ckp s t txnbin)
  unfolding output_count paid fee_outputs witness_outputs poolfee_dust
  output_count-length ckp s t txnbin = elim (Bool-cases (takes_fee F ckp)) [
    | inl h ↦ elim (Bool-cases (ltb (fee_sats t.coinbasevalue ckp.poolfee) 546)) [
      | inl k ↦ elim (Bool-cases t.insert_witness) [ inl w ↦ ground arith | inr w ↦ ground arith ]
      | inr k ↦ elim (Bool-cases t.insert_witness) [ inl w ↦ ground arith | inr w ↦ ground arith ]
    ]
    | inr h ↦ elim (Bool-cases t.insert_witness) [ inl w ↦ ground arith | inr w ↦ ground arith ]
  ]

  fee_value-total :
      (ckp : Ckp F) (s : Scripts F) (value : ℕ)
      → fee_value F ckp value ≡ total (fee_outputs ckp s value)
  unfolding fee_value fee_outputs
  fee_value-total ckp s value = elim (Bool-cases (takes_fee F ckp)) [
    | inl h ↦ elim (Bool-cases (ltb (fee_sats value ckp.poolfee) 546)) [
      | inl k ↦ ground arith
      | inr k ↦ ground arith
    ]
    | inr h ↦ ground arith
  ]

  fee_outputs-le :
      (ckp : Ckp F) (s : Scripts F) (value : ℕ)
      → fee_sats value ckp.poolfee ≤ value
      → total (fee_outputs ckp s value) ≤ value
  unfolding fee_outputs
  fee_outputs-le ckp s value le =
      elim (Bool-cases (takes_fee F ckp && leb 546 (fee_sats value ckp.poolfee))) [
        | inl h ↦ ground arith
        | inr h ↦ ground arith
      ]

  fee_outputs-few :
      (ckp : Ckp F) (s : Scripts F) (t : Template) (txnbin : List ℕ)
      → length (paid ckp s t txnbin) ≤ 3
  unfolding paid fee_outputs witness_outputs
  fee_outputs-few ckp s t txnbin =
      elim (Bool-cases (takes_fee F ckp && leb 546 (fee_sats t.coinbasevalue ckp.poolfee))) [
        | inl h ↦ elim (Bool-cases t.insert_witness) [ inl w ↦ ground arith | inr w ↦ ground arith ]
        | inr h ↦ elim (Bool-cases t.insert_witness) [ inl w ↦ ground arith | inr w ↦ ground arith ]
      ]

  miner_value-rest :
      (ckp : Ckp F) (s : Scripts F) (value : ℕ)
      → value < 2 ^ 64
      → fee_sats value ckp.poolfee ≤ value
      → miner_value F ckp value ≡ value - total (fee_outputs ckp s value)
  unfolding miner_value
  miner_value-rest ckp s value small le =
      let e = fee_value-total ckp s value in
      let l = fee_outputs-le ckp s value le in omega (arith, e, l, small)

  outputs_bytes-paid :
      (ckp : Ckp F) (s : Scripts F) (t : Template) (txnbin : List ℕ)
      → outputs_bytes (paid ckp s t txnbin)
        ≡ le_bytes 8 (t.coinbasevalue - total (fee_outputs ckp s t.coinbasevalue))
          ++ (length txnbin ∷ txnbin)
          ++ (outputs_bytes (fee_outputs ckp s t.coinbasevalue)
              ++ outputs_bytes (witness_outputs t))
  unfolding paid outputs_bytes output_bytes
  outputs_bytes-paid ckp s t txnbin =
      ap
        (λ bs.
          le_bytes 8 (t.coinbasevalue - total (fee_outputs ckp s t.coinbasevalue))
          ++ (length txnbin ∷ txnbin)
          ++ bs)
        (outputs_bytes-append (fee_outputs ckp s t.coinbasevalue) (witness_outputs t))

  tail_assoc :
      (sig ff v x fe wi z : List ℕ) (n : ℕ)
      → (sig ++ ff ++ (n ∷ []) ++ v) ++ x ++ (fe ++ wi ++ z)
        ≡ sig ++ ff ++ (n ∷ (v ++ x ++ (fe ++ wi))) ++ z
  tail_assoc sig ff v x fe wi z n = simp append_assoc

  paid-bytes :
      (ckp : Ckp F) (s : Scripts F) (t : Template) (txnbin : List ℕ)
      → length txnbin < 0xfd
      → length s.pooltxnbin < 0xfd
      → t.coinbasevalue < 2 ^ 64
      → fee_sats t.coinbasevalue ckp.poolfee ≤ t.coinbasevalue
      → splice F (coinb2 F ckp t) txnbin (coinb3 F ckp s t)
        ≡ sig_part ckp.btcsig
          ++ (0xff ∷ 0xff ∷ 0xff ∷ 0xff ∷ [])
          ++ (length (paid ckp s t txnbin) ∷ outputs_bytes (paid ckp s t txnbin))
          ++ replicate 4 0
  unfolding splice coinb2 coinb3
  paid-bytes ckp s t txnbin short short' small le =
      let n = output_count-length ckp s t txnbin in
      let v = miner_value-rest ckp s t.coinbasevalue small le in
      let f = fee_output-bytes ckp s t.coinbasevalue short' in
      let w = witness_output-bytes t in
      let p = outputs_bytes-paid ckp s t txnbin in
      let u : u8 (length txnbin) ≡ length txnbin = omega (arith, short) in
      rw (p, n, v, f, w, u)
        (tail_assoc (sig_part ckp.btcsig) (0xff ∷ 0xff ∷ 0xff ∷ 0xff ∷ [])
          (le_bytes 8 (t.coinbasevalue - total (fee_outputs ckp s t.coinbasevalue)))
          (length txnbin ∷ txnbin) (outputs_bytes (fee_outputs ckp s t.coinbasevalue))
          (outputs_bytes (witness_outputs t)) (replicate 4 0) (length (paid ckp s t txnbin)))

  -- Where the fee is at most the block's value, which fits a uint64_t, and the scripts are shorter
  -- than 0xfd bytes, what generate_coinbase writes behind the nonces for the payout script txnbin
  -- is the signature, the sequence number and a well-formed list of at most three outputs with a
  -- lock time of 0, and the outputs spend exactly the block's value.
  pub coinbase-IsTail :
      (ckp : Ckp F) (s : Scripts F) (t : Template) (txnbin : List ℕ)
      → length txnbin < 0xfd
      → length s.pooltxnbin < 0xfd
      → t.coinbasevalue < 2 ^ 64
      → fee_sats t.coinbasevalue ckp.poolfee ≤ t.coinbasevalue
      → IsTail
          (sig_part ckp.btcsig)
          (paid ckp s t txnbin)
          (splice F (coinb2 F ckp t) txnbin (coinb3 F ckp s t))
        × total (paid ckp s t txnbin) ≡ t.coinbasevalue
  unfolding paid
  coinbase-IsTail ckp s t txnbin short short' small le =
      let l = fee_outputs-le ckp s t.coinbasevalue le in
      let w = total-witness t in
      let a = total-append (fee_outputs ckp s t.coinbasevalue) (witness_outputs t) in
      (
        record {
          few = fee_outputs-few ckp s t txnbin;
          written = paid-bytes ckp s t txnbin short short' small le;
        },
        omega (arith, l, w, a),
      )
