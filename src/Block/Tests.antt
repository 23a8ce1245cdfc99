-- ===== src/Block/Tests.antt =====
-- Runs of submission_diff on one template with one transaction, and the witness.
use ckpool.Common.{
  ℕ, ◌*◌, ◌<◌, ◌≤◌, ◌≡◌, refl, ap, false, true, List, [], ◌∷◌, ◌++◌, none, some, length, drop,
  replicate, ltb, arith, ◌/◌, IsBytes,
}
use ckpool.Hex.{bin2hex}
use ckpool.Hex.RoundTrip.{hex2bin-bin2hex}
use ckpool.Merkle.{merkle_bins, merkle_loop, next_slots, hash_pairs, last_twice}
use ckpool.Coinbase.{Fees, Ckp, Scripts, Coinbase, user_coinb2}
use ckpool.Block.{
  Share, Transactions, decoded, pair_hash, coinbase_bytes, varint, process_block, overflow, refused,
  submission_diff,
}
use ckpool.Block.Fields.{fields}
use ckpool.Block.Solved.{HasFields, IsSolved, submission_diff-Block}

abbrev No_fees : Fees
No_fees = record {
  Fee = ℕ;
  positive = λ fee. ltb 0 fee;
  none_set = 0;
  fee_sats = λ value fee. value * fee / 100;
}

abbrev pool : Ckp No_fees
pool = record {
  nonce1length = 4;
  nonce2length = 8;
  btcsig = [];
  poolvalid = false;
  poolfee = 0;
  btcsolo = false;
  coinbase_valid = true;
}

abbrev paying : Scripts No_fees
paying = record { txnbin = replicate 25 1; pooltxnbin = [] }

abbrev cached : List ℕ
cached =
    fields (replicate 4 32) (replicate 32 1) (replicate 32 0) (replicate 4 2) (replicate 4 3)
      (replicate 4 0)

abbrev template : Coinbase
template = record {
  coinb1bin = replicate 42 1;
  coinb2bin = replicate 60 2;
  coinb3bin = [];
  headerbin = cached ++ replicate 32 0;
  enonce1varlen = 4;
  enonce2varlen = 8;
}

abbrev six_fields : HasFields template.headerbin
six_fields = record {
  version = replicate 4 32;
  prevhash = replicate 32 1;
  root = replicate 32 0;
  ntime = replicate 4 2;
  nbits = replicate 4 3;
  nonce = replicate 4 0;
  version_length = refl;
  prevhash_length = refl;
  root_length = refl;
  ntime_length = refl;
  nbits_length = refl;
  nonce_length = refl;
  start = refl;
}

abbrev one_txid : List ℕ
one_txid = replicate 32 7

abbrev one_transaction : Transactions
one_transaction = record {
  merklebin = one_txid ∷ [];
  txns = 1;
  txn_data = bin2hex (1 ∷ 2 ∷ 3 ∷ []);
  proxy = false;
}

abbrev four_bytes : List ℕ
four_bytes = 9 ∷ 8 ∷ 7 ∷ 6 ∷ []

abbrev one_share : Share
one_share = record {
  enonce1bin = replicate 4 5;
  nonce2 = bin2hex (replicate 8 6);
  ntime32 = 1700000000;
  version_mask = 8192;
  nonce = bin2hex four_bytes;
}

four_decoded : length (decoded (replicate 80 0) one_share.nonce 4) ≡ 4
unfolding decoded
four_decoded =
    ap (λ r. length (r.bytes ++ drop (length r.bytes) (replicate 4 0)))
      (hex2bin-bin2hex four_bytes (omega arith, (omega arith, (omega arith, (omega arith, tt)))))

one_branch : merkle_bins (pair_hash (replicate 128 0)) (one_txid ∷ []) ≡ some (one_txid ∷ [])
unfolding merkle_bins merkle_loop next_slots hash_pairs last_twice
one_branch = refl

nonce2_IsBytes : IsBytes (replicate 8 6)
nonce2_IsBytes = let l : 6 < 256 = omega arith in (l, (l, (l, (l, (l, (l, (l, (l, tt))))))))

short_coinbase :
    length (
      coinbase_bytes
        (replicate 80 0)
        template
        one_share
        (user_coinb2 No_fees pool paying template none))
    ≤ 1024
unfolding coinbase_bytes decoded user_coinb2
short_coinbase =
    let e =
      ap
        (λ r. length (
          replicate 42 1
          ++ (replicate 4 5
              ++ ((r.bytes ++ drop (length r.bytes) (replicate 8 0)) ++ replicate 60 2))))
        (hex2bin-bin2hex (replicate 8 6) nonce2_IsBytes) in
    omega (arith, e)

submission_diff-Block_example :
    IsSolved
      (λ hash. false)
      false
      (replicate 80 0)
      one_transaction
      one_share
      (one_txid ∷ [])
      (1 ∷ 2 ∷ 3 ∷ [])
      six_fields
      (coinbase_bytes
        (replicate 80 0)
        template
        one_share
        (user_coinb2 No_fees pool paying template none))
      (submission_diff No_fees
        (λ hash. false)
        false
        (replicate 80 0)
        (replicate 128 0)
        pool
        paying
        template
        none
        one_transaction
        one_share)
submission_diff-Block_example =
    submission_diff-Block No_fees (λ hash. false) false (replicate 80 0) (replicate 128 0) pool
      paying template none one_transaction one_share (one_txid ∷ []) (1 ∷ 2 ∷ 3 ∷ []) six_fields
      refl four_decoded short_coinbase (refl, tt) one_branch refl (λ e. absurd (omega (arith, e)))

-- The guard of process_block lets through a coinbase of 431 bytes, whose text does not fit.
long_coinbase : process_block one_transaction (replicate 431 1) (replicate 80 0) ≡ overflow
unfolding process_block varint bin2hex
long_coinbase = refl

longest_coinbase : process_block one_transaction (replicate 512 1) (replicate 80 0) ≡ refused
unfolding process_block varint bin2hex
longest_coinbase = refl
