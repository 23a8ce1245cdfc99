-- ===== src/Coinbase/Tests.antt =====
-- Witnesses of the coinbase theorems, with a fee in percent for the double of the source.
use ckpool.Common.{
  ◌≤◌, ℕ, ◌*◌, ◌/◌, length, le_bytes, IsBytes, none, some, ◌∷◌, ◌≡◌, refl, true, false, List, [],
  if◌then◌else◌, ltb, replicate, codes, arith,
}
use ckpool.Hex.{bin2hex, hex_digit, hex2bin, nibbles, hex2bin_tbl}
use ckpool.ScriptNumber.{ser_number, number_len}
use ckpool.Coinbase.Headers.{HasTexts}
use ckpool.Merkle.{merkle_bins, merkle_loop}
use ckpool.Block.{Share, Transactions, decoded, coinbase_bytes, pair_hash, submission_diff}
use ckpool.Block.Solved.{IsSolved}
use ckpool.Block.Generated.{generated_fields, generate_coinbase-Block}
use ckpool.Coinbase.{
  fee_output, takes_fee, poolfee_dust, witness_output, coinb1, script_front, number_bytes,
  hex_field, Fees, Template, Coinbase, Ckp, Scripts, ok, exited, User, splice, coinb2, coinb3,
  sig_part, fee_value, generate_coinbase, generate_userwb, user_coinb2, find_userwb,
}
use ckpool.Coinbase.Pays.{IsTail, paid, total}
use ckpool.Coinbase.Users.{user_coinb2-IsTail, generate_coinbase-keeps_fee}

abbrev Percent : Fees
Percent = record {
  Fee = ℕ;
  positive = λ fee. ltb 0 fee;
  none_set = 0;
  fee_sats = λ value fee. value * fee / 100;
}

abbrev solo_pool : Ckp Percent
solo_pool = record {
  nonce1length = 4;
  nonce2length = 8;
  btcsig = codes "/solo/";
  poolvalid = true;
  poolfee = 2;
  btcsolo = true;
  coinbase_valid = true;
}

abbrev two_scripts : Scripts Percent
two_scripts = record { txnbin = replicate 25 1; pooltxnbin = replicate 23 2 }

abbrev one_block : Template
one_block = record {
  height = 850000;
  flags = [];
  tv_sec = 1700000000;
  tv_nsec = 5;
  coinbasevalue = 312500000;
  insert_witness = false;
  witnessdata = [];
  bbversion = codes "20000000";
  prevhash = replicate 64 48;
  ntime = codes "6553f100";
  nbit = codes "1d00ffff";
}

abbrev miner : User
miner = record { txnbin = replicate 25 3; userwbs = [] }

abbrev any_header : List ℕ
any_header = replicate 41 0

abbrev generated : Coinbase × Ckp Percent
generated =
    elim (generate_coinbase Percent (λ bytes. true) any_header solo_pool two_scripts one_block) [
      | ok built ↦ built
      | exited ↦ (
        record {
          coinb1bin = [];
          coinb2bin = [];
          coinb3bin = [];
          headerbin = [];
          enonce1varlen = 0;
          enonce2varlen = 0;
        },
        solo_pool,
      )
    ]

generated-run :
    generate_coinbase Percent (λ bytes. true) any_header solo_pool two_scripts one_block
    ≡ ok generated
unfolding generate_coinbase
generated-run = refl

user_coinb2-IsTail_example :
    IsTail
      (sig_part solo_pool.btcsig)
      (paid Percent solo_pool two_scripts one_block (if true then miner.txnbin else replicate 25 1))
      (user_coinb2 Percent solo_pool two_scripts generated.0
        (find_userwb 7 (generate_userwb 7 generated.0 miner).userwbs))
    × (total (
          paid Percent solo_pool two_scripts one_block
            (if true then miner.txnbin else replicate 25 1))
        ≡ 312500000)
unfolding find_userwb
user_coinb2-IsTail_example =
    user_coinb2-IsTail Percent (λ bytes. true) any_header solo_pool generated.1 two_scripts
      one_block generated.0 generated-run 7 miner refl (omega arith) (omega arith) (omega arith)
      (omega arith) (omega arith)

generate_coinbase-keeps_fee_example :
    fee_value Percent generated.1 1000 ≡ fee_value Percent solo_pool 1000
generate_coinbase-keeps_fee_example =
    generate_coinbase-keeps_fee Percent (λ bytes. true) any_header solo_pool generated.1 two_scripts
      one_block generated.0 generated-run refl 1000

version_IsBytes : IsBytes (32 ∷ 0 ∷ 0 ∷ 0 ∷ [])
version_IsBytes = ground arith

prevhash_IsBytes : IsBytes (replicate 32 0)
prevhash_IsBytes = ground arith

ntime_IsBytes : IsBytes (101 ∷ 83 ∷ 241 ∷ 0 ∷ [])
ntime_IsBytes = ground arith

nbits_IsBytes : IsBytes (29 ∷ 0 ∷ 255 ∷ 255 ∷ [])
nbits_IsBytes = ground arith

-- The texts of the template.
abbrev one_block_HasTexts : HasTexts one_block
unfolding bin2hex hex_digit
one_block_HasTexts = record {
  version = 32 ∷ 0 ∷ 0 ∷ 0 ∷ [];
  prevhash = replicate 32 0;
  ntime = 101 ∷ 83 ∷ 241 ∷ 0 ∷ [];
  nbits = 29 ∷ 0 ∷ 255 ∷ 255 ∷ [];
  version_text = refl;
  prevhash_text = refl;
  ntime_text = refl;
  nbits_text = refl;
  version_length = refl;
  prevhash_length = refl;
  ntime_length = refl;
  nbits_length = refl;
  IsVersion = version_IsBytes;
  IsPrevhash = prevhash_IsBytes;
  IsNtime = ntime_IsBytes;
  IsNbits = nbits_IsBytes;
}

abbrev small_share : Share
small_share = record {
  enonce1bin = replicate 4 5;
  nonce2 = codes "0001020304050607";
  ntime32 = 1700000100;
  version_mask = 0;
  nonce = codes "01020304";
}

abbrev no_transactions : Transactions
no_transactions = record { merklebin = []; txns = 0; txn_data = []; proxy = false }

four_decoded : length (decoded (replicate 80 0) small_share.nonce 4) ≡ 4
unfolding decoded hex2bin nibbles hex2bin_tbl
four_decoded = refl

short :
    length (
      coinbase_bytes
        (replicate 80 0)
        generated.0
        small_share
        (user_coinb2 Percent generated.1 two_scripts generated.0 none))
    ≤ 1024
unfolding coinbase_bytes decoded hex2bin nibbles hex2bin_tbl user_coinb2 generate_coinbase splice
    coinb1 coinb2 coinb3 script_front number_bytes hex_field ser_number number_len le_bytes sig_part
    fee_output takes_fee poolfee_dust witness_output
short = omega arith

no_branch : merkle_bins (pair_hash (replicate 128 0)) [] ≡ some []
unfolding merkle_bins merkle_loop
no_branch = refl

no_text : [] ≡ bin2hex []
unfolding bin2hex
no_text = refl

generate_coinbase-Block_example :
    IsSolved
      (λ hash. false)
      false
      (replicate 80 0)
      no_transactions
      small_share
      []
      []
      (generated_fields Percent
        (λ bytes. true)
        any_header
        solo_pool
        generated.1
        two_scripts
        one_block
        generated.0
        generated-run
        one_block_HasTexts)
      (coinbase_bytes
        (replicate 80 0)
        generated.0
        small_share
        (user_coinb2 Percent generated.1 two_scripts generated.0 none))
      (submission_diff Percent
        (λ hash. false)
        false
        (replicate 80 0)
        (replicate 128 0)
        generated.1
        two_scripts
        generated.0
        none
        no_transactions
        small_share)
generate_coinbase-Block_example =
    generate_coinbase-Block Percent (λ bytes. true) any_header solo_pool generated.1 two_scripts
      one_block generated.0 generated-run one_block_HasTexts (λ hash. false) false (replicate 80 0)
      (replicate 128 0) none no_transactions small_share [] [] refl four_decoded short tt no_branch
      no_text (λ e. refl)
