-- ===== src/Block/Generated.antt =====
-- Shares on a workbase of generate_coinbase.
use ckpool.Common.{ℕ, ◌≤◌, ◌≡◌, refl, Bool, List, [], Option, some, length, replicate, All}
use ckpool.Hex.{bin2hex}
use ckpool.Merkle.{merkle_bins}
use ckpool.Coinbase.{Fees, Ckp, Scripts, Template, Coinbase, generate_coinbase, user_coinb2, ok}
use ckpool.Coinbase.Headers.{HasTexts, generated-header}
use ckpool.Block.{Share, Transactions, decoded, pair_hash, coinbase_bytes, submission_diff}
use ckpool.Block.Solved.{HasFields, IsSolved, submission_diff-Block}

module _ (F : Fees) (checktxn : List ℕ → Bool) (header : List ℕ) (ckp ckp' : Ckp F)
    (scripts : Scripts F) (template : Template) (wb : Coinbase)
    (run : generate_coinbase F checktxn header ckp scripts template ≡ ok (wb, ckp'))
    (h : HasTexts template) where
  -- The fields of the template, with an empty merkle root and nonce.
  abbrev pub generated_fields : HasFields wb.headerbin
  generated_fields = record {
    version = h.version;
    prevhash = h.prevhash;
    root = replicate 32 0;
    ntime = h.ntime;
    nbits = h.nbits;
    nonce = replicate 4 0;
    version_length = h.version_length;
    prevhash_length = h.prevhash_length;
    root_length = refl;
    ntime_length = h.ntime_length;
    nbits_length = h.nbits_length;
    nonce_length = refl;
    start = generated-header F checktxn header ckp ckp' scripts template wb run h;
  }

  -- Where generate_coinbase has built the workbase from a template whose version, previous hash, time
  -- and bits are the hexadecimal texts of 4, 32, 4 and 4 bytes, the nonce is decoded to four bytes, the
  -- SHA-256 contexts have 128 bytes, the coinbase fits its 1024 bytes, the merkle branch is what the
  -- loop of wb_merkle_bin_txns left in its 16 entries for transaction ids of 32 bytes, and the text of
  -- the transactions is that of their bytes, of none where there are none: submission_diff returns; it
  -- hashes, by the double SHA-256, the header of the template's bytes, with the words turned round, the
  -- mask, time and nonce of the share, and the merkle root over the coinbase and the transactions; it
  -- does not call process_block where the hash is below the network's difficulty or a proxy has no
  -- transactions; else process_block refuses a coinbase of more than 511 bytes, overflows its buffer
  -- where the text before the transactions does not fit 1024 bytes, and otherwise builds the text of
  -- that block.
  pub generate_coinbase-Block :
      (below_network : List ℕ → Bool) (node : Bool) (stack scratch : List ℕ)
      (userwb : Option (List ℕ)) (t : Transactions) (s : Share) (txids : List (List ℕ))
      (txs : List ℕ)
      → length scratch ≡ 128
      → length (decoded stack s.nonce 4) ≡ 4
      → length (coinbase_bytes stack wb s (user_coinb2 F ckp' scripts wb userwb)) ≤ 1024
      → All (λ txid. length txid ≡ 32) txids
      → merkle_bins (pair_hash scratch) txids ≡ some t.merklebin
      → t.txn_data ≡ bin2hex txs
      → (t.txns ≡ 0 → txs ≡ [])
      → IsSolved below_network node stack t s txids txs generated_fields
          (coinbase_bytes stack wb s (user_coinb2 F ckp' scripts wb userwb))
          (submission_diff F below_network node stack scratch ckp' scripts wb userwb t s)
  generate_coinbase-Block below_network node stack scratch userwb t s txids txs room nonce small ids
        built txt alone =
      submission_diff-Block F below_network node stack scratch ckp' scripts wb userwb t s txids txs
        generated_fields room nonce small ids built txt alone
