-- ===== src/Block/Solved.antt =====
-- What submission_diff hashes, and the block that it hands on.
use mathlib.Core.Path.{subst}
use ckpool.Common.{
  ℕ, ◌+◌, ◌≤◌, ltb, false, ◌≡◌, ap, ap₂, ◌∙◌, Bool, not, ◌&&◌, List, [], ◌∷◌, ◌++◌, Option, none,
  some, if◌then◌else◌, length, length-append, take, All, le_bytes, length-le_bytes, arith,
}
use ckpool.Hex.{bin2hex}
use ckpool.Sha256.{gen_hash}
use ckpool.Merkle.{merkle_bins, merkle_root}
use ckpool.Merkle.Root.{Root, bins_branch}
use ckpool.Coinbase.{Fees, Ckp, Scripts, Coinbase, user_coinb2}
use ckpool.Block.{
  Share, Transactions, Hashed, flip, decoded, pair_hash, coinbase_bytes, assemble, filled_header,
  hash_share, Processed, test_blocksolve, submission_diff,
}
use ckpool.Block.Fields.{fields, masked, swap-fields, length-masked, length-flip, length-fields}
use ckpool.Block.Hashes.{double_sha, gen_hash-double_sha, length-double_sha}
use ckpool.Block.Roots.{agreed_roots}
use ckpool.Block.Texts.{block_text, process_block-block_text}

-- A cached header of six fields.
pub record HasFields (headerbin : List ℕ) : Type 0 where
  pub version : List ℕ
  pub prevhash : List ℕ
  pub root : List ℕ
  pub ntime : List ℕ
  pub nbits : List ℕ
  pub nonce : List ℕ
  pub version_length : length version ≡ 4
  pub prevhash_length : length prevhash ≡ 32
  pub root_length : length root ≡ 32
  pub ntime_length : length ntime ≡ 4
  pub nbits_length : length nbits ≡ 4
  pub nonce_length : length nonce ≡ 4
  pub start : take 80 headerbin ≡ fields version prevhash root ntime nbits nonce

-- The merkle root of a coinbase and some transactions, by the double SHA-256.
abbrev pub MerkleRoot : List ℕ → List (List ℕ) → List ℕ → Type 0
MerkleRoot coinbase txids root =
    Root (λ a b. double_sha (a ++ b)) (double_sha coinbase ∷ txids) root

-- The header of a block on a template, as it is hashed.
abbrev pub block_header :
    {headerbin : List ℕ} → HasFields headerbin → List ℕ → Share → List ℕ → List ℕ
block_header f stack s root =
    fields (flip 1 (masked s.version_mask f.version)) (flip 8 f.prevhash) root
      (le_bytes 4 s.ntime32) (flip 1 f.nbits) (flip 1 (decoded stack s.nonce 4))

module _ (scratch : List ℕ) (room : length scratch ≡ 128) where
  pair-double_sha :
      (a b : List ℕ) → length a ≡ 32 → length b ≡ 32 → pair_hash scratch a b ≡ double_sha (a ++ b)
  unfolding pair_hash
  pair-double_sha a b la lb =
      gen_hash-double_sha scratch (a ++ b) room (omega (arith, la, lb, length-append a b))

  length-pair : (a b : List ℕ) → length a ≡ 32 → length b ≡ 32 → length (pair_hash scratch a b) ≡ 32
  length-pair a b la lb = ap length (pair-double_sha a b la lb) ∙ length-double_sha (a ++ b)

  merkle_root-double_sha :
      (coinbase : List ℕ) (txids bins : List (List ℕ))
      → length coinbase ≤ 1024
      → All (λ txid. length txid ≡ 32) txids
      → merkle_bins (pair_hash scratch) txids ≡ some bins
      → MerkleRoot coinbase txids (merkle_root (pair_hash scratch) (gen_hash scratch coinbase) bins)
        × length (merkle_root (pair_hash scratch) (gen_hash scratch coinbase) bins) ≡ 32
  merkle_root-double_sha coinbase txids bins small ids run =
      let g = gen_hash-double_sha scratch coinbase room (omega (arith, small)) in
      let acc = gen_hash scratch coinbase in
      let branch = bins_branch (pair_hash scratch) acc txids bins run in
      let r =
        agreed_roots (pair_hash scratch) (λ a b. double_sha (a ++ b)) (λ z. length z ≡ 32)
          pair-double_sha length-pair branch (ap length g ∙ length-double_sha coinbase, ids) in
      (
        subst
            (λ z.
              Root (λ a b. double_sha (a ++ b)) (z ∷ txids)
                (merkle_root (pair_hash scratch) acc bins))
            g r.0,
        r.1,
      )

-- What is hashed and handed on for a share: its root is that of its coinbase and the transactions, it
-- is a header with that root, it is hashed by the double SHA-256, and unless the hash is below the
-- network's difficulty or a proxy has no transactions, process_block is called and gives block_text.
pub record IsSolved (below_network : List ℕ → Bool) (node : Bool) (stack : List ℕ)
    (t : Transactions) (s : Share) (txids : List (List ℕ)) (txs : List ℕ) {headerbin : List ℕ}
    (f : HasFields headerbin) (coinbase : List ℕ) (result : Option (Hashed × Option Processed))
    : Type 0 where
  pub root : List ℕ
  pub is_root : MerkleRoot coinbase txids root
  pub block : Option Processed
  pub result_is :
      result
      ≡ some (
        record {
          coinbase = coinbase;
          swap = block_header f stack s root;
          hash = double_sha (block_header f stack s root);
        },
        block,
      )
  pub block_is : block ≡ (
      if below_network (double_sha (block_header f stack s root))
      then none
      else if not node && t.proxy
      then none
      else some (block_text (t.txns + 1) (block_header f stack s root) coinbase txs))

length-block_header :
    (headerbin stack root : List ℕ) (f : HasFields headerbin) (s : Share)
    → length root ≡ 32
    → length (decoded stack s.nonce 4) ≡ 4
    → length (block_header f stack s root) ≡ 80
length-block_header headerbin stack root f s lr ln =
    let v = flip 1 (masked s.version_mask f.version) in
    let lv =
      length-flip 1 (masked s.version_mask f.version)
        (length-masked s.version_mask f.version f.version_length) in
    let p = flip 8 f.prevhash in
    let lp = length-flip 8 f.prevhash f.prevhash_length in
    let t = le_bytes 4 s.ntime32 in
    let b = flip 1 f.nbits in
    let lb = length-flip 1 f.nbits f.nbits_length in
    let n = flip 1 (decoded stack s.nonce 4) in
    let k = length-flip 1 (decoded stack s.nonce 4) ln in
    length-fields v p root t b n (lv, (lp, (lr, (length-le_bytes 4 s.ntime32, (lb, k)))))

module _ (stack : List ℕ) (wb : Coinbase) (s : Share) (coinb2bin : List ℕ) where
  assembled :
      length (coinbase_bytes stack wb s coinb2bin) ≤ 1024
      → assemble stack wb s coinb2bin ≡ some (coinbase_bytes stack wb s coinb2bin)
  unfolding assemble
  assembled small =
      let fits : ltb 1024 (length (coinbase_bytes stack wb s coinb2bin)) ≡ false =
        ground (arith, small) in
      ap (λ b. if b then none else some (coinbase_bytes stack wb s coinb2bin)) fits

hashed_as : List ℕ → List ℕ → List ℕ → Hashed
hashed_as coinbase swap hash = record { coinbase = coinbase; swap = swap; hash = hash }

solves :
    (below_network : List ℕ → Bool) (node : Bool) (t : Transactions) (txs : List ℕ) (h : Hashed)
    → t.txn_data ≡ bin2hex txs
    → (t.txns ≡ 0 → txs ≡ [])
    → test_blocksolve below_network node t h ≡ (
        if below_network h.hash
        then none
        else if not node && t.proxy
        then none
        else some (block_text (t.txns + 1) h.swap h.coinbase txs))
unfolding test_blocksolve
solves below_network node t txs h txt alone =
    ap (λ z. if below_network h.hash then none else if not node && t.proxy then none else some z)
      (process_block-block_text t h.coinbase h.swap txs txt alone)

-- Where the cached header has its six fields, the nonce is decoded to four bytes, the SHA-256 contexts
-- have 128 bytes, the coinbase fits its 1024 bytes, the merkle branch is what the loop of
-- wb_merkle_bin_txns left in its 16 entries for transaction ids of 32 bytes, and the text of the
-- transactions is the hexadecimal text of their bytes, of none where there are no transactions:
-- submission_diff returns; it hashes, by the double SHA-256, a header with the time and the nonce of
-- the share, the version with its mask, the template's other fields and the merkle root of the tree
-- over the assembled coinbase and the transactions; it does not call process_block where the hash is
-- below the network's difficulty or a proxy has no transactions; else process_block refuses a coinbase
-- of more than 511 bytes, overflows its buffer where the text before the transactions does not fit 1024
-- bytes, and otherwise builds the hexadecimal text of that header, the compact size, the coinbase and
-- the transactions.
pub submission_diff-Block :
    (F : Fees) (below_network : List ℕ → Bool) (node : Bool) (stack scratch : List ℕ) (ckp : Ckp F)
    (scripts : Scripts F) (wb : Coinbase) (userwb : Option (List ℕ)) (t : Transactions) (s : Share)
    (txids : List (List ℕ)) (txs : List ℕ) (f : HasFields wb.headerbin)
    → length scratch ≡ 128
    → length (decoded stack s.nonce 4) ≡ 4
    → length (coinbase_bytes stack wb s (user_coinb2 F ckp scripts wb userwb)) ≤ 1024
    → All (λ txid. length txid ≡ 32) txids
    → merkle_bins (pair_hash scratch) txids ≡ some t.merklebin
    → t.txn_data ≡ bin2hex txs
    → (t.txns ≡ 0 → txs ≡ [])
    → IsSolved below_network node stack t s txids txs f
        (coinbase_bytes stack wb s (user_coinb2 F ckp scripts wb userwb))
        (submission_diff F below_network node stack scratch ckp scripts wb userwb t s)
unfolding submission_diff hash_share assemble hashed_as
submission_diff-Block F below_network node stack scratch ckp scripts wb userwb t s txids txs f room
      nonce small ids run txt alone =
    let coinbase = coinbase_bytes stack wb s (user_coinb2 F ckp scripts wb userwb) in
    let r = merkle_root-double_sha scratch room coinbase txids t.merklebin small ids run in
    let root = merkle_root (pair_hash scratch) (gen_hash scratch coinbase) t.merklebin in
    let header = block_header f stack s root in
    let swap : flip 20 (filled_header stack wb.headerbin root s) ≡ header =
      swap-fields stack f.version f.prevhash f.root f.ntime f.nbits f.nonce wb.headerbin root s
        f.version_length f.prevhash_length f.root_length f.ntime_length f.nbits_length
        f.nonce_length f.start r.1 nonce in
    let l = length-block_header wb.headerbin stack root f s r.1 nonce in
    let hash : gen_hash scratch (flip 20 (filled_header stack wb.headerbin root s))
        ≡ double_sha header =
      ap (gen_hash scratch) swap ∙ gen_hash-double_sha scratch header room (omega (arith, l)) in
    let h = hash_share stack scratch wb t.merklebin s coinbase in
    record {
      root = root;
      is_root = r.0;
      block = test_blocksolve below_network node t h;
      result_is =
          rw (submission_diff, assembled stack wb s (user_coinb2 F ckp scripts wb userwb) small)
            (ap₂ (λ a b. some (hashed_as coinbase a b, test_blocksolve below_network node t h)) swap
              hash);
      block_is =
          solves below_network node t txs h txt alone
          ∙ ap₂
              (λ a b.
                if below_network a
                then none
                else if not node && t.proxy
                then none
                else some (block_text (t.txns + 1) b coinbase txs))
              hash swap;
    }
