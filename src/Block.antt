-- ===== src/Block.antt =====
-- The header that a share is hashed as, and the block it may solve: submission_diff, process_block
-- and test_blocksolve of src/stratifier.c, with flip_32 and flip_80 of src/libckpool.h. Local arrays
-- start with the bytes of `stack`. The difficulty of a hash against the network's, doubles, is a
-- parameter.
pub mod Fields
pub mod Roots
pub mod Hashes
pub mod Texts
pub mod Solved
pub mod Generated
mod Tests
use Prim.Native.Nat.{bit_or}
use ckpool.Common.{
  ℕ, zero, suc, ◌+◌, ◌*◌, ◌/◌, Bool, true, false, not, ◌&&◌, List, [], ◌∷◌, ◌++◌, Option, none,
  some, ltb, leb, ◌==◌, if◌then◌else◌, length, take, drop, le_bytes, u8,
}
use ckpool.Hex.{bin2hex, hex2bin}
use ckpool.Sha256.{memcpy_at, unpack32, gen_hash}
use ckpool.Merkle.{merkle_root}
use ckpool.Coinbase.{Fees, Ckp, Scripts, Coinbase, user_coinb2}

-- bswap_32 of each of some words.
pub flip : ℕ → List ℕ → List ℕ
flip (suc n) (a ∷ b ∷ c ∷ d ∷ bytes) = d ∷ c ∷ b ∷ a ∷ flip n bytes
flip n bytes = []

-- hex2bin into an array that held `stack`.
unfoldable pub decoded : List ℕ → List ℕ → ℕ → List ℕ
decoded stack hex n =
    let bytes = (hex2bin hex n).bytes in bytes ++ drop (length bytes) (take n stack)

pub or_bytes : List ℕ → List ℕ → List ℕ
or_bytes (a ∷ bytes) (b ∷ mask) = bit_or a b ∷ or_bytes bytes mask
or_bytes bytes mask = []

-- What a client sends with a share, and the extra nonce that it was given.
pub record Share : Type 0 where
  pub enonce1bin : List ℕ
  pub nonce2 : List ℕ
  pub ntime32 : ℕ
  pub version_mask : ℕ
  pub nonce : List ℕ

-- The rest of a workbase: its merkle branch and its transactions.
pub record Transactions : Type 0 where
  pub merklebin : List (List ℕ)
  pub txns : ℕ
  pub txn_data : List ℕ
  pub proxy : Bool

-- What is copied to `coinbase`, one part behind the other.
unfoldable pub coinbase_bytes : List ℕ → Coinbase → Share → List ℕ → List ℕ
coinbase_bytes stack wb s coinb2bin =
    wb.coinb1bin ++ (s.enonce1bin ++ (decoded stack s.nonce2 wb.enonce2varlen ++ coinb2bin))

-- coinbase = alloca(1024), filled; none is a write behind it.
unfoldable pub assemble : List ℕ → Coinbase → Share → List ℕ → Option (List ℕ)
assemble stack wb s coinb2bin =
    let bytes = coinbase_bytes stack wb s coinb2bin in
    if ltb 1024 (length bytes) then none else some bytes

pub pair_hash : List ℕ → List ℕ → List ℕ → List ℕ
pair_hash scratch a b = gen_hash scratch (a ++ b)

-- `data` up to flip_80: the merkle root, the version, the nonce and the time go into the cached header.
pub with_version : ℕ → List ℕ → List ℕ
with_version version_mask header =
    if version_mask == 0
    then header
    else memcpy_at header 0 (or_bytes (take 4 header) (unpack32 version_mask))

pub filled_header : List ℕ → List ℕ → List ℕ → Share → List ℕ
filled_header stack headerbin merkle_sha s =
    let rooted = memcpy_at (take 80 headerbin) 36 (flip 8 merkle_sha) in
    let nonced = memcpy_at (with_version s.version_mask rooted) 76 (decoded stack s.nonce 4) in
    memcpy_at nonced 68 (unpack32 s.ntime32)

pub record Hashed : Type 0 where
  pub coinbase : List ℕ
  pub swap : List ℕ
  pub hash : List ℕ

-- From the coinbase to the hash of the share; `scratch` is the memory of the SHA-256 contexts.
pub hash_share : List ℕ → List ℕ → Coinbase → List (List ℕ) → Share → List ℕ → Hashed
hash_share stack scratch wb merklebin s coinbase =
    let root = merkle_root (pair_hash scratch) (gen_hash scratch coinbase) merklebin in
    let swap = flip 20 (filled_header stack wb.headerbin root s) in
    record { coinbase = coinbase; swap = swap; hash = gen_hash scratch swap }

-- The number of transactions, in hexadecimal.
pub varint : ℕ → List ℕ
varint txns =
    if ltb txns 0xfd
    then bin2hex (u8 txns ∷ [])
    else if leb txns 0xffff
    then b'f' ∷ b'd' ∷ bin2hex (le_bytes 2 txns)
    else b'f' ∷ b'e' ∷ bin2hex (le_bytes 4 txns)

-- process_block: no text for a coinbase of more than 511 bytes. `overflow` is a write behind the 1024
-- bytes of gbt_block.
pub data Processed : Type 0 where
  refused : Processed
  overflow : Processed
  built : List ℕ → Processed

pub process_block : Transactions → List ℕ → List ℕ → Processed
process_block t coinbase header =
    let front = bin2hex header ++ (varint (t.txns + 1) ++ bin2hex coinbase) in
    if ltb 511 (length coinbase)
    then refused
    else if ltb 1023 (length front)
    then overflow
    else built (if t.txns == 0 then front else front ++ t.txn_data)

-- test_blocksolve: what process_block gives, where it is called; local_block_submit takes what is built.
pub test_blocksolve : (List ℕ → Bool) → Bool → Transactions → Hashed → Option Processed
test_blocksolve below_network node t h =
    if below_network h.hash
    then none
    else if not node && t.proxy
    then none
    else some (process_block t h.coinbase h.swap)

-- submission_diff: the share as it was hashed, and the block that it solves; none where the coinbase
-- is written behind its 1024 bytes.
module _ (F : Fees) where
  pub submission_diff :
      (List ℕ → Bool)
      → Bool
      → List ℕ
      → List ℕ
      → Ckp F
      → Scripts F
      → Coinbase
      → Option (List ℕ)
      → Transactions
      → Share
      → Option (Hashed × Option Processed)
  submission_diff below_network node stack scratch ckp scripts wb userwb t s =
      elim (assemble stack wb s (user_coinb2 F ckp scripts wb userwb)) [
        | none ↦ none
        | some coinbase ↦
            let h = hash_share stack scratch wb t.merklebin s coinbase in
            some (h, test_blocksolve below_network node t h)
      ]
