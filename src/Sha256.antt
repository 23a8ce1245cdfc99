-- ===== src/Sha256.antt =====
-- src/sha2.c, the portable build, with the macros of src/sha2.h; and gen_hash of src/libckpool.c.
-- A message is a list of bytes, a word of type uint32_t or unsigned int a number below 2 ^ 32.
pub mod Compress
pub mod Fips
pub mod Rounds
pub mod Stream
pub mod Digest
mod Tests
use ckpool.Common.{
  ℕ, zero, suc, ◌+◌, ◌-◌, ◌*◌, ◌/◌, ◌%◌, ◌^◌, List, [], ◌∷◌, ◌++◌, map, ltb, if◌then◌else◌, length,
  take, drop, replicate, u32,
}
use Compress.{sha256_h0, transf_block}

abbrev pub block_size : ℕ
block_size = 64

-- UNPACK32: the four bytes of a word, most significant first.
unfoldable pub unpack32 : ℕ → List ℕ
unpack32 x = x / 2 ^ 24 % 256 ∷ x / 2 ^ 16 % 256 ∷ x / 2 ^ 8 % 256 ∷ x % 256 ∷ []

unfoldable pub unpack_words : List ℕ → List ℕ
unpack_words [] = []
unpack_words (x ∷ xs) = unpack32 x ++ unpack_words xs

-- sha256_transf: `block_nb` blocks from the front of the message.
unfoldable pub sha256_transf : List ℕ → List ℕ → ℕ → List ℕ
sha256_transf h message zero = h
sha256_transf h message (suc block_nb) =
    sha256_transf (transf_block h (take 64 message)) (drop 64 message) block_nb

pub record Ctx : Type 0 where
  pub tot_len : ℕ
  pub len : ℕ
  pub block : List ℕ
  pub h : List ℕ

-- The block is not set by sha256_init: `block` is what the memory held, 128 bytes.
unfoldable pub sha256_init : List ℕ → Ctx
sha256_init block = record { tot_len = 0; len = 0; block = block; h = sha256_h0 }

-- memcpy(&dest[ofs], bytes, length bytes).
unfoldable pub memcpy_at : List ℕ → ℕ → List ℕ → List ℕ
memcpy_at dest ofs bytes = take ofs dest ++ bytes ++ drop (ofs + length bytes) dest

unfoldable pub sha256_update : Ctx → List ℕ → Ctx
sha256_update ctx message =
    let len = length message in
    let tmp_len = block_size - ctx.len in
    let rem_len = if ltb len tmp_len then len else tmp_len in
    let block = memcpy_at ctx.block ctx.len (take rem_len message) in
    let new_len = len - rem_len in
    let block_nb = new_len / block_size in
    let shifted_message = drop rem_len message in
    let h1 = sha256_transf ctx.h block 1 in
    let h2 = sha256_transf h1 shifted_message block_nb in
    let rest = take (new_len % block_size) (drop (block_nb * 64) shifted_message) in
    if ltb (u32 (ctx.len + len)) block_size
    then record ctx { len = u32 (ctx.len + len); block = block }
    else record {
      tot_len = u32 (ctx.tot_len + (block_nb + 1) * 64);
      len = new_len % block_size;
      block = memcpy_at block 0 rest;
      h = h2;
    }

unfoldable pub sha256_final : Ctx → List ℕ
sha256_final ctx =
    let block_nb = if ltb (block_size - 9) (ctx.len % block_size) then 2 else 1 in
    let len_b = u32 (u32 (ctx.tot_len + ctx.len) * 2 ^ 3) in
    let pm_len = block_nb * 64 in
    let cleared = memcpy_at ctx.block ctx.len (replicate (pm_len - ctx.len) 0) in
    let marked = memcpy_at cleared ctx.len (0x80 ∷ []) in
    let block = memcpy_at marked (pm_len - 4) (unpack32 len_b) in
    unpack_words (sha256_transf ctx.h block block_nb)

-- `scratch` is the memory of the local context.
unfoldable pub sha256 : List ℕ → List ℕ → List ℕ
sha256 scratch message = sha256_final (sha256_update (sha256_init scratch) message)

unfoldable pub gen_hash : List ℕ → List ℕ → List ℕ
gen_hash scratch message = sha256 scratch (sha256 scratch message)
