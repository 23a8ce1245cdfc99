-- ===== src/Block/Hashes.antt =====
-- gen_hash as the double SHA-256 of FIPS 180, on digests of 32 bytes.
use ckpool.Common.{
  ℕ, zero, suc, ◌*◌, ◌/◌, ◌^◌, ◌<◌, ◌≡◌, refl, ap, ◌∙◌, List, [], ◌∷◌, length, take, drop, arith,
}
use ckpool.Sha256.{sha256, gen_hash}
use ckpool.Sha256.Fips.{initial_hash, next_hash, hash_blocks, hash_bytes}
use ckpool.Sha256.Digest.{fips_pad, fips_sha256, sha256-fips}

pub double_sha : List ℕ → List ℕ
double_sha message = fips_sha256 (fips_sha256 message)

length-hash_blocks :
    (h message : List ℕ) (n : ℕ) → length h ≡ 8 → length (hash_blocks h message n) ≡ 8
unfolding hash_blocks next_hash
length-hash_blocks h message zero e = e
length-hash_blocks h message (suc n) e =
    length-hash_blocks (next_hash h (take 64 message)) (drop 64 message) n refl

length-hash_bytes : (ws : List ℕ) → length (hash_bytes ws) ≡ 4 * length ws
unfolding hash_bytes
length-hash_bytes [] = refl
length-hash_bytes (w ∷ ws) = let r = length-hash_bytes ws in omega (arith, r)

length-initial_hash : length initial_hash ≡ 8
unfolding initial_hash
length-initial_hash = refl

length-fips_sha256 : (message : List ℕ) → length (fips_sha256 message) ≡ 32
unfolding fips_sha256
length-fips_sha256 message =
    let pad = fips_pad message in
    let words = hash_blocks initial_hash pad (length pad / 64) in
    let t = length-hash_blocks initial_hash pad (length pad / 64) (length-initial_hash) in
    let u = length-hash_bytes words in omega (arith, t, u)

pub length-double_sha : (message : List ℕ) → length (double_sha message) ≡ 32
unfolding double_sha
length-double_sha message = length-fips_sha256 (fips_sha256 message)

pub gen_hash-double_sha :
    (scratch message : List ℕ)
    → length scratch ≡ 128
    → 8 * length message < 2 ^ 32
    → gen_hash scratch message ≡ double_sha message
unfolding gen_hash double_sha
gen_hash-double_sha scratch message room small =
    let l = length-fips_sha256 message in
    ap (sha256 scratch) (sha256-fips scratch message room small)
    ∙ sha256-fips scratch (fips_sha256 message) room (omega (arith, l))
