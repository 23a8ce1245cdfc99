-- ===== src/Sha256/Tests.antt =====
-- Runs of the hash on a known digest, and the witness of its theorem.
use ckpool.Common.{ℕ, ◌≡◌, refl, List, [], ◌∷◌, replicate, codes, take, arith}
use ckpool.Sha256.{
  sha256, sha256_final, sha256_update, sha256_init, sha256_transf, memcpy_at, unpack_words,
  unpack32,
}
use ckpool.Sha256.Compress.{transf_block}
use ckpool.Sha256.Digest.{fips_sha256, update_all, concat, sha256_stream-fips}

-- SHA-256 of "abc" begins ba7816bf.
sha256-abc : take 4 (sha256 (replicate 128 0) (codes "abc")) ≡ 0xba ∷ 0x78 ∷ 0x16 ∷ 0xbf ∷ []
unfolding sha256 sha256_final sha256_update sha256_init sha256_transf memcpy_at unpack_words
    unpack32 transf_block
sha256-abc = refl

abbrev two_chunks : List (List ℕ)
two_chunks = codes "a" ∷ codes "bc" ∷ []

sha256_stream-fips_example :
    sha256_final (update_all (sha256_init (replicate 128 7)) two_chunks)
    ≡ fips_sha256 (concat two_chunks)
sha256_stream-fips_example = sha256_stream-fips (replicate 128 7) two_chunks refl (omega arith)
