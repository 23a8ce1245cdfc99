-- ===== src/Sha256/Compress.antt =====
-- One block of sha256_transf in src/sha2.c: message schedule and 64 rounds.
use Prim.Native.Nat.{bit_and, bit_or, bit_xor}
use ckpool.Common.{ℕ, zero, suc, ◌+◌, ◌-◌, ◌*◌, ◌/◌, ◌%◌, ◌^◌, List, [], ◌∷◌, drop, get_or, u32}

abbrev pub sha256_h0 : List ℕ
sha256_h0 =
    0x6a09e667 ∷ 0xbb67ae85 ∷ 0x3c6ef372 ∷ 0xa54ff53a ∷ 0x510e527f ∷ 0x9b05688c ∷ 0x1f83d9ab
    ∷ 0x5be0cd19 ∷ []

abbrev pub sha256_k : List ℕ
sha256_k =
    0x428a2f98 ∷ 0x71374491 ∷ 0xb5c0fbcf ∷ 0xe9b5dba5 ∷ 0x3956c25b ∷ 0x59f111f1 ∷ 0x923f82a4
    ∷ 0xab1c5ed5 ∷ 0xd807aa98 ∷ 0x12835b01 ∷ 0x243185be ∷ 0x550c7dc3 ∷ 0x72be5d74 ∷ 0x80deb1fe
    ∷ 0x9bdc06a7 ∷ 0xc19bf174 ∷ 0xe49b69c1 ∷ 0xefbe4786 ∷ 0x0fc19dc6 ∷ 0x240ca1cc ∷ 0x2de92c6f
    ∷ 0x4a7484aa ∷ 0x5cb0a9dc ∷ 0x76f988da ∷ 0x983e5152 ∷ 0xa831c66d ∷ 0xb00327c8 ∷ 0xbf597fc7
    ∷ 0xc6e00bf3 ∷ 0xd5a79147 ∷ 0x06ca6351 ∷ 0x14292967 ∷ 0x27b70a85 ∷ 0x2e1b2138 ∷ 0x4d2c6dfc
    ∷ 0x53380d13 ∷ 0x650a7354 ∷ 0x766a0abb ∷ 0x81c2c92e ∷ 0x92722c85 ∷ 0xa2bfe8a1 ∷ 0xa81a664b
    ∷ 0xc24b8b70 ∷ 0xc76c51a3 ∷ 0xd192e819 ∷ 0xd6990624 ∷ 0xf40e3585 ∷ 0x106aa070 ∷ 0x19a4c116
    ∷ 0x1e376c08 ∷ 0x2748774c ∷ 0x34b0bcb5 ∷ 0x391c0cb3 ∷ 0x4ed8aa4a ∷ 0x5b9cca4f ∷ 0x682e6ff3
    ∷ 0x748f82ee ∷ 0x78a5636f ∷ 0x84c87814 ∷ 0x8cc70208 ∷ 0x90befffa ∷ 0xa4506ceb ∷ 0xbef9a3f7
    ∷ 0xc67178f2 ∷ []

unfoldable pub rotr : ℕ → ℕ → ℕ
rotr x n = bit_or (x / 2 ^ n) (x * 2 ^ (32 - n) % 2 ^ 32)

unfoldable pub shfr : ℕ → ℕ → ℕ
shfr x n = x / 2 ^ n

-- CH, with the complement of a 32-bit word, and MAJ.
unfoldable pub choose : ℕ → ℕ → ℕ → ℕ
choose x y z = bit_xor (bit_and x y) (bit_and (2 ^ 32 - 1 - x) z)

unfoldable pub majority : ℕ → ℕ → ℕ → ℕ
majority x y z = bit_xor (bit_xor (bit_and x y) (bit_and x z)) (bit_and y z)

-- SHA256_F1 to SHA256_F4.
unfoldable pub f1 : ℕ → ℕ
unfolding rotr
f1 x = bit_xor (bit_xor (rotr x 2) (rotr x 13)) (rotr x 22)

unfoldable pub f2 : ℕ → ℕ
unfolding rotr
f2 x = bit_xor (bit_xor (rotr x 6) (rotr x 11)) (rotr x 25)

unfoldable pub f3 : ℕ → ℕ
unfolding rotr shfr
f3 x = bit_xor (bit_xor (rotr x 7) (rotr x 18)) (shfr x 3)

unfoldable pub f4 : ℕ → ℕ
unfolding rotr shfr
f4 x = bit_xor (bit_xor (rotr x 17) (rotr x 19)) (shfr x 10)

-- PACK32 of the bytes from offset 4 * j.
unfoldable pub pack32 : List ℕ → ℕ → ℕ
pack32 bytes j =
    let at = drop (4 * j) bytes in
    get_or at 0 0 * 2 ^ 24 + get_or at 1 0 * 2 ^ 16 + get_or at 2 0 * 2 ^ 8 + get_or at 3 0

-- The array w, newest word first, so that w[j - k] is at k - 1.
unfoldable pub first_words : ℕ → List ℕ → List ℕ
unfolding pack32
first_words zero block = []
first_words (suc j) block = pack32 block j ∷ first_words j block

-- SHA256_SCR for the remaining words.
unfoldable pub schedule : ℕ → List ℕ → List ℕ
unfolding f3 f4
schedule zero w = w
schedule (suc n) w =
    schedule n (u32 (f4 (get_or w 1 0) + get_or w 6 0 + f3 (get_or w 14 0) + get_or w 15 0) ∷ w)

-- wv[0] to wv[7].
pub record Working : Type 0 where
  pub a : ℕ
  pub b : ℕ
  pub c : ℕ
  pub d : ℕ
  pub e : ℕ
  pub f : ℕ
  pub g : ℕ
  pub h : ℕ

unfoldable pub round : Working → ℕ → ℕ → Working
unfolding f1 f2 choose majority
round v k w =
    let t1 = u32 (v.h + f2 v.e + choose v.e v.f v.g + k + w) in
    let t2 = u32 (f1 v.a + majority v.a v.b v.c) in
    record {
      a = u32 (t1 + t2);
      b = v.a;
      c = v.b;
      d = v.c;
      e = u32 (v.d + t1);
      f = v.e;
      g = v.f;
      h = v.g;
    }

-- The 64 rounds, over the constants and the words in order.
unfoldable pub rounds : Working → List ℕ → List ℕ → Working
unfolding round
rounds v [] ws = v
rounds v (k ∷ ks) [] = v
rounds v (k ∷ ks) (w ∷ ws) = rounds (round v k w) ks ws

unfoldable pub rev_onto : List ℕ → List ℕ → List ℕ
rev_onto [] out = out
rev_onto (x ∷ xs) out = rev_onto xs (x ∷ out)

-- The hash state after a block of 64 bytes.
unfoldable pub transf_block : List ℕ → List ℕ → List ℕ
unfolding first_words schedule rounds rev_onto
transf_block h block =
    let w = rev_onto (schedule 48 (first_words 16 block)) [] in
    let v =
      rounds
        (record {
          a = get_or h 0 0;
          b = get_or h 1 0;
          c = get_or h 2 0;
          d = get_or h 3 0;
          e = get_or h 4 0;
          f = get_or h 5 0;
          g = get_or h 6 0;
          h = get_or h 7 0;
        })
        sha256_k w in
    u32 (get_or h 0 0 + v.a)
    ∷ u32 (get_or h 1 0 + v.b)
    ∷ u32 (get_or h 2 0 + v.c)
    ∷ u32 (get_or h 3 0 + v.d)
    ∷ u32 (get_or h 4 0 + v.e)
    ∷ u32 (get_or h 5 0 + v.f)
    ∷ u32 (get_or h 6 0 + v.g)
    ∷ u32 (get_or h 7 0 + v.h)
    ∷ []
