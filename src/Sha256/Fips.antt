-- ===== src/Sha256/Fips.antt =====
-- The compression function of SHA-256 as FIPS 180-4 defines it, without a name of src/sha2.c: the
-- functions of section 4.1.2 on words of 32 bits, the constants of 4.2.2 and 5.3.3 as the first bits of
-- the fractional parts of roots of primes, and the message schedule and the rounds of 6.2.2.
use Prim.Native.Nat.{bit_and, bit_or, bit_xor}
use ckpool.Common.{
  ℕ, zero, suc, ◌+◌, ◌-◌, ◌*◌, ◌/◌, ◌%◌, ◌^◌, List, [], ◌∷◌, map, leb, if◌then◌else◌, get_or, drop,
  take,
}

-- ROTR: (x >> n) or (x << 32 - n); and SHR.
unfoldable pub rot : ℕ → ℕ → ℕ
rot n x = bit_or (x / 2 ^ n) (x * 2 ^ (32 - n) % 2 ^ 32)

unfoldable pub shr : ℕ → ℕ → ℕ
shr n x = x / 2 ^ n

unfoldable pub ch : ℕ → ℕ → ℕ → ℕ
ch x y z = bit_xor (bit_and x y) (bit_and (2 ^ 32 - 1 - x) z)

unfoldable pub maj : ℕ → ℕ → ℕ → ℕ
maj x y z = bit_xor (bit_xor (bit_and x y) (bit_and x z)) (bit_and y z)

unfoldable pub big_sigma0 : ℕ → ℕ
big_sigma0 x = bit_xor (bit_xor (rot 2 x) (rot 13 x)) (rot 22 x)

unfoldable pub big_sigma1 : ℕ → ℕ
big_sigma1 x = bit_xor (bit_xor (rot 6 x) (rot 11 x)) (rot 25 x)

unfoldable pub sigma0 : ℕ → ℕ
sigma0 x = bit_xor (bit_xor (rot 7 x) (rot 18 x)) (shr 3 x)

unfoldable pub sigma1 : ℕ → ℕ
sigma1 x = bit_xor (bit_xor (rot 17 x) (rot 19 x)) (shr 10 x)

-- The greatest r below acc + 2 ^ bits with r ^ k at most n, from acc on, bit by bit.
unfoldable pub root_from : ℕ → ℕ → ℕ → ℕ → ℕ
root_from k n zero acc = acc
root_from k n (suc bits) acc =
    root_from k n bits (if leb ((acc + 2 ^ bits) ^ k) n then acc + 2 ^ bits else acc)

-- The first 32 bits of the fractional part of the k-th root of a prime below 2 ^ 9.
unfoldable pub root_bits : ℕ → ℕ → ℕ
root_bits k p = root_from k (p * 2 ^ (32 * k)) 37 0 % 2 ^ 32

abbrev pub eight_primes : List ℕ
eight_primes = 2 ∷ 3 ∷ 5 ∷ 7 ∷ 11 ∷ 13 ∷ 17 ∷ 19 ∷ []

abbrev pub primes : List ℕ
primes =
    2 ∷ 3 ∷ 5 ∷ 7 ∷ 11 ∷ 13 ∷ 17 ∷ 19 ∷ 23 ∷ 29 ∷ 31 ∷ 37 ∷ 41 ∷ 43 ∷ 47 ∷ 53 ∷ 59 ∷ 61 ∷ 67 ∷ 71
    ∷ 73 ∷ 79 ∷ 83 ∷ 89 ∷ 97 ∷ 101 ∷ 103 ∷ 107 ∷ 109 ∷ 113 ∷ 127 ∷ 131 ∷ 137 ∷ 139 ∷ 149 ∷ 151 ∷ 157
    ∷ 163 ∷ 167 ∷ 173 ∷ 179 ∷ 181 ∷ 191 ∷ 193 ∷ 197 ∷ 199 ∷ 211 ∷ 223 ∷ 227 ∷ 229 ∷ 233 ∷ 239 ∷ 241
    ∷ 251 ∷ 257 ∷ 263 ∷ 269 ∷ 271 ∷ 277 ∷ 281 ∷ 283 ∷ 293 ∷ 307 ∷ 311 ∷ []

unfoldable pub constants : List ℕ
constants = map (root_bits 3) primes

unfoldable pub initial_hash : List ℕ
initial_hash = map (root_bits 2) eight_primes

-- The first word of some bytes, most significant byte first.
unfoldable pub word_of : List ℕ → ℕ
word_of bytes =
    get_or bytes 0 0 * 2 ^ 24
    + get_or bytes 1 0 * 2 ^ 16
    + get_or bytes 2 0 * 2 ^ 8
    + get_or bytes 3 0

-- The words W_0 to W_(t - 1) of a block, the latest first, so that W_(t - k) is at k - 1.
unfoldable pub words : List ℕ → ℕ → List ℕ
words block zero = []
words block (suc t) =
    let w = words block t in
    (if leb 16 t
      then (sigma1 (get_or w 1 0) + get_or w 6 0 + sigma0 (get_or w 14 0) + get_or w 15 0) % 2 ^ 32
      else word_of (drop (4 * t) block))
    ∷ w

unfoldable pub oldest_first : List ℕ → List ℕ → List ℕ
oldest_first [] later = later
oldest_first (w ∷ ws) later = oldest_first ws (w ∷ later)

pub record State : Type 0 where
  pub a : ℕ
  pub b : ℕ
  pub c : ℕ
  pub d : ℕ
  pub e : ℕ
  pub f : ℕ
  pub g : ℕ
  pub h : ℕ

-- Step 3 of 6.2.2, with K_t and W_t.
unfoldable pub next_state : State → ℕ → ℕ → State
next_state s k w =
    let t1 = (s.h + big_sigma1 s.e + ch s.e s.f s.g + k + w) % 2 ^ 32 in
    let t2 = (big_sigma0 s.a + maj s.a s.b s.c) % 2 ^ 32 in
    record {
      a = (t1 + t2) % 2 ^ 32;
      b = s.a;
      c = s.b;
      d = s.c;
      e = (s.d + t1) % 2 ^ 32;
      f = s.e;
      g = s.f;
      h = s.g;
    }

unfoldable pub all_rounds : State → List ℕ → List ℕ → State
all_rounds s [] ws = s
all_rounds s (k ∷ ks) [] = s
all_rounds s (k ∷ ks) (w ∷ ws) = all_rounds (next_state s k w) ks ws

-- The hash value behind a block.
unfoldable pub next_hash : List ℕ → List ℕ → List ℕ
next_hash hash block =
    let s =
      all_rounds
        (record {
          a = get_or hash 0 0;
          b = get_or hash 1 0;
          c = get_or hash 2 0;
          d = get_or hash 3 0;
          e = get_or hash 4 0;
          f = get_or hash 5 0;
          g = get_or hash 6 0;
          h = get_or hash 7 0;
        })
        constants (oldest_first (words block 64) []) in
    (get_or hash 0 0 + s.a) % 2 ^ 32
    ∷ (get_or hash 1 0 + s.b) % 2 ^ 32
    ∷ (get_or hash 2 0 + s.c) % 2 ^ 32
    ∷ (get_or hash 3 0 + s.d) % 2 ^ 32
    ∷ (get_or hash 4 0 + s.e) % 2 ^ 32
    ∷ (get_or hash 5 0 + s.f) % 2 ^ 32
    ∷ (get_or hash 6 0 + s.g) % 2 ^ 32
    ∷ (get_or hash 7 0 + s.h) % 2 ^ 32
    ∷ []

-- The hash value behind n blocks of 64 bytes, and the bytes of a hash value.
unfoldable pub hash_blocks : List ℕ → List ℕ → ℕ → List ℕ
hash_blocks hash message zero = hash
hash_blocks hash message (suc n) =
    hash_blocks (next_hash hash (take 64 message)) (drop 64 message) n

unfoldable pub hash_bytes : List ℕ → List ℕ
hash_bytes [] = []
hash_bytes (w ∷ ws) =
    w / 2 ^ 24 % 256 ∷ w / 2 ^ 16 % 256 ∷ w / 2 ^ 8 % 256 ∷ w % 256 ∷ hash_bytes ws
