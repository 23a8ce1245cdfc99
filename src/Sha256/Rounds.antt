-- ===== src/Sha256/Rounds.antt =====
-- sha256_transf against the compression function of FIPS 180-4.
use ckpool.Common.{
  ℕ, zero, suc, ◌+◌, ◌*◌, ◌/◌, ◌%◌, ◌^◌, ◌≤◌, ◌≡◌, refl, sym, ap, ap₂, ◌∙◌, List, [], ◌∷◌, true,
  false, leb, get_or, take, drop, arith,
}
use ckpool.Sha256.{sha256_transf, unpack_words, unpack32}
use ckpool.Sha256.Compress.{
  sha256_h0, sha256_k, rotr, shfr, choose, majority, f1, f2, f3, f4, pack32, first_words, schedule,
  Working, round, rounds, rev_onto, transf_block,
}
use ckpool.Sha256.Fips.{
  rot, shr, ch, maj, big_sigma0, big_sigma1, sigma0, sigma1, root_from, root_bits, constants,
  initial_hash, word_of, words, oldest_first, State, next_state, all_rounds, next_hash, hash_blocks,
  hash_bytes,
}

-- The tables of the source are the constants of the standard.
sha256_k-constants : sha256_k ≡ constants
unfolding constants root_bits root_from
sha256_k-constants = refl

pub sha256_h0-initial_hash : sha256_h0 ≡ initial_hash
unfolding initial_hash root_bits root_from
sha256_h0-initial_hash = refl

f3-sigma0 : (x : ℕ) → f3 x ≡ sigma0 x
unfolding f3 rotr shfr sigma0 rot shr
f3-sigma0 x = refl

f4-sigma1 : (x : ℕ) → f4 x ≡ sigma1 x
unfolding f4 rotr shfr sigma1 rot shr
f4-sigma1 x = refl

first_words-words : (j : ℕ) (block : List ℕ) → j ≤ 16 → first_words j block ≡ words block j
unfolding first_words words pack32 word_of
first_words-words zero block few = refl
first_words-words (suc j) block few =
    let r = first_words-words j block (omega (arith, few)) in
    let small : leb 16 j ≡ false = ground (arith, few) in
    rw small (ap (λ w. word_of (drop (4 * j) block) ∷ w) r)

-- One word more.
next_word : List ℕ → ℕ
next_word w =
    (sigma1 (get_or w 1 0) + get_or w 6 0 + sigma0 (get_or w 14 0) + get_or w 15 0) % 2 ^ 32

later_words :
    (t : ℕ) (block : List ℕ)
    → 16 ≤ t
    → words block (suc t) ≡ next_word (words block t) ∷ words block t
unfolding words next_word
later_words t block late = let big : leb 16 t ≡ true = ground (arith, late) in rw big refl

schedule-next : (n : ℕ) (w : List ℕ) → schedule (suc n) w ≡ schedule n (next_word w ∷ w)
unfolding schedule next_word f3 f4 rotr shfr sigma0 sigma1 rot shr
schedule-next n w = refl

schedule-words :
    (n t : ℕ) (block : List ℕ) → 16 ≤ t → schedule n (words block t) ≡ words block (t + n)
unfolding schedule
schedule-words zero t block late = ap (words block) (omega arith)
schedule-words (suc n) t block late =
    schedule-next n (words block t)
    ∙ ap (schedule n) (sym (later_words t block late))
    ∙ schedule-words n (suc t) block (omega (arith, late))
    ∙ ap (words block) (omega arith)

rev_onto-oldest_first : (ws out : List ℕ) → rev_onto ws out ≡ oldest_first ws out
unfolding rev_onto oldest_first
rev_onto-oldest_first [] out = refl
rev_onto-oldest_first (w ∷ ws) out = rev_onto-oldest_first ws (w ∷ out)

message_words :
    (block : List ℕ)
    → rev_onto (schedule 48 (first_words 16 block)) [] ≡ oldest_first (words block 64) []
message_words block =
    rev_onto-oldest_first (schedule 48 (first_words 16 block)) []
    ∙ ap (λ ws. oldest_first ws [])
        (ap (schedule 48) (first_words-words 16 block (omega arith))
          ∙ schedule-words 48 16 block (omega arith))

state_of : Working → State
state_of v = record { a = v.a; b = v.b; c = v.c; d = v.d; e = v.e; f = v.f; g = v.g; h = v.h }

round-next_state : (v : Working) (k w : ℕ) → state_of (round v k w) ≡ next_state (state_of v) k w
unfolding state_of round next_state f1 f2 choose majority rotr big_sigma0 big_sigma1 ch maj rot
round-next_state v k w = refl

rounds-all_rounds :
    (v : Working) (ks ws : List ℕ) → state_of (rounds v ks ws) ≡ all_rounds (state_of v) ks ws
unfolding rounds all_rounds
rounds-all_rounds v [] ws = refl
rounds-all_rounds v (k ∷ ks) [] = refl
rounds-all_rounds v (k ∷ ks) (w ∷ ws) =
    rounds-all_rounds (round v k w) ks ws ∙ ap (λ s. all_rounds s ks ws) (round-next_state v k w)

-- The sums with the hash value before the block.
added_to : List ℕ → State → List ℕ
added_to h s =
    (get_or h 0 0 + s.a) % 2 ^ 32
    ∷ (get_or h 1 0 + s.b) % 2 ^ 32
    ∷ (get_or h 2 0 + s.c) % 2 ^ 32
    ∷ (get_or h 3 0 + s.d) % 2 ^ 32
    ∷ (get_or h 4 0 + s.e) % 2 ^ 32
    ∷ (get_or h 5 0 + s.f) % 2 ^ 32
    ∷ (get_or h 6 0 + s.g) % 2 ^ 32
    ∷ (get_or h 7 0 + s.h) % 2 ^ 32
    ∷ []

first_working : List ℕ → Working
first_working h = record {
  a = get_or h 0 0;
  b = get_or h 1 0;
  c = get_or h 2 0;
  d = get_or h 3 0;
  e = get_or h 4 0;
  f = get_or h 5 0;
  g = get_or h 6 0;
  h = get_or h 7 0;
}

transf_block-rounds :
    (h block : List ℕ)
    → transf_block h block
      ≡ added_to h (
          state_of
            (rounds (first_working h) sha256_k (rev_onto (schedule 48 (first_words 16 block)) [])))
unfolding transf_block added_to state_of first_working
transf_block-rounds h block = refl

next_hash-rounds :
    (h block : List ℕ)
    → next_hash h block
      ≡ added_to h
          (all_rounds (state_of (first_working h)) constants (oldest_first (words block 64) []))
unfolding next_hash added_to state_of first_working
next_hash-rounds h block = refl

transf_block-next_hash : (h block : List ℕ) → transf_block h block ≡ next_hash h block
transf_block-next_hash h block =
    transf_block-rounds h block
    ∙ ap (added_to h) (
        rounds-all_rounds (first_working h) sha256_k
          (rev_onto (schedule 48 (first_words 16 block)) [])
        ∙ ap₂ (all_rounds (state_of (first_working h))) sha256_k-constants (message_words block))
    ∙ sym (next_hash-rounds h block)

-- Block by block, sha256_transf is the compression of FIPS 180-4.
pub sha256_transf-hash_blocks :
    (h message : List ℕ) (n : ℕ) → sha256_transf h message n ≡ hash_blocks h message n
unfolding sha256_transf hash_blocks
sha256_transf-hash_blocks h message zero = refl
sha256_transf-hash_blocks h message (suc n) =
    sha256_transf-hash_blocks (transf_block h (take 64 message)) (drop 64 message) n
    ∙ ap (λ k. hash_blocks k (drop 64 message) n) (transf_block-next_hash h (take 64 message))

pub unpack_words-hash_bytes : (ws : List ℕ) → unpack_words ws ≡ hash_bytes ws
unfolding unpack_words unpack32 hash_bytes
unpack_words-hash_bytes [] = refl
unpack_words-hash_bytes (w ∷ ws) =
    ap (λ bytes. w / 2 ^ 24 % 256 ∷ w / 2 ^ 16 % 256 ∷ w / 2 ^ 8 % 256 ∷ w % 256 ∷ bytes)
      (unpack_words-hash_bytes ws)
