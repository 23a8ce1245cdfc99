-- ===== src/Target/Laws.antt =====
-- The loop against the order of the numbers that the buffers stand for.
use ckpool.Common.{
  ℕ, zero, suc, ◌*◌, ◌+◌, ◌<◌, ◌≤◌, ◌^◌, ◌≡◌, true, false, List, [], ◌∷◌, ◌++◌, ltb, leb,
  if◌then◌else◌, take, drop, length, IsBytes, le_value, arith, take_add, length-take, take-all, ap,
  ◌∙◌,
}
use native.Mathlib.Nat.{pow-suc}
use ckpool.Target.{word32, fulltest_loop, fulltest}

le_value-append :
    (xs ys : List ℕ) → le_value (xs ++ ys) ≡ le_value xs + 256 ^ length xs * le_value ys
unfolding le_value
le_value-append [] ys = omega arith
le_value-append (x ∷ xs) ys =
    omega (arith, le_value-append xs ys, ap (λ (t : ℕ). t * le_value ys) (pow-suc 256 (length xs)))

le_value_lt : (xs : List ℕ) → IsBytes xs → le_value xs < 256 ^ length xs
unfolding le_value
le_value_lt [] h = omega arith
le_value_lt (x ∷ xs) h = omega (arith, le_value_lt xs h.1, pow-suc 256 (length xs), h.0)

lt-mul_gap : (p x y : ℕ) → x < y → p * x + p ≤ p * y
lt-mul_gap p x y h = grind arith

-- Numbers with a common low part below p compare by their high parts first.
leb_lex :
    (p a b x y : ℕ)
    → a < p
    → b < p
    → leb (a + p * x) (b + p * y) ≡ (if ltb y x then false else if ltb x y then true else leb a b)
leb_lex p a b x y ha hb = ground (arith, lt-mul_gap p x y, lt-mul_gap p y x)

take-IsBytes : (n : ℕ) (xs : List ℕ) → IsBytes xs → IsBytes (take n xs)
take-IsBytes zero xs h = tt
take-IsBytes (suc n) [] h = tt
take-IsBytes (suc n) (x ∷ xs) h = (h.0, take-IsBytes n xs h.1)

-- The value of the lowest i + 1 words splits at the top one.
le_value-words :
    (i : ℕ) (buf : List ℕ)
    → 4 * i ≤ length buf
    → le_value (take (4 * suc i) buf) ≡ le_value (take (4 * i) buf) + 256 ^ (4 * i) * word32 buf i
unfolding word32
le_value-words i buf h =
    let e : 4 * suc i ≡ 4 * i + 4 = omega arith in
    let l : length (take (4 * i) buf) ≡ 4 * i = omega (arith, length-take (4 * i) buf) in
    rw
      (e, take_add (4 * i) 4 buf, le_value-append (take (4 * i) buf) (take 4 (drop (4 * i) buf)), l)

fulltest_loop-leb :
    (i : ℕ) (hash target : List ℕ)
    → IsBytes hash
    → IsBytes target
    → 4 * i ≤ length hash
    → 4 * i ≤ length target
    → fulltest_loop i hash target
      ≡ leb (le_value (take (4 * i) hash)) (le_value (take (4 * i) target))
unfolding fulltest_loop le_value
fulltest_loop-leb zero hash target hb tb hl tl = ground arith
fulltest_loop-leb (suc i) hash target hb tb hl tl =
    let h_low = le_value_lt (take (4 * i) hash) (take-IsBytes (4 * i) hash hb) in
    let t_low = le_value_lt (take (4 * i) target) (take-IsBytes (4 * i) target tb) in
    let h_len : length (take (4 * i) hash) ≡ 4 * i = omega (arith, length-take (4 * i) hash) in
    let t_len : length (take (4 * i) target) ≡ 4 * i = omega (arith, length-take (4 * i) target) in
    rw (
      le_value-words i hash (omega arith),
      le_value-words i target (omega arith),
      leb_lex (256 ^ (4 * i)) _ _ (word32 hash i) (word32 target i) (rw h_len at h_low)
          (rw t_len at t_low),
      fulltest_loop-leb i hash target hb tb (omega arith) (omega arith),
    )

-- On two 32-byte buffers fulltest decides the order of the 256-bit little-endian numbers in
-- them: it is true exactly when the hash is at most the target.
pub fulltest-leb :
    (hash target : List ℕ)
    → IsBytes hash
    → IsBytes target
    → length hash ≡ 32
    → length target ≡ 32
    → fulltest hash target ≡ leb (le_value hash) (le_value target)
unfolding fulltest
fulltest-leb hash target hb tb hl tl =
    let all : (xs : List ℕ) → length xs ≡ 32 → take (4 * 8) xs ≡ xs = λ xs h. take-all 32 xs h in
    fulltest_loop-leb 8 hash target hb tb (omega arith) (omega arith)
    ∙ rw (all hash hl, all target tl)
