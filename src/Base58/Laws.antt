-- ===== src/Base58/Laws.antt =====
-- The decoder against the number that a Base58 text stands for.
use ckpool.Common.{
  ℕ, zero, suc, ◌*◌, ◌+◌, ◌/◌, ◌%◌, ◌<◌, ◌≤◌, ◌^◌, ◌≡◌, refl, true, List, [], ◌∷◌, ◌==◌, length,
  replicate, IsBytes, be_value, arith, Option, none, some, ap, Option-cases, Bool-cases, sym, ◌∙◌,
  ◌⊎◌, index_of, inl, inr, length-replicate,
}
use native.Mathlib.Nat.{pow-suc}
use mathlib.Core.Path.{subst}
use ckpool.Base58.{b58_alphabet, mul_add, b58_step, b58_loop, bch_b58decode_strict}

-- The digits of a text in base 58, most significant first, read into a number.
pub b58_value : ℕ → List ℕ → Option ℕ
b58_value acc [] = some acc
b58_value acc (c ∷ cs) = elim (index_of c b58_alphabet) [
  | none ↦ none
  | some d ↦ b58_value (58 * acc + d) cs
]

-- A buffer of 25 bytes that holds v, big-endian.
pub record Holds (v : ℕ) (out : List ℕ) : Type 0 where
  pub size : length out ≡ 25
  pub bytes : IsBytes out
  pub value : be_value out ≡ v

be_value_lt : (xs : List ℕ) → IsBytes xs → be_value xs < 256 ^ length xs
unfolding be_value
be_value_lt [] h = omega arith
be_value_lt (x ∷ xs) h = grind (arith, be_value_lt xs h.1, pow-suc 256 (length xs), h.0)

length-mul_add : (xs : List ℕ) (c : ℕ) → length (mul_add xs c).out ≡ length xs
unfolding mul_add
length-mul_add [] c = refl
length-mul_add (x ∷ xs) c = ap suc (length-mul_add xs c)

mul_add-IsBytes : (xs : List ℕ) (c : ℕ) → IsBytes (mul_add xs c).out
unfolding mul_add
mul_add-IsBytes [] c = tt
mul_add-IsBytes (x ∷ xs) c = (omega arith, mul_add-IsBytes xs c)

be_value-mul_add :
    (xs : List ℕ) (c : ℕ)
    → be_value (mul_add xs c).out + 256 ^ length xs * (mul_add xs c).carry ≡ 58 * be_value xs + c
unfolding be_value mul_add
be_value-mul_add [] c = omega arith
be_value-mul_add (x ∷ xs) c =
    let t = (mul_add xs c).carry + 58 * x in
    omega (
      arith,
      be_value-mul_add xs c,
      ap (λ (n : ℕ). n * 256 ^ length xs) (div_mod t),
      ap (λ (n : ℕ). n * (t / 256)) (pow-suc 256 (length xs)),
      length-mul_add xs c,
      ap (λ (n : ℕ). t % 256 * 256 ^ n) (length-mul_add xs c),
    )
  where
    div_mod : (n : ℕ) → n ≡ 256 * (n / 256) + n % 256
    div_mod n = omega arith

-- One character: the number becomes 58 times itself plus the digit, or it no longer fits.
b58_step-Holds :
    (v c d : ℕ) (out : List ℕ)
    → Holds v out
    → index_of c b58_alphabet ≡ some d
    → ((58 * v + d < 256 ^ 25)
        × ((out' : List ℕ) × (b58_step out c ≡ some out') × Holds (58 * v + d) out'))
      ⊎ ((256 ^ 25 ≤ 58 * v + d) × (b58_step out c ≡ none))
unfolding b58_step
b58_step-Holds v c d out h e = elim (Bool-cases ((mul_add out d).carry == 0)) [
  | inl fits ↦ inl (ground (arith, value, small), ((mul_add out d).out, ground arith, holds fits))
  | inr over ↦ inr (ground (arith, value, small), ground arith)
]
  where
    size : length (mul_add out d).out ≡ 25
    size = length-mul_add out d ∙ h.size

    value : be_value (mul_add out d).out + 256 ^ 25 * (mul_add out d).carry ≡ 58 * v + d
    value =
        subst (λ n. be_value (mul_add out d).out + 256 ^ n * (mul_add out d).carry ≡ 58 * v + d)
          h.size (rw (← h.value) (be_value-mul_add out d))

    small : be_value (mul_add out d).out < 256 ^ 25
    small =
        subst (λ n. be_value (mul_add out d).out < 256 ^ n) size
          (be_value_lt _ (mul_add-IsBytes out d))

    holds : (((mul_add out d).carry == 0) ≡ true) → Holds (58 * v + d) (mul_add out d).out
    holds z = record { size = size; bytes = mul_add-IsBytes out d; value = ground (arith, value) }

b58_value-suc :
    (v c d : ℕ) (cs : List ℕ)
    → index_of c b58_alphabet ≡ some d
    → b58_value v (c ∷ cs) ≡ b58_value (58 * v + d) cs
unfolding b58_value
b58_value-suc v c d cs e = ground arith

b58_value-bad :
    (v c : ℕ) (cs : List ℕ) → index_of c b58_alphabet ≡ none → b58_value v (c ∷ cs) ≡ none
unfolding b58_value
b58_value-bad v c cs e = ground arith

b58_loop-suc :
    (c : ℕ) (cs out out' : List ℕ)
    → b58_step out c ≡ some out'
    → b58_loop out (c ∷ cs) ≡ b58_loop out' cs
unfolding b58_loop
b58_loop-suc c cs out out' e = ground arith

b58_loop-none : (c : ℕ) (cs out : List ℕ) → b58_step out c ≡ none → b58_loop out (c ∷ cs) ≡ none
unfolding b58_loop
b58_loop-none c cs out e = ground arith

b58_step-bad : (c : ℕ) (out : List ℕ) → index_of c b58_alphabet ≡ none → b58_step out c ≡ none
unfolding b58_step
b58_step-bad c out e = ground arith

-- The number only grows along the text.
b58_value_le : (v w : ℕ) (s : List ℕ) → b58_value v s ≡ some w → v ≤ w
unfolding b58_value
b58_value_le v w [] h = ground arith
b58_value_le v w (c ∷ cs) h = elim (Option-cases (index_of c b58_alphabet)) [
  | inl e ↦ cc (b58_value-bad v c cs e)
  | inr (d, e) ↦ omega (arith, b58_value_le (58 * v + d) w cs (sym (b58_value-suc v c d cs e) ∙ h))
]

-- What the loop returns for a text that stands for w, started from a buffer that holds v.
abbrev Outcome : Option ℕ → Option (List ℕ) → Type 0
Outcome none r = r ≡ none
Outcome (some w) r =
    ((w < 256 ^ 25) × ((out : List ℕ) × (r ≡ some out) × Holds w out))
    ⊎ ((256 ^ 25 ≤ w) × (r ≡ none))

Outcome-too_big : (v : ℕ) (s : List ℕ) → 256 ^ 25 ≤ v → Outcome (b58_value v s) none
Outcome-too_big v s h = elim (Option-cases (b58_value v s)) [
  | inl e ↦ rw e refl
  | inr (w, e) ↦ rw e (inr (omega (arith, b58_value_le v w s e), refl))
]

b58_loop-Outcome : (v : ℕ) (s out : List ℕ) → Holds v out → Outcome (b58_value v s) (b58_loop out s)
b58_loop-Outcome v [] out h =
    unfold b58_loop b58_value in
    inl (
      subst (λ n. n < 256 ^ 25) h.value
          (subst (λ n. be_value out < 256 ^ n) h.size (be_value_lt out h.bytes)),
      (out, refl, h),
    )
b58_loop-Outcome v (c ∷ cs) out h = elim (Option-cases (index_of c b58_alphabet)) [
  | inl bad ↦ rw (b58_value-bad v c cs bad, b58_loop-none c cs out (b58_step-bad c out bad)) refl
  | inr (d, good) ↦ elim (b58_step-Holds v c d out h good) [
    | inl (small, (out', step, h')) ↦
        rw (b58_value-suc v c d cs good, b58_loop-suc c cs out out' step)
          (b58_loop-Outcome (58 * v + d) cs out' h')
    | inr (big, step) ↦
        rw (b58_value-suc v c d cs good, b58_loop-none c cs out step)
          (Outcome-too_big (58 * v + d) cs big)
  ]
]

zeros-Holds : Holds 0 (replicate 25 0)
unfolding be_value
zeros-Holds = record { size = refl; bytes = omega arith; value = refl }

-- On a text of 1 to 100 characters the decoder succeeds exactly when every character is in the
-- alphabet and the number that the text stands for in base 58 is below 256 ^ 25. It then fills
-- the buffer with that number, in 25 big-endian bytes.
pub bch_b58decode_strict-Holds :
    (s : List ℕ)
    → 0 < length s
    → length s ≤ 100
    → ((b58_value 0 s ≡ none) × (bch_b58decode_strict s ≡ none))
      ⊎ ((w : ℕ) × (b58_value 0 s ≡ some w)
          × (((w < 256 ^ 25) × ((out : List ℕ) × (bch_b58decode_strict s ≡ some out) × Holds w out))
              ⊎ ((256 ^ 25 ≤ w) × (bch_b58decode_strict s ≡ none))))
bch_b58decode_strict-Holds s pos short = elim (Option-cases (b58_value 0 s)) [
  | inl e ↦ inl (e, enters ∙ (rw e at run))
  | inr (w, e) ↦ inr (w, e, rw enters (rw e at run))
]
  where
    enters : bch_b58decode_strict s ≡ b58_loop (replicate 25 0) s
    enters = unfold bch_b58decode_strict in ground arith

    run : Outcome (b58_value 0 s) (b58_loop (replicate 25 0) s)
    run = b58_loop-Outcome 0 s (replicate 25 0) zeros-Holds

length-b58_step :
    (out out' : List ℕ) (c : ℕ) → b58_step out c ≡ some out' → length out' ≡ length out
unfolding b58_step
length-b58_step out out' c e = elim (Option-cases (index_of c b58_alphabet)) [
  | inl bad ↦ ground (arith, bad)
  | inr (d, good) ↦ ground (arith, length-mul_add out d)
]

length-b58_loop : (s out out' : List ℕ) → b58_loop out s ≡ some out' → length out' ≡ length out
length-b58_loop [] out out' e = unfold b58_loop in ground arith
length-b58_loop (c ∷ cs) out out' e = elim (Option-cases (b58_step out c)) [
  | inl bad ↦ absurd (cc (b58_loop-none c cs out bad))
  | inr (mid, good) ↦
      length-b58_loop cs mid out' (sym (b58_loop-suc c cs out mid good) ∙ e)
      ∙ length-b58_step out mid c good
]

pub length-bch_b58decode_strict :
    (s out : List ℕ) → bch_b58decode_strict s ≡ some out → length out ≡ 25
unfolding bch_b58decode_strict
length-bch_b58decode_strict s out e =
    length-b58_loop s (replicate 25 0) out (inner e) ∙ length-replicate {0} {A = ℕ} 25 0
  where
    inner : bch_b58decode_strict s ≡ some out → b58_loop (replicate 25 0) s ≡ some out
    inner h = ground arith

mul_add-zeros : (n : ℕ) → mul_add (replicate n 0) 0 ≡ record { out = replicate n 0; carry = 0 }
unfolding mul_add
mul_add-zeros zero = refl
mul_add-zeros (suc n) = rw (mul_add-zeros n) refl

-- A further "1" in front of any text of 1 to 99 characters changes nothing in what it decodes to.
pub bch_b58decode_strict-leading_one :
    (s : List ℕ)
    → 0 < length s
    → length s < 100
    → bch_b58decode_strict (b'1' ∷ s) ≡ bch_b58decode_strict s
bch_b58decode_strict-leading_one s pos short =
    enters (b'1' ∷ s) (omega arith) (omega arith)
    ∙ b58_loop-suc b'1' s (replicate 25 0) (replicate 25 0) first
    ∙ sym (enters s pos (omega arith))
  where
    enters :
        (t : List ℕ)
        → 0 < length t
        → length t ≤ 100
        → bch_b58decode_strict t ≡ b58_loop (replicate 25 0) t
    enters t p q = unfold bch_b58decode_strict in ground arith

    first : b58_step (replicate 25 0) b'1' ≡ some (replicate 25 0)
    first = unfold b58_step mul_add index_of in refl
