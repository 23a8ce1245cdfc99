-- ===== src/CashAddr/Bits.antt =====
-- Regrouping five-bit values into bytes, against the number that both stand for.
use ckpool.Common.{
  ℕ, zero, suc, ◌*◌, ◌+◌, ◌%◌, ◌<◌, ◌^◌, ◌≡◌, refl, true, List, [], ◌∷◌, ◌++◌, if◌then◌else◌,
  length, IsBytes, be_value, arith, All, ◌↔◌, ◌∙◌, sym, none, some, ap, Option-cases, Bool-cases,
  inl, inr, All-append, length-append, ap₂,
}
use native.Mathlib.Nat.{pow-suc, mod-lt, one-le-pow, zero-add}
use native.Mathlib.Decide.{dec_lt}
use ckpool.CashAddr.{Regroup, drain, feed, regroup, padding_ok, convert_bits_5to8}

-- Five-bit values, most significant first, as one number.
pub value32 : ℕ → List ℕ → ℕ
value32 acc [] = acc
value32 acc (v ∷ vs) = value32 (acc * 32 + v) vs

be_value-snoc : (b : ℕ) (bs : List ℕ) → be_value (bs ++ b ∷ []) ≡ be_value bs * 256 + b
unfolding be_value
be_value-snoc b [] = omega arith
be_value-snoc b (x ∷ bs) = omega (
  arith,
  be_value-snoc b bs,
  ap (λ n. x * 256 ^ n) (length-append bs (b ∷ [])),
  ap (λ n. x * n) (pow-suc 256 (length bs)),
  ap (λ n. x * 256 ^ n) (let e : length bs + 1 ≡ suc (length bs) = omega arith in e),
)

-- After some values that stand for n, the bytes written and the pending bits stand for n too.
record Keeps (n count : ℕ) (r : Regroup) : Type 0 where
  few : r.bits < 8
  bytes : IsBytes r.out
  counted : 8 * length r.out + r.bits ≡ 5 * count
  value : be_value r.out * 2 ^ r.bits + r.acc % 2 ^ r.bits ≡ n

-- One value with `bits` pending ones, for each number of bits that can be pending.
abbrev state : ℕ → ℕ → List ℕ → Regroup
state acc bits out = record { acc = acc; bits = bits; out = out }

snoc-Keeps :
    (n count acc bits byte : ℕ) (out : List ℕ)
    → IsBytes out
    → bits < 8
    → byte < 256
    → 8 * length out + 8 + bits ≡ 5 * count
    → (be_value out * 256 + byte) * 2 ^ bits + acc % 2 ^ bits ≡ n
    → Keeps n count (state acc bits (out ++ byte ∷ []))
snoc-Keeps n count acc bits byte out ob few small counted value = record {
  few = few;
  bytes = All-append _ out (byte ∷ []) ob (small, tt);
  counted = omega (arith, length-append out (byte ∷ []));
  value = rw (be_value-snoc byte out) value;
}

feed-Keeps :
    (n count acc bits v : ℕ) (out : List ℕ)
    → v < 32
    → Keeps n count (state acc bits out)
    → Keeps (n * 32 + v) (suc count) (feed (state acc bits out) v)
unfolding feed drain
feed-Keeps n count acc zero v out h k = record {
  few = omega arith;
  bytes = k.bytes;
  counted = omega arith;
  value = omega arith;
}
feed-Keeps n count acc (suc zero) v out h k = record {
  few = omega arith;
  bytes = k.bytes;
  counted = omega arith;
  value = omega arith;
}
feed-Keeps n count acc (suc (suc zero)) v out h k = record {
  few = omega arith;
  bytes = k.bytes;
  counted = omega arith;
  value = omega arith;
}
feed-Keeps n count acc (suc (suc (suc zero))) v out h k =
    snoc-Keeps _ _ _ _ _ out k.bytes (omega arith) (omega arith) (omega arith) (omega arith)
feed-Keeps n count acc (suc (suc (suc (suc zero)))) v out h k =
    snoc-Keeps _ _ _ _ _ out k.bytes (omega arith) (omega arith) (omega arith) (omega arith)
feed-Keeps n count acc (suc (suc (suc (suc (suc zero))))) v out h k =
    snoc-Keeps _ _ _ _ _ out k.bytes (omega arith) (omega arith) (omega arith) (omega arith)
feed-Keeps n count acc (suc (suc (suc (suc (suc (suc zero)))))) v out h k =
    snoc-Keeps _ _ _ _ _ out k.bytes (omega arith) (omega arith) (omega arith) (omega arith)
feed-Keeps n count acc (suc (suc (suc (suc (suc (suc (suc zero))))))) v out h k =
    snoc-Keeps _ _ _ _ _ out k.bytes (omega arith) (omega arith) (omega arith) (omega arith)
feed-Keeps n count acc (suc (suc (suc (suc (suc (suc (suc (suc b)))))))) v out h k =
    absurd (omega arith)

-- All values in range, and so the loop runs to its end.
abbrev pub IsFiveBit : List ℕ → Type 0
IsFiveBit = All λ v. v < 32

regroup-Keeps :
    (n count : ℕ) (r : Regroup) (vs : List ℕ)
    → IsFiveBit vs
    → Keeps n count r
    → (r' : Regroup) × (regroup r vs ≡ some r') × Keeps (value32 n vs) (count + length vs) r'
unfolding regroup value32
regroup-Keeps n count r [] h k = (r, refl, let e : count ≡ count + 0 = omega arith in rw (← e) k)
regroup-Keeps n count r (v ∷ vs) h k =
    let (r', e, k') =
      regroup-Keeps (n * 32 + v) (suc count) (feed r v) vs h.1
        (feed-Keeps n count r.acc r.bits v r.out h.0 k) in
    (
      r',
      ground arith,
      let e' : suc count + length vs ≡ count + suc (length vs) = omega arith in rw (← e') k',
    )

regroup→IsFiveBit : (r r' : Regroup) (vs : List ℕ) → regroup r vs ≡ some r' → IsFiveBit vs
unfolding regroup
regroup→IsFiveBit r r' [] e = tt
regroup→IsFiveBit r r' (v ∷ vs) e = ground (arith, regroup→IsFiveBit (feed r v) r' vs)

-- The final check: fewer than five bits are left over, and all of them are zero.
padding_ok_iff :
    (acc bits : ℕ) (out : List ℕ)
    → bits < 8
    → (padding_ok (state acc bits out) ≡ true) ↔ ((bits < 5) × (acc % 2 ^ bits ≡ 0))
unfolding padding_ok
padding_ok_iff acc zero out h = ground arith
padding_ok_iff acc (suc zero) out h = ground arith
padding_ok_iff acc (suc (suc zero)) out h = ground arith
padding_ok_iff acc (suc (suc (suc zero))) out h = ground arith
padding_ok_iff acc (suc (suc (suc (suc zero)))) out h = ground arith
padding_ok_iff acc (suc (suc (suc (suc (suc zero))))) out h = ground arith
padding_ok_iff acc (suc (suc (suc (suc (suc (suc zero)))))) out h = ground arith
padding_ok_iff acc (suc (suc (suc (suc (suc (suc (suc zero))))))) out h = ground arith
padding_ok_iff acc (suc (suc (suc (suc (suc (suc (suc (suc b)))))))) out h = absurd (omega arith)

be_value_lt : (xs : List ℕ) → IsBytes xs → be_value xs < 256 ^ length xs
unfolding be_value
be_value_lt [] h = omega arith
be_value_lt (x ∷ xs) h = grind (arith, be_value_lt xs h.1, pow-suc 256 (length xs), h.0)

digit_unique : (p x y v w : ℕ) → v < p → w < p → x * p + v ≡ y * p + w → (x ≡ y) × (v ≡ w)
digit_unique p x y v w hv hw e = elim (dec_lt x y) [
  | yes lt ↦ absurd (grind arith)
  | no ge ↦ elim (dec_lt y x) [
    | yes lt ↦ absurd (grind arith)
    | no ge' ↦ let same : x ≡ y = omega arith in (same, omega (arith, ap (λ n. n * p) same))
  ]
]

-- Bytes are determined by their number and their value.
be_value_injective :
    (xs ys : List ℕ)
    → IsBytes xs
    → IsBytes ys
    → length xs ≡ length ys
    → be_value xs ≡ be_value ys
    → xs ≡ ys
unfolding be_value
be_value_injective [] [] hx hy l e = refl
be_value_injective [] (y ∷ ys) hx hy l e = absurd (omega arith)
be_value_injective (x ∷ xs) [] hx hy l e = absurd (omega arith)
be_value_injective (x ∷ xs) (y ∷ ys) hx hy l e =
    let l' : length xs ≡ length ys = omega arith in
    let d =
      digit_unique (256 ^ length xs) x y (be_value xs) (be_value ys) (be_value_lt xs hx.1)
        (rw l' (be_value_lt ys hy.1)) (omega (arith, ap (λ n. y * 256 ^ n) l')) in
    ap₂ ◌∷◌ d.0 (be_value_injective xs ys hx.1 hy.1 l' d.1)

-- What it means that bytes are the five-bit values regrouped: the same bits, and fewer than five
-- more of them, all zero.
pub record Regrouped (vs out : List ℕ) : Type 0 where
  pub five_bit : IsFiveBit vs
  pub bytes : IsBytes out
  pub pad : ℕ
  pub pad_few : pad < 5
  pub same_length : 8 * length out + pad ≡ 5 * length vs
  pub same_value : be_value out * 2 ^ pad ≡ value32 0 vs

abbrev start : Regroup
start = state 0 0 []

start-Keeps : Keeps 0 0 start
unfolding be_value
start-Keeps = record { few = omega arith; bytes = tt; counted = omega arith; value = omega arith }

convert-ok :
    (vs : List ℕ) (r : Regroup)
    → regroup start vs ≡ some r
    → convert_bits_5to8 vs ≡ (if padding_ok r then some r.out else none)
unfolding convert_bits_5to8
convert-ok vs r e = ground arith

convert-none : (vs : List ℕ) → regroup start vs ≡ none → convert_bits_5to8 vs ≡ none
unfolding convert_bits_5to8
convert-none vs e = ground arith

regroup_total :
    (vs : List ℕ)
    → IsFiveBit vs
    → (r : Regroup) × (regroup start vs ≡ some r) × Keeps (value32 0 vs) (length vs) r
regroup_total vs five =
    let run = regroup-Keeps 0 0 start vs five start-Keeps in (run.0, run.1, rw zero-add at run.2)

finish→Regrouped :
    (vs out : List ℕ) (r : Regroup)
    → IsFiveBit vs
    → Keeps (value32 0 vs) (length vs) r
    → (if padding_ok r then some r.out else none) ≡ some out
    → Regrouped vs out
finish→Regrouped vs out r five k e = elim (Bool-cases (padding_ok r)) [
  | inr bad ↦ absurd (ground (arith, bad))
  | inl good ↦
      let p = (padding_ok_iff r.acc r.bits r.out k.few).0 good in
      let same : r.out ≡ out = ground (arith, good) in
      rw (← same) (record {
        five_bit = five;
        bytes = k.bytes;
        pad = r.bits;
        pad_few = p.0;
        same_length = k.counted;
        same_value = omega (arith, k.value, p.1);
      })
]

Regrouped→finish :
    (vs out : List ℕ) (r : Regroup)
    → Regrouped vs out
    → Keeps (value32 0 vs) (length vs) r
    → (if padding_ok r then some r.out else none) ≡ some out
Regrouped→finish vs out r g k =
    let bits : r.bits ≡ g.pad = omega (arith, k.counted, k.few, g.same_length, g.pad_few) in
    let size : length r.out ≡ length out = omega (arith, k.counted, g.same_length, bits) in
    let pos : 0 < 2 ^ r.bits = one-le-pow r.bits 2 (omega arith) in
    let same : value32 0 vs ≡ be_value out * 2 ^ r.bits + 0 =
      rw bits (omega (arith, g.same_value)) in
    let d =
      digit_unique (2 ^ r.bits) (be_value r.out) (be_value out) (r.acc % 2 ^ r.bits) 0
        (mod-lt r.acc pos) pos (k.value ∙ same) in
    let ok = (padding_ok_iff r.acc r.bits r.out k.few).1 (omega (arith, bits, g.pad_few), d.1) in
    rw ok (ap some (be_value_injective r.out out k.bytes g.bytes size d.0))

-- convert_bits_5to8 is exactly the regrouping of five-bit values into bytes: it returns these
-- bytes just when the values are in range, the bits are the same, and at most four zero bits are
-- left over.
pub convert_bits_5to8_iff :
    (vs out : List ℕ)
    → ((convert_bits_5to8 vs ≡ some out) → Regrouped vs out)
      × (Regrouped vs out → (convert_bits_5to8 vs ≡ some out))
convert_bits_5to8_iff vs out = (forth, back)
  where
    forth : convert_bits_5to8 vs ≡ some out → Regrouped vs out
    forth e = elim (Option-cases (regroup start vs)) [
      | inl bad ↦ absurd (cc (convert-none vs bad))
      | inr (r, good) ↦
          let five = regroup→IsFiveBit start r vs good in
          let run = regroup_total vs five in
          finish→Regrouped vs out run.0 five run.2 (sym (convert-ok vs run.0 run.1) ∙ e)
    ]

    back : Regrouped vs out → convert_bits_5to8 vs ≡ some out
    back g =
        let run = regroup_total vs g.five_bit in
        convert-ok vs run.0 run.1 ∙ Regrouped→finish vs out run.0 g run.2
