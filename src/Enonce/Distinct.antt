-- ===== src/Enonce/Distinct.antt =====
-- Clients that follow each other have different extra nonces.
use mathlib.Core.Path.{subst}
use native.Mathlib.Nat.{
  mod-eq_of_lt, mod-eq-sub-mod, add-mod, div-add-mod, add-mul-mod_self_left, mul_assoc,
}
use ckpool.Common.{
  ℕ, zero, suc, ◌+◌, ◌-◌, ◌*◌, ◌/◌, ◌%◌, ◌^◌, ◌<◌, ◌≤◌, ◌≡◌, ◌≢◌, ◌⊎◌, inl, inr, refl, sym, ap, ◌∙◌,
  Bool, true, false, not, ◌&&◌, List, [], ◌∷◌, ◌++◌, none, some, if◌then◌else◌, length, drop-append,
  leb, ltb, ltb→lt, take, drop, u64, le_bytes, le_value, arith, Bool-cases, Option-cases,
}
use ckpool.Enonce.{Client, Source, Nonces, new_enonce1, next_enonce1, fill_enonce1data}

pow_pos : (w : ℕ) → 0 < 256 ^ w
pow_pos zero = omega arith
pow_pos (suc w) = omega (arith, pow_pos w)

pow_next : (w : ℕ) → 256 * 256 ^ w ≡ 256 ^ suc w
pow_next w = omega arith

mod_digit : (v m : ℕ) → 0 < m → v % 256 + 256 * (v / 256 % m) ≡ v % (256 * m)
mod_digit v m pos =
    let q = v / 256 / m in
    let r = v / 256 % m in
    let lt : r < m = omega (arith, pos) in
    let e : m * q + r ≡ v / 256 = div-add-mod (v / 256) m in
    let a : 256 * m * q ≡ 256 * (m * q) = mul_assoc 256 m q in
    let split : v ≡ v % 256 + 256 * r + 256 * m * q = omega (arith, e, a) in
    let small : v % 256 + 256 * r < 256 * m = omega (arith, lt) in
    sym (
      ap (λ x. x % (256 * m)) split
      ∙ add-mul-mod_self_left (v % 256 + 256 * r) (256 * m) q
      ∙ mod-eq_of_lt small)

take-le_bytes : (w n v : ℕ) → w ≤ n → le_value (take w (le_bytes n v)) ≡ v % 256 ^ w
unfolding le_bytes le_value
take-le_bytes zero n v le = omega arith
take-le_bytes (suc w) zero v le = absurd (omega (arith, le))
take-le_bytes (suc w) (suc n) v le =
    let r = take-le_bytes w n (v / 256) (omega (arith, le)) in
    ap (λ x. v % 256 + 256 * x) r ∙ mod_digit v (256 ^ w) (pow_pos w) ∙ ap (λ m. v % m) (pow_next w)

mod-apart : (a k m : ℕ) → 0 < k → k < m → (a + k) % m ≢ a % m
mod-apart a k m pos lt e =
    let r = a % m in
    let b : r < m = omega (arith, lt) in
    let s : (a + k) % m ≡ (r + k) % m = add-mod a k m ∙ ap (λ x. (r + x) % m) (mod-eq_of_lt lt) in
    elim (Bool-cases (ltb (r + k) m)) [
      | inl small ↦
          let t = mod-eq_of_lt {n = r + k} {m = m} (ltb→lt (r + k) m small) in
          omega (arith, s, t, e, pos)
      | inr big ↦
          let ge : m ≤ r + k = ground (arith, big) in
          let t : (r + k) % m ≡ r + k - m =
            mod-eq-sub-mod ge ∙ mod-eq_of_lt {n = r + k - m} {m = m} (omega (arith, b, lt, ge)) in
          omega (arith, s, t, e, lt, ge)
    ]

-- The counter behind a call, and the extra nonce where it succeeds.
pub record Drawn (s : Source) (r : Bool × Client × Source) : Type 0 where
  pub step : ℕ
  pub at_most_one : step ≤ 1
  pub counter : r.2.enonce1_64 ≡ u64 (s.enonce1_64 + step)
  pub nonces : r.2.current ≡ s.current
  pub drawn :
      (wb : Nonces)
      → s.current ≡ some wb
      → r.0 ≡ true
      → (step ≡ 1)
        × (r.1.enonce1bin
            ≡ wb.enonce1constbin ++ take wb.enonce1varlen (le_bytes 8 (u64 (s.enonce1_64 + 1))))

refused-Drawn :
    (s : Source) (r : Bool × Client × Source)
    → s.enonce1_64 < 2 ^ 64
    → r.0 ≡ false
    → r.2 ≡ s
    → Drawn s r
refused-Drawn s r small out same = record {
  step = 0;
  at_most_one = omega arith;
  counter = ap (λ x. x.enonce1_64) same ∙ omega (arith, small);
  nonces = ap (λ x. x.current) same;
  drawn = λ wb e granted. absurd (ground (arith, out, granted));
}

next-Drawn :
    (wb : Nonces) (c : Client) (s : Source) → s.current ≡ some wb → Drawn s (next_enonce1 wb c s)
unfolding next_enonce1 fill_enonce1data
next-Drawn wb c s current = record {
  step = 1;
  at_most_one = omega arith;
  counter = refl;
  nonces = refl;
  drawn = λ wb' e granted.
      let same : wb ≡ wb' = ap (λ o. elim o [ some x ↦ x | none ↦ wb ]) (sym current ∙ e) in
      (
        refl,
        ap (λ v. v.enonce1constbin ++ take v.enonce1varlen (le_bytes 8 (u64 (s.enonce1_64 + 1))))
            same,
      );
}

new_enonce1-cases :
    (c : Client) (s : Source)
    → (((new_enonce1 c s).0 ≡ false) × ((new_enonce1 c s).2 ≡ s))
      ⊎ ((wb : Nonces) × (s.current ≡ some wb)
          × ((c' : Client) × (new_enonce1 c s ≡ next_enonce1 wb c' s)))
unfolding new_enonce1
new_enonce1-cases c s = elim (Bool-cases (s.is_proxy && not s.has_proxy)) [
  | inl h ↦ inl (ground (arith, h), ground (arith, h))
  | inr h ↦ elim (Bool-cases (s.is_proxy && leb s.subproxy.max_clients s.subproxy.clients)) [
    | inl f ↦ inl (ground (arith, h, f), ground (arith, h, f))
    | inr f ↦ elim (Option-cases s.current) [
      | inl n ↦ inl (ground (arith, h, f, n), ground (arith, h, f, n))
      | inr (wb, k) ↦ inr (
        wb,
        k,
        (
          if s.is_proxy then record c { proxyid = some (s.subproxy.id, s.subproxy.subid) } else c,
          ground (arith, h, f, k),
        ),
      )
    ]
  ]
]

new_enonce1-Drawn : (c : Client) (s : Source) → s.enonce1_64 < 2 ^ 64 → Drawn s (new_enonce1 c s)
new_enonce1-Drawn c s small = elim (new_enonce1-cases c s) [
  | inl (out, same) ↦ refused-Drawn s (new_enonce1 c s) small out same
  | inr (wb, k, (c', e)) ↦ subst (λ r. Drawn s r) (sym e) (next-Drawn wb c' s k)
]

-- The source behind the clients that ask one after another.
unfoldable pub admit : List Client → Source → Source
admit [] s = s
admit (c ∷ cs) s = admit cs (new_enonce1 c s).2

admit-counter :
    (cs : List Client) (s : Source)
    → s.enonce1_64 + length cs < 2 ^ 64
    → (k : ℕ) × (k ≤ length cs)
      × (((admit cs s).enonce1_64 ≡ s.enonce1_64 + k) × ((admit cs s).current ≡ s.current))
unfolding admit
admit-counter [] s small = (0, omega arith, (omega arith, refl))
admit-counter (c ∷ cs) s small =
    let d = new_enonce1-Drawn c s (omega (arith, small)) in
    let s' = (new_enonce1 c s).2 in
    let one : s'.enonce1_64 ≡ s.enonce1_64 + d.step =
      d.counter ∙ omega (arith, small, d.at_most_one) in
    let (k, le, (e, same)) = admit-counter cs s' (omega (arith, one, small, d.at_most_one)) in
    (d.step + k, omega (arith, le, d.at_most_one), (omega (arith, e, one), same ∙ d.nonces))

append_inj : (xs ys zs : List ℕ) → xs ++ ys ≡ xs ++ zs → ys ≡ zs
append_inj xs ys zs e =
    sym (drop-append (length xs) xs ys refl)
    ∙ ap (λ l. drop (length xs) l) e
    ∙ drop-append (length xs) xs zs refl

-- Two clients that get an extra nonce under one workbase have different ones, where it has at most
-- 8 variable bytes, the requests from the first to the second are fewer than the values of these
-- bytes, and the 64-bit counter does not wrap between them.
pub new_enonce1-distinct :
    (c c' : Client) (cs : List Client) (s : Source) (wb : Nonces)
    → s.current ≡ some wb
    → wb.enonce1varlen ≤ 8
    → s.enonce1_64 + length cs + 2 < 2 ^ 64
    → length cs + 1 < 256 ^ wb.enonce1varlen
    → (new_enonce1 c s).0 ≡ true
    → (new_enonce1 c' (admit cs (new_enonce1 c s).2)).0 ≡ true
    → (new_enonce1 c s).1.enonce1bin ≢ (new_enonce1 c' (admit cs (new_enonce1 c s).2)).1.enonce1bin
new_enonce1-distinct c c' cs s wb current short small few got got' same =
    let w = wb.enonce1varlen in
    let n = s.enonce1_64 in
    let d = new_enonce1-Drawn c s (omega (arith, small)) in
    let s1 = (new_enonce1 c s).2 in
    let (one, first) = d.drawn wb current got in
    let n1 : s1.enonce1_64 ≡ n + 1 = d.counter ∙ ap (λ k. u64 (n + k)) one ∙ omega (arith, small) in
    let (k, le, (e, nonces)) = admit-counter cs s1 (omega (arith, n1, small)) in
    let s2 = admit cs s1 in
    let n2 : s2.enonce1_64 ≡ n + 1 + k = e ∙ omega (arith, n1) in
    let d2 = new_enonce1-Drawn c' s2 (omega (arith, n2, le, small)) in
    let (_, second) = d2.drawn wb (nonces ∙ d.nonces ∙ current) got' in
    let bytes = append_inj wb.enonce1constbin _ _ (sym first ∙ same ∙ second) in
    let values : u64 (n + 1) % 256 ^ w ≡ u64 (s2.enonce1_64 + 1) % 256 ^ w =
      sym (take-le_bytes w 8 (u64 (n + 1)) short)
      ∙ ap le_value bytes
      ∙ take-le_bytes w 8 (u64 (s2.enonce1_64 + 1)) short in
    let u1 : u64 (n + 1) ≡ n + 1 = omega (arith, small) in
    let u2 : u64 (s2.enonce1_64 + 1) ≡ n + 1 + (k + 1) = omega (arith, n2, le, small) in
    mod-apart (n + 1) (k + 1) (256 ^ w) (omega arith) (omega (arith, le, few))
      (sym (ap (λ x. x % 256 ^ w) u2) ∙ sym values ∙ ap (λ x. x % 256 ^ w) u1)
