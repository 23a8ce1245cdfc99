-- ===== src/Connector/Frames.antt =====
-- The lines of a stream of bytes, apart from how it is cut into reads.
use ckpool.Common.{
  ℕ, suc, ◌<◌, ◌≤◌, ◌≡◌, inl, inr, refl, sym, ap, ◌∙◌, List, [], ◌∷◌, ◌++◌, none, some, ◌==◌,
  if◌then◌else◌, length, take, drop, arith, Bool-cases, Option-cases, All, length-append, some_inj,
}
use mathlib.Core.Path.{subst}
use mathlib.Core.List.{append_assoc, append-nil}
use ckpool.Connector.{memchr, text}

-- The lines, each with its end, behind a part of the first one, and what is left of the last one.
unfoldable pub frames : List ℕ → List ℕ → List (List ℕ) × List ℕ
frames p [] = ([], p)
frames p (b ∷ bs) =
    let done = frames [] bs in
    let more = frames (p ++ (b ∷ [])) bs in
    if b == 10 then ((p ++ (10 ∷ [])) ∷ done.0, done.1) else more

unfoldable pub joined : List (List ℕ) → List ℕ
joined [] = []
joined (r ∷ rs) = r ++ joined rs

pub frames-append :
    (p xs ys : List ℕ)
    → frames p (xs ++ ys)
      ≡ ((frames p xs).0 ++ (frames (frames p xs).1 ys).0, (frames (frames p xs).1 ys).1)
unfolding frames
frames-append p [] ys = refl
frames-append p (b ∷ xs) ys = elim (Bool-cases (b == 10)) [
  | inl e ↦ let r = frames-append [] xs ys in ground (arith, e, r)
  | inr e ↦ let r = frames-append (p ++ (b ∷ [])) xs ys in ground (arith, e, r)
]

pub frames-none : (p bs : List ℕ) → memchr 10 bs ≡ none → frames p bs ≡ ([], p ++ bs)
unfolding frames memchr
frames-none p [] h = ap (λ q. ([], q)) (sym (append-nil p))
frames-none p (b ∷ bs) h = elim (Bool-cases (b == 10)) [
  | inl e ↦ ground (arith, e, h)
  | inr e ↦ elim (Option-cases (memchr 10 bs)) [
    | inl n ↦
        let r = frames-none (p ++ (b ∷ [])) bs n in
        let a = append_assoc p (b ∷ []) bs in ground (arith, e, r, a)
    | inr (k, s) ↦ ground (arith, e, s, h)
  ]
]

-- A line that ends at i, and what the bytes behind it come to.
abbrev pub first_line : List ℕ → List ℕ → ℕ → List (List ℕ) × List ℕ
first_line p bs i =
    ((p ++ take (suc i) bs) ∷ (frames [] (drop (suc i) bs)).0, (frames [] (drop (suc i) bs)).1)

pub frames-some : (p bs : List ℕ) (i : ℕ) → memchr 10 bs ≡ some i → frames p bs ≡ first_line p bs i
unfolding frames memchr
frames-some p [] i h = ground (arith, h)
frames-some p (b ∷ bs) i h = elim (Bool-cases (b == 10)) [
  | inl e ↦
      let z : 0 ≡ i = some_inj (ground (arith, e, h)) in
      subst (λ j. frames p (b ∷ bs) ≡ first_line p (b ∷ bs) j) z (ground (arith, e))
  | inr e ↦ elim (Option-cases (memchr 10 bs)) [
    | inl n ↦ ground (arith, e, n, h)
    | inr (k, s) ↦
        let z : suc k ≡ i = some_inj (ground (arith, e, s, h)) in
        let r = frames-some (p ++ (b ∷ [])) bs k s in
        let q = append_assoc p (b ∷ []) (take (suc k) bs) in
        subst (λ j. frames p (b ∷ bs) ≡ first_line p (b ∷ bs) j) z (ground (arith, e, r, q))
  ]
]

-- A part of a line is no longer than the line.
pub frames_front :
    (n : ℕ) (p ys : List ℕ)
    → All (λ l. length l ≤ n) (frames p ys).0
    → length (frames p ys).1 ≤ n
    → length p ≤ n
unfolding frames
frames_front n p [] a h = h
frames_front n p (b ∷ bs) a h = elim (Bool-cases (b == 10)) [
  | inl e ↦
      let q : frames p (b ∷ bs) ≡ ((p ++ (10 ∷ [])) ∷ (frames [] bs).0, (frames [] bs).1) =
        ground (arith, e) in
      let k = subst (λ (z : List (List ℕ) × List ℕ). All (λ l. length l ≤ n) z.0) q a in
      let l = k.0 in let j = length-append p (10 ∷ []) in omega (arith, l, j)
  | inr e ↦
      let q : frames p (b ∷ bs) ≡ frames (p ++ (b ∷ [])) bs = ground (arith, e) in
      let k = subst (λ (z : List (List ℕ) × List ℕ). All (λ l. length l ≤ n) z.0) q a in
      let m = subst (λ (z : List (List ℕ) × List ℕ). length z.1 ≤ n) q h in
      let r = frames_front n (p ++ (b ∷ [])) bs k m in
      let j = length-append p (b ∷ []) in omega (arith, r, j)
]

-- A line without the byte that ends a string is the front of the string.
pub text-front :
    (l y t : List ℕ) → All (λ b. 0 < b) l → text (l ++ y) ≡ some t → (u : List ℕ) × (t ≡ l ++ u)
unfolding text
text-front [] y t a h = (t, refl)
text-front (b ∷ l) y t a h =
    let pos = a.0 in
    elim (Option-cases (text (l ++ y))) [
      | inl n ↦ ground (arith, n, pos, h)
      | inr (t', s) ↦
          let (u, e) = text-front l y t' a.1 s in
          let k : b ∷ t' ≡ t = some_inj (ground (arith, s, pos, h)) in (u, sym k ∙ ap (◌∷◌ b) e)
    ]
