-- ===== src/Block/Fields.antt =====
-- The header of a share by its fields.
use mathlib.Core.List.{append_assoc, append-nil}
use ckpool.Common.{
  ℕ, zero, suc, ◌+◌, ◌*◌, ◌/◌, ◌^◌, ◌≡◌, refl, sym, ap, ap₂, ◌∙◌, List, [], ◌∷◌, ◌++◌, ◌==◌,
  if◌then◌else◌, length, length-append, take, take-append, le_bytes, arith, Bool-cases, inl, inr,
}
use ckpool.Sha256.{memcpy_at, unpack32}
use ckpool.Sha256.Digest.{memcpy_mid'}
use ckpool.Block.{Share, flip, decoded, or_bytes, with_version, filled_header}

pub length-flip : (n : ℕ) (xs : List ℕ) → length xs ≡ 4 * n → length (flip n xs) ≡ 4 * n
unfolding flip
length-flip zero xs h = omega arith
length-flip (suc n) [] h = omega (arith, h)
length-flip (suc n) (a ∷ []) h = omega (arith, h)
length-flip (suc n) (a ∷ b ∷ []) h = omega (arith, h)
length-flip (suc n) (a ∷ b ∷ c ∷ []) h = omega (arith, h)
length-flip (suc n) (a ∷ b ∷ c ∷ d ∷ xs) h =
    let r = length-flip n xs (omega (arith, h)) in omega (arith, r)

pub flip-append :
    (m n : ℕ) (xs ys : List ℕ)
    → length xs ≡ 4 * m
    → flip (m + n) (xs ++ ys) ≡ flip m xs ++ flip n ys
unfolding flip
flip-append zero n [] ys h = let e : 0 + n ≡ n = omega arith in ap (λ k. flip k ys) e
flip-append zero n (a ∷ xs) ys h = absurd (omega (arith, h))
flip-append (suc m) n [] ys h = absurd (omega (arith, h))
flip-append (suc m) n (a ∷ []) ys h = absurd (omega (arith, h))
flip-append (suc m) n (a ∷ b ∷ []) ys h = absurd (omega (arith, h))
flip-append (suc m) n (a ∷ b ∷ c ∷ []) ys h = absurd (omega (arith, h))
flip-append (suc m) n (a ∷ b ∷ c ∷ d ∷ xs) ys h =
    let e : suc m + n ≡ suc (m + n) = omega arith in
    ap (λ k. flip k (a ∷ b ∷ c ∷ d ∷ (xs ++ ys))) e
    ∙ ap (λ z. d ∷ c ∷ b ∷ a ∷ z) (flip-append m n xs ys (omega (arith, h)))

pub flip-flip : (n : ℕ) (xs : List ℕ) → length xs ≡ 4 * n → flip n (flip n xs) ≡ xs
unfolding flip
flip-flip zero [] h = refl
flip-flip zero (a ∷ xs) h = absurd (omega (arith, h))
flip-flip (suc n) [] h = absurd (omega (arith, h))
flip-flip (suc n) (a ∷ []) h = absurd (omega (arith, h))
flip-flip (suc n) (a ∷ b ∷ []) h = absurd (omega (arith, h))
flip-flip (suc n) (a ∷ b ∷ c ∷ []) h = absurd (omega (arith, h))
flip-flip (suc n) (a ∷ b ∷ c ∷ d ∷ xs) h =
    ap (λ z. a ∷ b ∷ c ∷ d ∷ z) (flip-flip n xs (omega (arith, h)))

-- A big-endian word comes out little-endian.
pub flip-unpack32 : (v : ℕ) → flip 1 (unpack32 v) ≡ le_bytes 4 v
unfolding flip unpack32 le_bytes
flip-unpack32 v =
    let e : v / 2 ^ 16 ≡ v / 256 / 256 = omega arith in
    let f : v / 2 ^ 24 ≡ v / 256 / 256 / 256 = omega arith in rw (e, f) refl

-- The six fields of a header, one after the other.
abbrev pub fields : List ℕ → List ℕ → List ℕ → List ℕ → List ℕ → List ℕ → List ℕ
fields v p r t b n = v ++ (p ++ (r ++ (t ++ (b ++ n))))

module _ (v p r t b n : List ℕ) where
  at_root : fields v p r t b n ≡ (v ++ p) ++ r ++ (t ++ (b ++ n))
  at_root = simp append_assoc

  at_nonce : fields v p r t b n ≡ (v ++ p ++ r ++ t ++ b) ++ n ++ []
  at_nonce = simp (append_assoc, append-nil)

  at_time : fields v p r t b n ≡ (v ++ p ++ r) ++ t ++ (b ++ n)
  at_time = simp append_assoc

  version_into :
      (v' : List ℕ)
      → length v ≡ 4
      → length v' ≡ 4
      → memcpy_at (fields v p r t b n) 0 v' ≡ fields v' p r t b n
  version_into v' length_v h =
      memcpy_mid' (fields v p r t b n) [] v (p ++ (r ++ (t ++ (b ++ n)))) v' 0 refl refl
        (length_v ∙ sym h)

  module _ (length_v : length v ≡ 4) (length_p : length p ≡ 32) (length_r : length r ≡ 32)
      (length_t : length t ≡ 4) (length_b : length b ≡ 4) (length_n : length n ≡ 4) where
    root_into :
        (r' : List ℕ) → length r' ≡ 32 → memcpy_at (fields v p r t b n) 36 r' ≡ fields v p r' t b n
    root_into r' h =
        memcpy_mid' (fields v p r t b n) (v ++ p) r (t ++ (b ++ n)) r' 36 at_root
          (omega (arith, length_v, length_p, length-append v p)) (length_r ∙ sym h)
        ∙ simp append_assoc

    nonce_into :
        (n' : List ℕ) → length n' ≡ 4 → memcpy_at (fields v p r t b n) 76 n' ≡ fields v p r t b n'
    nonce_into n' h =
        memcpy_mid' (fields v p r t b n) (v ++ p ++ r ++ t ++ b) n [] n' 76 at_nonce
          (omega (
            arith,
            length_v,
            length_p,
            length_r,
            length_t,
            length_b,
            length-append v p,
            length-append (v ++ p) r,
            length-append (v ++ p ++ r) t,
            length-append (v ++ p ++ r ++ t) b,
          ))
          (length_n ∙ sym h)
        ∙ simp (append_assoc, append-nil)

    time_into :
        (t' : List ℕ) → length t' ≡ 4 → memcpy_at (fields v p r t b n) 68 t' ≡ fields v p r t' b n
    time_into t' h =
        memcpy_mid' (fields v p r t b n) (v ++ p ++ r) t (b ++ n) t' 68 at_time
          (omega (arith, length_v, length_p, length_r, length-append v p, length-append (v ++ p) r))
          (length_t ∙ sym h)
        ∙ simp append_assoc

    flip-fields :
        flip 20 (fields v p r t b n)
        ≡ fields (flip 1 v) (flip 8 p) (flip 8 r) (flip 1 t) (flip 1 b) (flip 1 n)
    flip-fields =
        flip-append 1 19 v (p ++ (r ++ (t ++ (b ++ n)))) length_v
        ∙ ap (λ z. flip 1 v ++ z)
            (flip-append 8 11 p (r ++ (t ++ (b ++ n))) length_p
              ∙ ap (λ z. flip 8 p ++ z)
                  (flip-append 8 3 r (t ++ (b ++ n)) length_r
                    ∙ ap (λ z. flip 8 r ++ z)
                        (flip-append 1 2 t (b ++ n) length_t
                          ∙ ap (λ z. flip 1 t ++ z) (flip-append 1 1 b n length_b))))

-- The version as it is hashed: with the bits of the mask, if there are any.
pub masked : ℕ → List ℕ → List ℕ
masked version_mask v = if version_mask == 0 then v else or_bytes v (unpack32 version_mask)

length-or_bytes : (v m : List ℕ) → length v ≡ length m → length (or_bytes v m) ≡ length v
unfolding or_bytes
length-or_bytes [] m h = refl
length-or_bytes (a ∷ v) [] h = sym h
length-or_bytes (a ∷ v) (b ∷ m) h =
    let r = length-or_bytes v m (omega (arith, h)) in omega (arith, r)

pub length-masked : (m : ℕ) (v : List ℕ) → length v ≡ 4 → length (masked m v) ≡ 4
unfolding masked unpack32
length-masked m v h =
    let o = length-or_bytes v (unpack32 m) h in
    elim (Bool-cases (m == 0)) [ inl z ↦ ground (arith, z, h) | inr z ↦ ground (arith, z, o) ]

pub length-unpack32 : (v : ℕ) → length (unpack32 v) ≡ 4
unfolding unpack32
length-unpack32 v = refl

with_version-fields :
    (v p r t b n : List ℕ) (mask : ℕ)
    → length v ≡ 4
    → with_version mask (fields v p r t b n) ≡ fields (masked mask v) p r t b n
unfolding with_version masked
with_version-fields v p r t b n mask l =
    let front = take-append 4 v (p ++ (r ++ (t ++ (b ++ n)))) l in
    let o = length-or_bytes v (unpack32 mask) (l ∙ sym (length-unpack32 mask)) in
    elim (Bool-cases (mask == 0)) [
      | inl z ↦ ground (arith, z)
      | inr z ↦
          let i = version_into v p r t b n (or_bytes v (unpack32 mask)) l (o ∙ l) in
          let q =
            ap (λ w. memcpy_at (fields v p r t b n) 0 (or_bytes w (unpack32 mask))) front ∙ i in
          ground (arith, z, q)
    ]

-- Where the cached header has its six fields and the nonce of the share is decoded to four bytes:
-- what submission_diff hashes has the version with the mask, the root as it was hashed, the time and
-- the nonce of the share, and each word of the others, the other way round.
pub swap-fields :
    (stack v p r t b n headerbin root : List ℕ) (s : Share)
    → length v ≡ 4
    → length p ≡ 32
    → length r ≡ 32
    → length t ≡ 4
    → length b ≡ 4
    → length n ≡ 4
    → take 80 headerbin ≡ fields v p r t b n
    → length root ≡ 32
    → length (decoded stack s.nonce 4) ≡ 4
    → flip 20 (filled_header stack headerbin root s)
      ≡ fields
          (flip 1 (masked s.version_mask v))
          (flip 8 p)
          root
          (le_bytes 4 s.ntime32)
          (flip 1 b)
          (flip 1 (decoded stack s.nonce 4))
unfolding filled_header
swap-fields stack v p r t b n headerbin root s lv lp lr lt lb ln e l ld =
    let root' = flip 8 root in
    let lr' = length-flip 8 root l in
    let m = masked s.version_mask v in
    let lm = length-masked s.version_mask v lv in
    let n' = decoded stack s.nonce 4 in
    let rooted : memcpy_at (take 80 headerbin) 36 root' ≡ fields v p root' t b n =
      ap (λ z. memcpy_at z 36 root') e ∙ root_into v p r t b n lv lp lr lt lb ln root' lr' in
    let versioned : with_version s.version_mask (memcpy_at (take 80 headerbin) 36 root')
        ≡ fields m p root' t b n =
      ap (with_version s.version_mask) rooted
      ∙ with_version-fields v p root' t b n s.version_mask lv in
    let nonced : memcpy_at (with_version s.version_mask (memcpy_at (take 80 headerbin) 36 root')) 76
          n'
        ≡ fields m p root' t b n' =
      ap (λ z. memcpy_at z 76 n') versioned ∙ nonce_into m p root' t b n lm lp lr' lt lb ln n' ld in
    ap (λ z. flip 20 (memcpy_at z 68 (unpack32 s.ntime32))) nonced
    ∙ ap (flip 20) (
        time_into m p root' t b n' lm lp lr' lt lb ld (unpack32 s.ntime32)
          (length-unpack32 s.ntime32))
    ∙ flip-fields m p root' (unpack32 s.ntime32) b n' lm lp lr' (length-unpack32 s.ntime32) lb ld
    ∙ ap₂ (λ z w. fields (flip 1 m) (flip 8 p) z w (flip 1 b) (flip 1 n')) (flip-flip 8 root l)
        (flip-unpack32 s.ntime32)

pub length-fields :
    (v p r t b n : List ℕ)
    → (length v ≡ 4)
      × ((length p ≡ 32) × ((length r ≡ 32) × ((length t ≡ 4) × ((length b ≡ 4) × (length n ≡ 4)))))
    → length (fields v p r t b n) ≡ 80
length-fields v p r t b n h = omega (
  arith,
  h.0,
  h.1.0,
  h.1.1.0,
  h.1.1.1.0,
  h.1.1.1.1.0,
  h.1.1.1.1.1,
  length-append v (p ++ (r ++ (t ++ (b ++ n)))),
  length-append p (r ++ (t ++ (b ++ n))),
  length-append r (t ++ (b ++ n)),
  length-append t (b ++ n),
  length-append b n,
)
