-- ===== src/Hex/Pieces.antt =====
-- Pieces of a hexadecimal text.
use ckpool.Common.{
  ℕ, zero, suc, ◌*◌, ◌/◌, ◌%◌, ◌≡◌, refl, sym, ap, ap₂, ◌∙◌, List, [], ◌∷◌, ◌++◌, length, take,
  arith,
}
use ckpool.Hex.{bin2hex, hex_digit}

pub bin2hex-append : (xs ys : List ℕ) → bin2hex (xs ++ ys) ≡ bin2hex xs ++ bin2hex ys
unfolding bin2hex
bin2hex-append [] ys = refl
bin2hex-append (b ∷ xs) ys = simp (bin2hex-append xs ys)

pub length-bin2hex : (xs : List ℕ) → length (bin2hex xs) ≡ 2 * length xs
unfolding bin2hex
length-bin2hex [] = refl
length-bin2hex (b ∷ xs) = let r = length-bin2hex xs in omega (arith, r)

pub take-bin2hex : (n : ℕ) (xs : List ℕ) → take (2 * n) (bin2hex xs) ≡ bin2hex (take n xs)
unfolding bin2hex
take-bin2hex zero xs = refl
take-bin2hex (suc n) [] =
    let e : 2 * suc n ≡ suc (suc (2 * n)) = omega arith in ap (λ k. take k []) e
take-bin2hex (suc n) (b ∷ xs) =
    let e : 2 * suc n ≡ suc (suc (2 * n)) = omega arith in
    ap (λ k. take k (bin2hex (b ∷ xs))) e
    ∙ ap (λ z. hex_digit (b / 16) ∷ hex_digit (b % 16) ∷ z) (take-bin2hex n xs)

-- Texts of bytes, one behind the other.
pub join_texts :
    (a b xs ys : List ℕ) → a ≡ bin2hex xs → b ≡ bin2hex ys → a ++ b ≡ bin2hex (xs ++ ys)
join_texts a b xs ys e f = ap₂ (λ x y. x ++ y) e f ∙ sym (bin2hex-append xs ys)
