-- ===== src/Block/Roots.antt =====
-- Merkle trees under two hashes that agree on the values in them.
use ckpool.Common.{◌≡◌, sym, List, [], ◌∷◌, All}
use mathlib.Core.Path.{subst}
use ckpool.Merkle.Root.{Level, done, odd, pair, Root, alone, up}

module _ {ℓ κ} {A : Type ℓ} (f g : A → A → A) (P : A → Type κ)
    (agree : (x y : A) → P x → P y → f x y ≡ g x y) (keep : (x y : A) → P x → P y → P (f x y)) where
  agreed_levels : {xs ys : List A} → Level f xs ys → All P xs → Level g xs ys × All P ys
  agreed_levels done a = (done, a)
  agreed_levels (odd x) a = (
    subst (λ z. Level g (x ∷ []) (z ∷ [])) (sym (agree x x a.0 a.0)) (odd x),
    (keep x x a.0 a.0, tt),
  )
  agreed_levels (pair x y xs ys l) a =
      let r = agreed_levels l a.1.1 in
      (
        subst (λ z. Level g (x ∷ y ∷ xs) (z ∷ ys)) (sym (agree x y a.0 a.1.0)) (pair x y xs ys r.0),
        (keep x y a.0 a.1.0, r.1),
      )

  pub agreed_roots : {xs : List A} {r : A} → Root f xs r → All P xs → Root g xs r × P r
  agreed_roots (alone x) a = (alone x, a.0)
  agreed_roots (up x y xs next r l t) a =
      let q = agreed_levels l a in let s = agreed_roots t q.1 in (up x y xs next r q.0 s.0, s.1)
