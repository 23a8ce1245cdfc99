-- ===== src/Submit/Throttle/Patience.antt =====
-- No client is disconnected before three minutes of nothing but invalid shares.
use mathlib.Core.Path.{subst}
use ckpool.Common.{
  ℕ, ◌+◌, ◌<◌, ◌≤◌, ◌≡◌, refl, sym, ◌∙◌, ◌⊎◌, inl, inr, true, false, not, ◌&&◌, ◌||◌, List, [], ◌∷◌,
  ltb, ◌==◌, arith, Bool-cases,
}
use ckpool.Submit.Throttle.{
  disconnected, Client, Seen, is_invalid, note_share, throttle, after, action,
}

-- The newest shares of a history are all invalid, from the time t on.
pub data Streak : List Seen → ℕ → Type 0 where
  begins : (e : Seen) (es : List Seen) → is_invalid e ≡ true → Streak (e ∷ es) e.now
  goes_on :
      (e : Seen) (es : List Seen) (t : ℕ) → is_invalid e ≡ true → Streak es t → Streak (e ∷ es) t

-- A client that has not been disconnected has a streak since first_invalid, if that is set.
Known : List Seen → Client → Type 0
Known es c = (3 ≤ c.reject) ⊎ ((c.first_invalid ≡ 0) ⊎ Streak es c.first_invalid)

not_later :
    (e : Seen) (c : Client)
    → is_invalid e ≡ true
    → ltb c.first_invalid c.last_share || c.first_invalid == 0 ≡ false
    → not (c.first_invalid == 0) && ltb (c.first_invalid + 180) e.now && ltb c.reject 3 ≡ false
    → (throttle e c).0 ≡ disconnected
    → ⊥
unfolding throttle
not_later e c i x y h =
    elim (Bool-cases
      (not (c.first_invalid == 0) && ltb (c.first_invalid + 120) e.now && ltb c.reject 2)) [
        | inl z ↦ ground (arith, i, x, y, z, h)
        | inr z ↦
            elim (Bool-cases
              (not (c.first_invalid == 0) && ltb (c.first_invalid + 60) e.now && c.reject == 0)) [
                | inl u ↦ ground (arith, i, x, y, z, u, h)
                | inr u ↦ ground (arith, i, x, y, z, u, h)
              ]
      ]

same_first :
    (e : Seen) (c : Client)
    → is_invalid e ≡ true
    → ltb c.first_invalid c.last_share || c.first_invalid == 0 ≡ false
    → (throttle e c).1.first_invalid ≡ c.first_invalid
unfolding throttle
same_first e c i x =
    elim (Bool-cases
      (not (c.first_invalid == 0) && ltb (c.first_invalid + 180) e.now && ltb c.reject 3)) [
        | inl y ↦ ground (arith, i, x, y)
        | inr y ↦
            elim (Bool-cases
              (not (c.first_invalid == 0) && ltb (c.first_invalid + 120) e.now && ltb c.reject 2)) [
                | inl z ↦ ground (arith, i, x, y, z)
                | inr z ↦
                    elim (Bool-cases (
                      not (c.first_invalid == 0)
                      && ltb (c.first_invalid + 60) e.now
                      && c.reject == 0)) [
                        | inl u ↦ ground (arith, i, x, y, z, u)
                        | inr u ↦ ground (arith, i, x, y, z, u)
                      ]
              ]
      ]

disconnected-after :
    (e : Seen) (c : Client)
    → (throttle e c).0 ≡ disconnected
    → (is_invalid e ≡ true)
      × ((c.first_invalid + 180 < e.now) × ((c.first_invalid ≡ 0 → ⊥) × (c.reject < 3)))
unfolding throttle
disconnected-after e c h = elim (Bool-cases (is_invalid e)) [
  | inl i ↦ elim (Bool-cases (ltb c.first_invalid c.last_share || c.first_invalid == 0)) [
    | inl x ↦ absurd (ground (arith, i, x, h))
    | inr x ↦
        elim (Bool-cases
          (not (c.first_invalid == 0) && ltb (c.first_invalid + 180) e.now && ltb c.reject 3)) [
            | inl y ↦ (i, (ground (arith, y), (λ z. ground (arith, y, z), ground (arith, y))))
            | inr y ↦ absurd (not_later e c i x y h)
          ]
  ]
  | inr v ↦ absurd (ground (arith, v, h))
]

throttle-first :
    (e : Seen) (c : Client)
    → ((is_invalid e ≡ true) × ((throttle e c).1.first_invalid ≡ e.now))
      ⊎ (((is_invalid e ≡ true) × ((throttle e c).1.first_invalid ≡ c.first_invalid))
          ⊎ (((throttle e c).1.first_invalid ≡ 0) ⊎ (3 ≤ (throttle e c).1.reject)))
unfolding throttle
throttle-first e c = elim (Bool-cases (is_invalid e)) [
  | inl i ↦ elim (Bool-cases (ltb c.first_invalid c.last_share || c.first_invalid == 0)) [
    | inl x ↦ inl (i, ground (arith, i, x))
    | inr x ↦ inr (inl (i, same_first e c i x))
  ]
  | inr v ↦ elim (Bool-cases (ltb c.reject 3)) [
    | inl r ↦ inr (inr (inl (ground (arith, v, r))))
    | inr r ↦ inr (inr (inr (ground (arith, v, r))))
  ]
]

throttle-gone : (e : Seen) (c : Client) → 3 ≤ c.reject → 3 ≤ (throttle e c).1.reject
unfolding throttle
throttle-gone e c g = elim (Bool-cases (is_invalid e)) [
  | inl i ↦ elim (Bool-cases (ltb c.first_invalid c.last_share || c.first_invalid == 0)) [
    | inl x ↦ ground (arith, i, x, g)
    | inr x ↦
        elim (Bool-cases
          (not (c.first_invalid == 0) && ltb (c.first_invalid + 180) e.now && ltb c.reject 3)) [
            | inl y ↦ ground (arith, i, x, y, g)
            | inr y ↦
                elim (Bool-cases (
                  not (c.first_invalid == 0)
                  && ltb (c.first_invalid + 120) e.now
                  && ltb c.reject 2)) [
                    | inl z ↦ absurd (ground (arith, z, g))
                    | inr z ↦
                        elim (Bool-cases (
                          not (c.first_invalid == 0)
                          && ltb (c.first_invalid + 60) e.now
                          && c.reject == 0)) [
                            | inl u ↦ absurd (ground (arith, u, g))
                            | inr u ↦ ground (arith, i, x, y, z, u, g)
                          ]
                  ]
          ]
  ]
  | inr v ↦ ground (arith, v, g)
]

throttle-Known :
    (e : Seen) (es : List Seen) (c : Client) → Known es c → Known (e ∷ es) (throttle e c).1
unfolding Known
throttle-Known e es c (inl g) = inl (throttle-gone e c g)
throttle-Known e es c (inr k) = elim (throttle-first e c) [
  | inl (i, now) ↦ inr (inr (subst (λ t. Streak (e ∷ es) t) (sym now) (begins e es i)))
  | inr (inl (i, same)) ↦ elim k [
    | inl zero_first ↦ inr (inl (same ∙ zero_first))
    | inr streak ↦
        inr
          (inr (subst (λ t. Streak (e ∷ es) t) (sym same) (goes_on e es c.first_invalid i streak)))
  ]
  | inr (inr (inl z)) ↦ inr (inl z)
  | inr (inr (inr g)) ↦ inl g
]

note_share-fixed :
    (e : Seen) (c : Client)
    → ((note_share e c).first_invalid ≡ c.first_invalid) × ((note_share e c).reject ≡ c.reject)
unfolding note_share
note_share-fixed e c = elim (Bool-cases (e.share && (e.result || e.submit))) [
  | inl h ↦ (ground (arith, h), ground (arith, h))
  | inr h ↦ (ground (arith, h), ground (arith, h))
]

note_share-Known : (e : Seen) (es : List Seen) (c : Client) → Known es c → Known es (note_share e c)
unfolding Known
note_share-Known e es c k =
    let (f, r) = note_share-fixed e c in
    elim k [
      | inl g ↦ inl (omega (arith, g, r))
      | inr (inl z) ↦ inr (inl (f ∙ z))
      | inr (inr s) ↦ inr (inr (subst (λ t. Streak es t) (sym f) s))
    ]

after-Known : (es : List Seen) → Known es (after es)
unfolding after Known
after-Known [] = inr (inl refl)
after-Known (e ∷ es) =
    throttle-Known e es (note_share e (after es))
      (note_share-Known e es (after es) (after-Known es))

-- When a share leads to a disconnection, it and all shares before it back to a time t were
-- invalid, and t is more than 180 seconds before it.
pub disconnected-Streak :
    (e : Seen) (es : List Seen)
    → action e es ≡ disconnected
    → (t : ℕ) × Streak (e ∷ es) t × (t + 180 < e.now)
unfolding action Known
disconnected-Streak e es h =
    let c = note_share e (after es) in
    let (i, (late, (set, few))) = disconnected-after e c h in
    elim (note_share-Known e es (after es) (after-Known es)) [
      | inl g ↦ absurd (omega (arith, g, few))
      | inr (inl z) ↦ absurd (set z)
      | inr (inr s) ↦ (c.first_invalid, goes_on e es c.first_invalid i s, late)
    ]
