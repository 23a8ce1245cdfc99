-- ===== src/Submit/Params.antt =====
-- The parameters that check_params of parse_submit lets through, said without its checks.
use Prim.Native.Nat.{bit_and}
use mathlib.Core.Path.{subst}
use ckpool.Common.{
  ℕ, ◌-◌, ◌^◌, ◌<◌, ◌≤◌, ◌≡◌, refl, ap, ap₂, sym, ◌∙◌, ◌⊎◌, inl, inr, Bool, true, false, not, ◌&&◌,
  List, [], ◌∷◌, Option, none, some, leb, ◌==◌, eq_bytes, length, arith, Bool-cases,
}
use ckpool.Hex.{validhex}
use ckpool.Submit.{
  ShareErr, se_invalid_size, se_no_username, se_no_jobid, se_no_nonce2, se_no_ntime, se_no_nonce,
  se_invalid_version_mask, se_worker_mismatch, Check, refused, passed, ◌>>=◌, demand, string_at,
  text, Fields, mask_of, check_params,
}

-- The version mask that is read from the sixth parameter: none, one that is no hexadecimal text, or
-- one that is 0 or has allowed bits only.
pub data IsMask (scan32 : List ℕ → ℕ) (allowed : ℕ) (given : Option (List ℕ)) (m : ℕ) : Type 0 where
  absent : given ≡ none → m ≡ 0 → IsMask scan32 allowed given m
  unreadable :
      (s : List ℕ)
      → given ≡ some s
      → (length s ≡ 0) ⊎ (validhex s ≡ false)
      → m ≡ 0
      → IsMask scan32 allowed given m
  readable :
      (s : List ℕ)
      → given ≡ some s
      → 0 < length s
      → validhex s ≡ true
      → m ≡ scan32 s
      → (m ≡ 0) ⊎ (bit_and (2 ^ 32 - 1 - allowed) m ≡ 0)
      → IsMask scan32 allowed given m

-- The parameters of a client of this name, read as these fields.
pub record IsParams (scan32 : List ℕ → ℕ) (allowed : ℕ) (name : List ℕ)
    (params : List (Option (List ℕ))) (f : Fields) : Type 0 where
  pub size : 5 ≤ length params
  pub workername : string_at params 0 ≡ some name
  pub named : 0 < length name
  pub job_id : string_at params 1 ≡ some f.job_id
  pub has_job_id : 0 < length f.job_id
  pub nonce2 : string_at params 2 ≡ some f.nonce2
  pub has_nonce2 : 0 < length f.nonce2
  pub hex_nonce2 : validhex f.nonce2 ≡ true
  pub ntime : string_at params 3 ≡ some f.ntime
  pub has_ntime : 0 < length f.ntime
  pub hex_ntime : validhex f.ntime ≡ true
  pub nonce : string_at params 4 ≡ some f.nonce
  pub long_nonce : 8 ≤ length f.nonce
  pub hex_nonce : validhex f.nonce ≡ true
  pub mask : IsMask scan32 allowed (string_at params 5) f.version_mask32

passed_or {ℓ} : {A : Type ℓ} → A → Check A → A
passed_or d (refused e) = d
passed_or d (passed a) = a

passed_inj {ℓ} : {A : Type ℓ} (a b : A) → passed a ≡ passed b → a ≡ b
unfolding passed_or
passed_inj a b e = ap (passed_or a) e

is_passed {ℓ} : {A : Type ℓ} → Check A → Bool
is_passed (refused e) = false
is_passed (passed a) = true

not_passed {ℓ κ} : {A : Type ℓ} {P : Type κ} (e : ShareErr) (a : A) → refused e ≡ passed a → P
unfolding is_passed
not_passed e a h = let b = ap is_passed h in absurd (ground (arith, b))

bind_inv {ℓ κ} :
    {X : Type ℓ} {Y : Type κ} (c : Check X) (next : X → Check Y) (y : Y)
    → c >>= next ≡ passed y
    → (x : X) × (c ≡ passed x) × (next x ≡ passed y)
bind_inv (refused e) next y h = not_passed e y h
bind_inv (passed x) next y h = (x, refl, h)

bind_to {ℓ κ} :
    {X : Type ℓ} {Y : Type κ} (next : X → Check Y) {c : Check X} {y : Check Y} (x : X)
    → c ≡ passed x
    → next x ≡ y
    → c >>= next ≡ y
bind_to next x e h = ap (λ c. c >>= next) e ∙ h

demand_inv : (e : ShareErr) (b : Bool) (u : Unit {0}) → demand e b ≡ passed u → b ≡ true
demand_inv e true u h = refl
demand_inv e false u h = not_passed e u h

demand_to : (e : ShareErr) (b : Bool) → b ≡ true → demand e b ≡ passed tt
demand_to e b h = ap (demand e) h

text_inv :
    (e : ShareErr) (good : List ℕ → Bool) (o : Option (List ℕ)) (s : List ℕ)
    → text e good o ≡ passed s
    → (o ≡ some s) × (0 < length s) × (good s ≡ true)
unfolding text
text_inv e good none s h = not_passed e s h
text_inv e good (some t) s h = elim (Bool-cases (not (length t == 0) && good t)) [
  | inl ok ↦
      let same : t ≡ s = passed_inj t s (ground (arith, ok, h)) in
      let fine : 0 < length t = ground (arith, ok) in
      let is_good : good t ≡ true = ground (arith, ok) in
      (ap some same, subst (λ x. 0 < length x) same fine, subst (λ x. good x ≡ true) same is_good)
  | inr bad ↦ not_passed e s (ground (arith, bad, h))
]

text_to :
    (e : ShareErr) (good : List ℕ → Bool) (o : Option (List ℕ)) (s : List ℕ)
    → o ≡ some s
    → 0 < length s
    → good s ≡ true
    → text e good o ≡ passed s
unfolding text
text_to e good o s h pos ok = ground (arith, h, pos, ok)

module _ (scan32 : List ℕ → ℕ) (allowed : ℕ) where
  mask_of-IsMask :
      (o : Option (List ℕ)) (m : ℕ)
      → mask_of scan32 allowed o ≡ passed m
      → IsMask scan32 allowed o m
  unfolding mask_of
  mask_of-IsMask none m h = absent refl (sym (passed_inj 0 m h))
  mask_of-IsMask (some s) m h = elim (Bool-cases (not (length s == 0) && validhex s)) [
    | inr bad ↦
        unreadable s refl (ground (arith, bad)) (sym (passed_inj 0 m (ground (arith, bad, h))))
    | inl ok ↦
        elim (Bool-cases
          (not (scan32 s == 0) && not (bit_and (2 ^ 32 - 1 - allowed) (scan32 s) == 0))) [
            | inl wrong ↦ not_passed se_invalid_version_mask m (ground (arith, ok, wrong, h))
            | inr fine ↦
                let same : scan32 s ≡ m = passed_inj (scan32 s) m (ground (arith, ok, fine, h)) in
                readable s refl (ground (arith, ok)) (ground (arith, ok)) (sym same) (
                  subst (λ k. (k ≡ 0) ⊎ (bit_and (2 ^ 32 - 1 - allowed) k ≡ 0)) same
                    (ground (arith, fine)))
          ]
  ]

  mask_to :
      (o : Option (List ℕ)) (m : ℕ)
      → IsMask scan32 allowed o m
      → mask_of scan32 allowed o ≡ passed m
  unfolding mask_of
  mask_to o m (absent n z) = ground (arith, n, z)
  mask_to o m (unreadable s g (inl empty) z) = ground (arith, g, empty, z)
  mask_to o m (unreadable s g (inr bad) z) = ground (arith, g, bad, z)
  mask_to o m (readable s g pos hex e (inl z)) =
      let k : scan32 s ≡ 0 = sym e ∙ z in ground (arith, g, pos, hex, e, k)
  mask_to o m (readable s g pos hex e (inr z)) =
      let k = ap (bit_and (2 ^ 32 - 1 - allowed)) (sym e) ∙ z in ground (arith, g, pos, hex, e, k)

eq_bytes_inv : (xs ys : List ℕ) → eq_bytes xs ys ≡ true → xs ≡ ys
unfolding eq_bytes
eq_bytes_inv [] [] h = refl
eq_bytes_inv [] (y ∷ ys) h = ground (arith, h)
eq_bytes_inv (x ∷ xs) [] h = ground (arith, h)
eq_bytes_inv (x ∷ xs) (y ∷ ys) h =
    let e : x ≡ y = ground (arith, h) in
    let r = eq_bytes_inv xs ys (ground (arith, h)) in ap₂ (λ a b. a ∷ b) e r

eq_bytes_same : (xs : List ℕ) → eq_bytes xs xs ≡ true
unfolding eq_bytes
eq_bytes_same [] = refl
eq_bytes_same (x ∷ xs) = let r = eq_bytes_same xs in ground (arith, r)

is_named : Option (List ℕ) → List ℕ → Bool
is_named client_name workername = elim client_name [
  | none ↦ false
  | some name ↦ eq_bytes workername name
]

named_inv :
    (client_name : Option (List ℕ)) (workername : List ℕ)
    → is_named client_name workername ≡ true
    → client_name ≡ some workername
unfolding is_named
named_inv none workername h = ground (arith, h)
named_inv (some name) workername h = ap some (sym (eq_bytes_inv workername name h))

read-IsParams :
    {scan32 : List ℕ → ℕ} {allowed : ℕ} {params : List (Option (List ℕ))}
    (workername job_id nonce2 ntime nonce : List ℕ) (mask : ℕ) (u : Unit {0})
    → demand se_invalid_size (leb 5 (length params)) ≡ passed u
    → text se_no_username (λ s. true) (string_at params 0) ≡ passed workername
    → text se_no_jobid (λ s. true) (string_at params 1) ≡ passed job_id
    → text se_no_nonce2 validhex (string_at params 2) ≡ passed nonce2
    → text se_no_ntime validhex (string_at params 3) ≡ passed ntime
    → text se_no_nonce (λ s. leb 8 (length s) && validhex s) (string_at params 4) ≡ passed nonce
    → mask_of scan32 allowed (string_at params 5) ≡ passed mask
    → IsParams scan32 allowed workername params (record {
      job_id = job_id;
      nonce2 = nonce2;
      ntime = ntime;
      nonce = nonce;
      version_mask32 = mask;
    })
read-IsParams {scan32 = scan32} {allowed = allowed} {params = params} workername job_id nonce2 ntime
      nonce mask u e0 e1 e2 e3 e4 e5 e6 =
    let size = demand_inv se_invalid_size (leb 5 (length params)) u e0 in
    let a = text_inv se_no_username (λ s. true) (string_at params 0) workername e1 in
    let b = text_inv se_no_jobid (λ s. true) (string_at params 1) job_id e2 in
    let c = text_inv se_no_nonce2 validhex (string_at params 2) nonce2 e3 in
    let d = text_inv se_no_ntime validhex (string_at params 3) ntime e4 in
    let e =
      text_inv se_no_nonce (λ s. leb 8 (length s) && validhex s) (string_at params 4) nonce e5 in
    let long = e.2 in
    record {
      size = ground (arith, size);
      workername = a.0;
      named = a.1;
      job_id = b.0;
      has_job_id = b.1;
      nonce2 = c.0;
      has_nonce2 = c.1;
      hex_nonce2 = c.2;
      ntime = d.0;
      has_ntime = d.1;
      hex_ntime = d.2;
      nonce = e.0;
      long_nonce = ground (arith, long);
      hex_nonce = ground (arith, long);
      mask = mask_of-IsMask scan32 allowed (string_at params 5) mask e6;
    }

module _ (scan32 : List ℕ → ℕ) (allowed : ℕ) (client_name : Option (List ℕ))
    (params : List (Option (List ℕ))) (f : Fields) where
  pub check_params_inv :
      check_params scan32 allowed client_name (some params) ≡ passed f
      → (name : List ℕ) × (client_name ≡ some name) × IsParams scan32 allowed name params f
  unfolding check_params is_named
  check_params_inv h0 =
      let (u, e0, h1) = bind_inv (demand se_invalid_size (leb 5 (length params))) _ f h0 in
      let (workername, e1, h2) =
        bind_inv (text se_no_username (λ s. true) (string_at params 0)) _ f h1 in
      let (job_id, e2, h3) = bind_inv (text se_no_jobid (λ s. true) (string_at params 1)) _ f h2 in
      let (nonce2, e3, h4) = bind_inv (text se_no_nonce2 validhex (string_at params 2)) _ f h3 in
      let (ntime, e4, h5) = bind_inv (text se_no_ntime validhex (string_at params 3)) _ f h4 in
      let (nonce, e5, h6) =
        bind_inv (text se_no_nonce (λ s. leb 8 (length s) && validhex s) (string_at params 4)) _ f
          h5 in
      let (mask, e6, h7) = bind_inv (mask_of scan32 allowed (string_at params 5)) _ f h6 in
      let (v, e7, h8) =
        bind_inv (demand se_worker_mismatch (is_named client_name workername)) _ f h7 in
      let read = read-IsParams workername job_id nonce2 ntime nonce mask u e0 e1 e2 e3 e4 e5 e6 in
      (
        workername,
        named_inv client_name workername (demand_inv se_worker_mismatch _ v e7),
        subst (λ g. IsParams scan32 allowed workername params g) (passed_inj _ f h8) read,
      )

  pub check_params_to :
      (name : List ℕ)
      → client_name ≡ some name
      → IsParams scan32 allowed name params f
      → check_params scan32 allowed client_name (some params) ≡ passed f
  unfolding check_params is_named
  check_params_to name c p =
      let g8 = λ (s : List ℕ). leb 8 (length s) && validhex s in
      let good : g8 f.nonce ≡ true =
        let l = p.long_nonce in let h = p.hex_nonce in ground (arith, l, h) in
      let long = p.long_nonce in
      let size = p.size in
      let e0 = demand_to se_invalid_size (leb 5 (length params)) (ground (arith, size)) in
      let e1 =
        text_to se_no_username (λ s. true) (string_at params 0) name p.workername p.named refl in
      let e2 =
        text_to se_no_jobid (λ s. true) (string_at params 1) f.job_id p.job_id p.has_job_id refl in
      let e3 =
        text_to se_no_nonce2 validhex (string_at params 2) f.nonce2 p.nonce2 p.has_nonce2
          p.hex_nonce2 in
      let e4 =
        text_to se_no_ntime validhex (string_at params 3) f.ntime p.ntime p.has_ntime p.hex_ntime in
      let e5 =
        text_to se_no_nonce g8 (string_at params 4) f.nonce p.nonce (omega (arith, long)) good in
      let e6 = mask_to scan32 allowed (string_at params 5) f.version_mask32 p.mask in
      let e7 =
        demand_to se_worker_mismatch (is_named client_name name)
          (ap (λ o. is_named o name) c ∙ eq_bytes_same name) in
      bind_to _ tt e0 (
        bind_to _ name e1 (
          bind_to _ f.job_id e2 (
            bind_to _ f.nonce2 e3 (
              bind_to _ f.ntime e4
                (bind_to _ f.nonce e5 (bind_to _ f.version_mask32 e6 (bind_to _ tt e7 refl)))))))
