-- ===== src/CashAddr/Case.antt =====
-- Letter case, the optional prefix, and bytes that are not ASCII.
use ckpool.Common.{
  ℕ, ◌≤◌, ◌≡◌, refl, true, false, ◌||◌, List, [], ◌∷◌, ◌++◌, le→leb, ◌==◌, if◌then◌else◌, length,
  arith, none, some, Option-cases, Bool-cases, inl, inr, ◌∙◌, sym, map, tolower, eq_nocase,
  length-map,
}
use mathlib.Core.Option
use ckpool.CashAddr.{
  ok, rejected, fault, charset_rev, Payee, decode_chars, decode_payload, cashaddr_decode_checked,
  payload_of, split_colon, case_is_consistent, has_lower, has_upper,
}
use ckpool.CashAddr.Laws.{bind_inv, cashaddr_decode_checked-Accepted}

tolower_idem : (c : ℕ) → tolower (tolower c) ≡ tolower c
tolower_idem c = ground arith

charset_rev-tolower : (c : ℕ) → charset_rev (tolower c) ≡ charset_rev c
unfolding charset_rev
charset_rev-tolower c = rw (tolower_idem c)

decode_chars-lower : (cs : List ℕ) → decode_chars (map tolower cs) ≡ decode_chars cs
unfolding decode_chars
decode_chars-lower [] = refl
decode_chars-lower (c ∷ cs) = rw (charset_rev-tolower c, decode_chars-lower cs)

decode_payload-lower :
    (prefix cs : List ℕ) → decode_payload prefix (map tolower cs) ≡ decode_payload prefix cs
unfolding decode_payload
decode_payload-lower prefix cs = rw (length-map cs tolower, decode_chars-lower cs)

has_upper-lower : (cs : List ℕ) → has_upper (map tolower cs) ≡ false
unfolding has_upper
has_upper-lower [] = refl
has_upper-lower (c ∷ cs) = ground (arith, has_upper-lower cs)

eq_nocase-lower : (cs ds : List ℕ) → eq_nocase (map tolower cs) ds ≡ eq_nocase cs ds
unfolding eq_nocase
eq_nocase-lower [] [] = refl
eq_nocase-lower [] (d ∷ ds) = refl
eq_nocase-lower (c ∷ cs) [] = refl
eq_nocase-lower (c ∷ cs) (d ∷ ds) = rw (tolower_idem c, eq_nocase-lower cs ds)

abbrev lower_pair : List ℕ × List ℕ → List ℕ × List ℕ
lower_pair p = (map tolower p.0, map tolower p.1)

split_colon-lower :
    (cs : List ℕ) → split_colon (map tolower cs) ≡ Option.map lower_pair (split_colon cs)
unfolding split_colon
split_colon-lower [] = refl
split_colon-lower (c ∷ cs) = elim (Bool-cases (c == b':')) [
  | inl e ↦ ground (arith, e)
  | inr e ↦ elim (Option-cases (split_colon cs)) [
    | inl e' ↦ ground (arith, split_colon-lower cs)
    | inr (q, e') ↦ ground (arith, split_colon-lower cs)
  ]
]

payload_of-lower :
    (cs prefix : List ℕ)
    → payload_of (map tolower cs) prefix ≡ Option.map (map tolower) (payload_of cs prefix)
unfolding payload_of
payload_of-lower cs prefix = elim (Option-cases (split_colon cs)) [
  | inl e ↦ ground (arith, split_colon-lower cs)
  | inr (q, e) ↦ ground (arith, split_colon-lower cs, eq_nocase-lower q.0 prefix)
]

consistent-lower : (cs : List ℕ) → case_is_consistent (map tolower cs) ≡ true
unfolding case_is_consistent
consistent-lower cs = ground (arith, has_upper-lower cs)

-- Lower-casing an address whose case is consistent changes nothing: the same outcome, and the same
-- payee.
pub cashaddr_decode_checked-lower :
    (addr prefix : List ℕ)
    → case_is_consistent addr ≡ true
    → cashaddr_decode_checked (map tolower addr) prefix ≡ cashaddr_decode_checked addr prefix
unfolding cashaddr_decode_checked
cashaddr_decode_checked-lower addr prefix h =
    rw (consistent-lower addr, h, payload_of-lower addr prefix)
      (elim (Option-cases (payload_of addr prefix)) [
        | inl e ↦ rw e
        | inr (payload, e) ↦ rw e (decode_payload-lower prefix payload)
      ])

-- A character above 127 behind characters of the alphabet is looked up behind the end of
-- CHARSET_REV, for every payload of an admissible length.
decode_chars-fault :
    (cs vs ds : List ℕ) (c : ℕ)
    → decode_chars cs ≡ ok vs
    → 128 ≤ c
    → decode_chars (cs ++ c ∷ ds) ≡ fault
unfolding decode_chars charset_rev
decode_chars-fault [] vs ds c h big = ground arith
decode_chars-fault (b ∷ cs) vs ds c h big =
    let (v, e, h') = bind_inv (charset_rev b) _ h in
    let (ws, e', _) = bind_inv (decode_chars cs) _ h' in
    rw (e, decode_chars-fault cs ws ds c e' big)

-- The decoder reads behind the end of CHARSET_REV whenever a payload of an admissible length has
-- a character above 127 behind characters of the alphabet, and the address has one case.
pub cashaddr_decode_checked-fault :
    (addr prefix cs vs ds : List ℕ) (c : ℕ)
    → case_is_consistent addr ≡ true
    → payload_of addr prefix ≡ some (cs ++ c ∷ ds)
    → 14 ≤ length (cs ++ c ∷ ds)
    → length (cs ++ c ∷ ds) ≤ 112
    → decode_chars cs ≡ ok vs
    → 128 ≤ c
    → cashaddr_decode_checked addr prefix ≡ fault
unfolding cashaddr_decode_checked decode_payload
cashaddr_decode_checked-fault addr prefix cs vs ds c case e lo hi h big =
    rw (case, e, le→leb 14 _ lo, le→leb _ 112 hi, decode_chars-fault cs vs ds c h big)

split_colon-prefix :
    (cs payload : List ℕ)
    → split_colon cs ≡ none
    → split_colon (cs ++ b':' ∷ payload) ≡ some (cs, payload)
unfolding split_colon
split_colon-prefix [] payload h = refl
split_colon-prefix (c ∷ cs) payload h = elim (Bool-cases (c == b':')) [
  | inl e ↦ ground (arith, e)
  | inr e ↦ elim (Option-cases (split_colon cs)) [
    | inl e' ↦ ground (arith, split_colon-prefix cs payload)
    | inr (q, e') ↦ ground arith
  ]
]

eq_nocase_refl : (cs : List ℕ) → eq_nocase cs cs ≡ true
unfolding eq_nocase
eq_nocase_refl [] = refl
eq_nocase_refl (c ∷ cs) = ground (arith, eq_nocase_refl cs)

has_lower-suffix : (cs ds : List ℕ) → has_lower (cs ++ ds) ≡ has_lower cs || has_lower ds
unfolding has_lower
has_lower-suffix [] ds = refl
has_lower-suffix (c ∷ cs) ds = ground (arith, has_lower-suffix cs ds)

has_upper-suffix : (cs ds : List ℕ) → has_upper (cs ++ ds) ≡ has_upper cs || has_upper ds
unfolding has_upper
has_upper-suffix [] ds = refl
has_upper-suffix (c ∷ cs) ds = ground (arith, has_upper-suffix cs ds)

consistent-suffix :
    (cs ds : List ℕ) → case_is_consistent (cs ++ b':' ∷ ds) ≡ true → case_is_consistent ds ≡ true
unfolding case_is_consistent has_lower has_upper
consistent-suffix cs ds h =
    ground (arith, has_lower-suffix cs (b':' ∷ ds), has_upper-suffix cs (b':' ∷ ds))

payload_of-prefixed :
    (addr prefix left right : List ℕ)
    → split_colon addr ≡ some (left, right)
    → payload_of addr prefix ≡ (if eq_nocase left prefix then some right else none)
unfolding payload_of
payload_of-prefixed addr prefix left right e = ground arith

payload_of-bare :
    (addr prefix : List ℕ) → split_colon addr ≡ none → payload_of addr prefix ≡ some addr
unfolding payload_of
payload_of-bare addr prefix e = ground arith

eq_nocase_trans :
    (cs ds es : List ℕ) → eq_nocase cs ds ≡ true → eq_nocase cs es ≡ true → eq_nocase ds es ≡ true
unfolding eq_nocase
eq_nocase_trans [] [] es h k = k
eq_nocase_trans [] (d ∷ ds) es h k = cc
eq_nocase_trans (c ∷ cs) [] es h k = cc
eq_nocase_trans (c ∷ cs) (d ∷ ds) [] h k = cc
eq_nocase_trans (c ∷ cs) (d ∷ ds) (e ∷ es) h k = ground (arith, eq_nocase_trans cs ds es)

-- The prefix may be left out: where the whole address has one case, "prefix:payload" and the bare
-- payload have the same outcome under that prefix.
pub cashaddr_decode_checked-bare :
    (prefix payload : List ℕ)
    → split_colon prefix ≡ none
    → split_colon payload ≡ none
    → case_is_consistent (prefix ++ b':' ∷ payload) ≡ true
    → cashaddr_decode_checked (prefix ++ b':' ∷ payload) prefix
      ≡ cashaddr_decode_checked payload prefix
unfolding cashaddr_decode_checked
cashaddr_decode_checked-bare prefix payload hp hq case = rw (
  case,
  consistent-suffix prefix payload case,
  payload_of-prefixed _ prefix prefix payload (split_colon-prefix prefix payload hp),
  payload_of-bare payload prefix hq,
  eq_nocase_refl prefix,
)

-- Addresses of different networks are kept apart: an address written with a prefix that is
-- accepted under one expected prefix is rejected under any other that differs in more than case.
pub cashaddr_decode_checked-network :
    (addr left right prefix other : List ℕ) (p : Payee)
    → split_colon addr ≡ some (left, right)
    → cashaddr_decode_checked addr prefix ≡ ok p
    → eq_nocase prefix other ≡ false
    → cashaddr_decode_checked addr other ≡ rejected
cashaddr_decode_checked-network addr left right prefix other p split h differ =
    let found = cashaddr_decode_checked-Accepted addr prefix p h in
    let same =
      matches found.1.0 (sym (payload_of-prefixed addr prefix left right split) ∙ found.1.1) in
    refused found.0 (differs same)
  where
    matches :
        (payload : List ℕ)
        → (if eq_nocase left prefix then some right else none) ≡ some payload
        → eq_nocase left prefix ≡ true
    matches payload e = ground arith

    differs : eq_nocase left prefix ≡ true → eq_nocase left other ≡ false
    differs e = elim (Bool-cases (eq_nocase left other)) [
      | inl e' ↦ absurd (cc (eq_nocase_trans left prefix other e e'))
      | inr e' ↦ e'
    ]

    refused :
        case_is_consistent addr ≡ true
        → eq_nocase left other ≡ false
        → cashaddr_decode_checked addr other ≡ rejected
    refused case e =
        unfold cashaddr_decode_checked in
        rw (case, payload_of-prefixed addr other left right split, e)
