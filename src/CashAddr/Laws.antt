-- ===== src/CashAddr/Laws.antt =====
-- What the decoder accepts, and what it says of it.
use ckpool.Common.{
  ℕ, ◌+◌, ◌-◌, ◌/◌, ◌≡◌, refl, Bool, true, false, ◌&&◌, List, [], ◌∷◌, leb, ◌==◌, if◌then◌else◌,
  take, length, arith, Option, none, some, ==_iff, length-take,
}
use mathlib.Core.Path.{subst}
use ckpool.CashAddr.{
  Result, ok, rejected, fault, ◌>>=◌, ◌>>◌, require, or_reject, charset_rev, polymod,
  checksum_input, convert_bits_5to8, Payee, parse_version, decode_chars, decode_payload,
  cashaddr_decode_checked, payload_of, case_is_consistent,
}
use ckpool.CashAddr.Bits.{Regrouped, convert_bits_5to8_iff}

pub bind_inv {ℓ κ} :
    {X : Type ℓ} {Y : Type κ} (first : Result X) (next : X → Result Y) {y : Y}
    → (first >>= next ≡ ok y)
    → (x : X) × (first ≡ ok x) × (next x ≡ ok y)
bind_inv fault next never = cc
bind_inv rejected next never = cc
bind_inv (ok x) next done = (x, refl, done)

require_inv {ℓ} :
    {B : Type ℓ} (t : Bool) (m : Result B) {b : B}
    → (require t >> m) ≡ ok b
    → (t ≡ true) × (m ≡ ok b)
require_inv true m h = (refl, h)
require_inv false m h = cc

or_reject_inv {ℓ} : {A : Type ℓ} (o : Option A) {a : A} → or_reject o ≡ ok a → o ≡ some a
or_reject_inv none h = cc
or_reject_inv (some b) h = cc

-- What an accepted payload looks like: 34 characters that regroup to a version byte and the
-- hash160, with eight more that make the checksum come out.
pub record Accepted (prefix payload : List ℕ) (p : Payee) : Type 0 where
  pub values : List ℕ
  pub chars : decode_chars payload ≡ ok values
  pub size : length payload ≡ 42
  pub checksum : polymod (checksum_input prefix values) ≡ 1
  pub version : ℕ
  pub regrouped : Regrouped (take 34 values) (version ∷ p.hash160)
  pub hash_size : length p.hash160 ≡ 20
  pub kind : version / 8 ≡ (if p.is_p2sh then 1 else 0)

length-decode_chars : (cs vs : List ℕ) → decode_chars cs ≡ ok vs → length vs ≡ length cs
unfolding decode_chars
length-decode_chars [] vs h = ground arith
length-decode_chars (c ∷ cs) vs h =
    let (v, e, h') = bind_inv (charset_rev c) _ h in
    let (ws, e', h'') = bind_inv (decode_chars cs) _ h' in
    ground (arith, h'', length-decode_chars cs ws e')

parse_version_inv :
    (decoded : List ℕ) (p : Payee)
    → parse_version decoded ≡ ok p
    → (version : ℕ) × (decoded ≡ version ∷ p.hash160)
      × (length p.hash160 ≡ 20)
      × (version / 8 ≡ (if p.is_p2sh then 1 else 0))
unfolding parse_version
parse_version_inv [] p h = cc
parse_version_inv (version ∷ hash) p h = (version, ground arith, ground arith, ground arith)

-- Twenty-one bytes come from 34 five-bit values and no other number of them.
Regrouped-size :
    (values : List ℕ) (version : ℕ) (hash : List ℕ)
    → length hash ≡ 20
    → Regrouped (take (length values - 8) values) (version ∷ hash)
    → length values ≡ 42
Regrouped-size values version hash h g =
    omega (arith, g.same_length, g.pad_few, length-take (length values - 8) values)

accept :
    (prefix payload values decoded : List ℕ) (p : Payee) (version : ℕ)
    → decode_chars payload ≡ ok values
    → polymod (checksum_input prefix values) ≡ 1
    → convert_bits_5to8 (take (length values - 8) values) ≡ some decoded
    → decoded ≡ version ∷ p.hash160
    → length p.hash160 ≡ 20
    → version / 8 ≡ (if p.is_p2sh then 1 else 0)
    → Accepted prefix payload p
accept prefix payload values decoded p version chars sum conv shape size kind =
    let g : Regrouped (take (length values - 8) values) (version ∷ p.hash160) =
      rw shape at ((convert_bits_5to8_iff _ decoded).0 conv) in
    let n : length values ≡ 42 = Regrouped-size values version p.hash160 size g in
    record {
      values = values;
      chars = chars;
      size = omega (arith, n, length-decode_chars payload values chars);
      checksum = sum;
      version = version;
      regrouped = subst (λ k. Regrouped (take (k - 8) values) (version ∷ p.hash160)) n g;
      hash_size = size;
      kind = kind;
    }

decode_payload_inv :
    (prefix payload : List ℕ) (p : Payee)
    → decode_payload prefix payload ≡ ok p
    → Accepted prefix payload p
unfolding decode_payload
decode_payload_inv prefix payload p h =
    let (_, h1) = require_inv (leb 14 (length payload) && leb (length payload) 112) _ h in
    let (values, chars, h2) = bind_inv (decode_chars payload) _ h1 in
    let (_, h3) = require_inv (leb (length prefix + 1 + length values) 133) _ h2 in
    let (sum, h4) = require_inv (polymod (checksum_input prefix values) == 1) _ h3 in
    let (decoded, conv, h5) =
      bind_inv (or_reject (convert_bits_5to8 (take (length values - 8) values))) _ h4 in
    let (version, shape, size, kind) = parse_version_inv decoded p h5 in
    accept prefix payload values decoded p version chars ((==_iff _ 1).0 sum) (or_reject_inv _ conv)
      shape size kind

-- An address that the decoder accepts has a payload of exactly 42 characters with a checksum that
-- comes out under the expected prefix; its first 34 characters regroup to a version byte below 16
-- and the 20 bytes returned, and the version says whether they are a script's.
pub cashaddr_decode_checked-Accepted :
    (addr prefix : List ℕ) (p : Payee)
    → cashaddr_decode_checked addr prefix ≡ ok p
    → (case_is_consistent addr ≡ true)
      × ((payload : List ℕ) × (payload_of addr prefix ≡ some payload) × Accepted prefix payload p)
unfolding cashaddr_decode_checked
cashaddr_decode_checked-Accepted addr prefix p h =
    let (case, h1) = require_inv (case_is_consistent addr) _ h in
    let (payload, e, h2) = bind_inv (or_reject (payload_of addr prefix)) _ h1 in
    (case, (payload, or_reject_inv _ e, decode_payload_inv prefix payload p h2))
