-- ===== src/Coinbase/Headers.antt =====
-- The cached header of generate_coinbase.
use mathlib.Core.List.{append_assoc}
use ckpool.Common.{
  ℕ, zero, suc, ◌-◌, ◌≡◌, refl, sym, ap, ◌∙◌, Bool, List, [], ◌∷◌, ◌++◌, length, length-append,
  take, replicate, take-append, take_le-append, take-append-drop, drop, ◌<◌, length-take, IsBytes,
  All-append, arith,
}
use ckpool.Hex.{bin2hex, hex2bin, hex_digit}
use ckpool.Hex.RoundTrip.{hex2bin-bin2hex}
use ckpool.Hex.Pieces.{take-bin2hex, join_texts}
use ckpool.Coinbase.{
  Fees, Ckp, Scripts, Template, Coinbase, generate_coinbase, header_template, hex_zeros, hex_field,
  workpadding, ok,
}

-- A template's texts are those of the version, the previous hash, the time and the bits.
pub record HasTexts (t : Template) : Type 0 where
  pub version : List ℕ
  pub prevhash : List ℕ
  pub ntime : List ℕ
  pub nbits : List ℕ
  pub version_text : t.bbversion ≡ bin2hex version
  pub prevhash_text : t.prevhash ≡ bin2hex prevhash
  pub ntime_text : t.ntime ≡ bin2hex ntime
  pub nbits_text : t.nbit ≡ bin2hex nbits
  pub version_length : length version ≡ 4
  pub prevhash_length : length prevhash ≡ 32
  pub ntime_length : length ntime ≡ 4
  pub nbits_length : length nbits ≡ 4
  pub IsVersion : IsBytes version
  pub IsPrevhash : IsBytes prevhash
  pub IsNtime : IsBytes ntime
  pub IsNbits : IsBytes nbits

padding : List ℕ
padding = 0 ∷ 0 ∷ 0 ∷ 128 ∷ (replicate 40 0 ++ (128 ∷ 2 ∷ 0 ∷ 0 ∷ []))

zeros_text : hex_zeros 64 ≡ bin2hex (replicate 32 0)
unfolding bin2hex hex_digit
zeros_text = refl

nonce_text : hex_zeros 8 ++ workpadding ≡ bin2hex (replicate 4 0 ++ padding)
unfolding padding bin2hex hex_digit
nonce_text = refl

flat :
    (a b c d e f g : List ℕ)
    → a ++ b ++ c ++ d ++ e ++ f ++ g ≡ a ++ (b ++ (c ++ (d ++ (e ++ (f ++ g)))))
flat a b c d e f g = simp append_assoc

nested_seven :
    (a b c d e f g : List ℕ)
    → a ++ (b ++ (c ++ (d ++ (e ++ (f ++ g))))) ≡ (a ++ (b ++ (c ++ (d ++ (e ++ f))))) ++ g
nested_seven a b c d e f g = simp append_assoc

join-IsBytes : (xs ys : List ℕ) → IsBytes xs → IsBytes ys → IsBytes (xs ++ ys)
join-IsBytes xs ys = All-append (λ b. b < 256) xs ys

zeros-IsBytes : (n : ℕ) → IsBytes (replicate n 0)
zeros-IsBytes zero = tt
zeros-IsBytes (suc n) = (omega arith, zeros-IsBytes n)

take-IsBytes : (n : ℕ) (xs : List ℕ) → IsBytes xs → IsBytes (take n xs)
take-IsBytes zero xs h = tt
take-IsBytes (suc n) [] h = tt
take-IsBytes (suc n) (x ∷ xs) h = (h.0, take-IsBytes n xs h.1)

padding-IsBytes : IsBytes padding
unfolding padding
padding-IsBytes =
    let z : 0 < 256 = omega arith in
    (
      z,
      (
        z,
        (
          z,
          (
            omega arith,
            join-IsBytes (replicate 40 0) (128 ∷ 2 ∷ 0 ∷ 0 ∷ []) (zeros-IsBytes 40)
                (omega arith, (omega arith, (z, (z, tt)))),
          ),
        ),
      ),
    )

module _ (t : Template) (h : HasTexts t) where
  whole : List ℕ
  whole =
      h.version
      ++ (h.prevhash ++ (replicate 32 0 ++ (h.ntime ++ (h.nbits ++ (replicate 4 0 ++ padding)))))

  whole_text :
      t.bbversion ++ t.prevhash ++ hex_zeros 64 ++ t.ntime ++ t.nbit ++ hex_zeros 8 ++ workpadding
      ≡ bin2hex whole
  unfolding whole
  whole_text =
      let nested : t.bbversion
            ++ (t.prevhash
                ++ (hex_zeros 64 ++ (t.ntime ++ (t.nbit ++ (hex_zeros 8 ++ workpadding)))))
          ≡ bin2hex whole =
        join_texts _ _ _ _ h.version_text (
          join_texts _ _ _ _ h.prevhash_text (
            join_texts _ _ _ _ zeros_text
              (join_texts _ _ _ _ h.ntime_text (join_texts _ _ _ _ h.nbits_text nonce_text)))) in
      flat t.bbversion t.prevhash (hex_zeros 64) t.ntime t.nbit (hex_zeros 8) workpadding ∙ nested

  front : List ℕ
  front = h.version ++ (h.prevhash ++ (replicate 32 0 ++ (h.ntime ++ (h.nbits ++ replicate 4 0))))

  front-whole : whole ≡ front ++ padding
  unfolding whole front
  front-whole =
      nested_seven h.version h.prevhash (replicate 32 0) h.ntime h.nbits (replicate 4 0) padding

  length-front : length front ≡ 80
  unfolding front
  length-front =
      let z : List ℕ = replicate 32 0 in
      let o : List ℕ = replicate 4 0 in
      omega (
        arith,
        h.version_length,
        h.prevhash_length,
        h.ntime_length,
        h.nbits_length,
        length-append h.version (h.prevhash ++ (z ++ (h.ntime ++ (h.nbits ++ o)))),
        length-append h.prevhash (z ++ (h.ntime ++ (h.nbits ++ o))),
        length-append h.ntime (h.nbits ++ o),
        length-append h.nbits o,
      )

  whole-IsBytes : IsBytes whole
  unfolding whole
  whole-IsBytes =
      let g = join-IsBytes (replicate 4 0) padding (zeros-IsBytes 4) padding-IsBytes in
      let f = join-IsBytes h.nbits (replicate 4 0 ++ padding) h.IsNbits g in
      let e = join-IsBytes h.ntime (h.nbits ++ (replicate 4 0 ++ padding)) h.IsNtime f in
      let d =
        join-IsBytes (replicate 32 0) (h.ntime ++ (h.nbits ++ (replicate 4 0 ++ padding)))
          (zeros-IsBytes 32) e in
      join-IsBytes h.version
        (h.prevhash ++ (replicate 32 0 ++ (h.ntime ++ (h.nbits ++ (replicate 4 0 ++ padding)))))
        h.IsVersion
        (join-IsBytes h.prevhash
          (replicate 32 0 ++ (h.ntime ++ (h.nbits ++ (replicate 4 0 ++ padding)))) h.IsPrevhash d)

  length-whole : length whole ≡ 128
  unfolding padding
  length-whole =
      let e = ap length front-whole in
      let f = length-append front padding in let g = length-front in omega (arith, e, f, g)

  length-cut : length (take 112 whole) ≡ 112
  length-cut = let a = length-take 112 whole in let b = length-whole in omega (arith, a, b)

  decoded_text : (hex2bin (take 224 (bin2hex whole)) 112).bytes ≡ take 112 whole
  decoded_text =
      ap (λ z. (hex2bin z 112).bytes) (take-bin2hex 112 whole)
      ∙ ap (λ k. (hex2bin (bin2hex (take 112 whole)) k).bytes) (sym length-cut)
      ∙ ap (λ r. r.bytes) (hex2bin-bin2hex (take 112 whole) (take-IsBytes 112 whole whole-IsBytes))

  cut_front : take 80 (take 112 whole) ≡ front
  cut_front =
      let l = length-cut in
      sym (take_le-append 80 (take 112 whole) (drop 112 whole) (omega (arith, l)))
      ∙ ap (take 80) (take-append-drop 112 whole ∙ front-whole)
      ∙ take-append 80 front padding length-front

  header_template-front : take 80 (header_template t) ≡ front
  unfolding header_template hex_field
  header_template-front =
      let l = length-cut in
      ap
        (λ z. take 80 (
          (hex2bin (take 224 z) 112).bytes
          ++ replicate (112 - length (hex2bin (take 224 z) 112).bytes) 0))
        whole_text
      ∙ ap (λ y. take 80 (y ++ replicate (112 - length y) 0)) decoded_text
      ∙ take_le-append 80 (take 112 whole) (replicate (112 - length (take 112 whole)) 0)
          (omega (arith, l))
      ∙ cut_front

-- The first 80 bytes of the header that generate_coinbase leaves.
pub generated-header :
    (F : Fees) (checktxn : List ℕ → Bool) (header : List ℕ) (ckp ckp' : Ckp F) (s : Scripts F)
    (t : Template) (built : Coinbase)
    → generate_coinbase F checktxn header ckp s t ≡ ok (built, ckp')
    → (h : HasTexts t)
    → take 80 built.headerbin
      ≡ h.version ++ (h.prevhash ++ (replicate 32 0 ++ (h.ntime ++ (h.nbits ++ replicate 4 0))))
unfolding generate_coinbase front
generated-header F checktxn header ckp ckp' s t built run h =
    let e : built.headerbin ≡ header_template t = ground (arith, run) in
    ap (take 80) e ∙ header_template-front t h
