-- ===== src/Connector/Buffer.antt =====
-- The buffer of a client: what writes leave of it.
use mathlib.Core.List.{append_assoc}
use ckpool.Common.{
  ℕ, ◌+◌, ◌-◌, ◌<◌, ◌≤◌, ◌≡◌, refl, sym, ap, ◌∙◌, List, [], ◌∷◌, ◌++◌, some, length, take, drop,
  arith, length-append, length-take, length-drop, take-append, drop-append, drop_add, drop-take,
}
use ckpool.Connector.{Client, write, consume}

pub written : ℕ → List ℕ → List ℕ → List ℕ
written ofs bytes buf = take ofs buf ++ (bytes ++ drop (ofs + length bytes) buf)

module _ (ofs : ℕ) (bytes buf : List ℕ) (fits : ofs + length bytes ≤ length buf) where
  pub write-written : write ofs bytes buf ≡ some (written ofs bytes buf)
  unfolding write written
  write-written = ground (arith, fits)

  front : length (take ofs buf) ≡ ofs
  front = omega (arith, fits, length-take ofs buf)

  pub length-written : length (written ofs bytes buf) ≡ length buf
  unfolding written
  length-written =
      let rest = drop (ofs + length bytes) buf in
      let a = length-append (take ofs buf) (bytes ++ rest) in
      let b = length-append bytes rest in
      let d = length-drop (ofs + length bytes) buf in
      let f = front in omega (arith, fits, a, b, d, f)

  split : written ofs bytes buf ≡ (take ofs buf ++ bytes) ++ drop (ofs + length bytes) buf
  unfolding written
  split = sym (append_assoc (take ofs buf) bytes (drop (ofs + length bytes) buf))

  end : length (take ofs buf ++ bytes) ≡ ofs + length bytes
  end = let a = length-append (take ofs buf) bytes in let f = front in omega (arith, a, f)

  pub take-written : take (ofs + length bytes) (written ofs bytes buf) ≡ take ofs buf ++ bytes
  take-written =
      ap (take (ofs + length bytes)) split
      ∙ take-append (ofs + length bytes) (take ofs buf ++ bytes) (drop (ofs + length bytes) buf) end

  pub take_before-written : take ofs (written ofs bytes buf) ≡ take ofs buf
  unfolding written
  take_before-written =
      take-append ofs (take ofs buf) (bytes ++ drop (ofs + length bytes) buf) front

  pub drop-written : (m : ℕ) → ofs + length bytes ≤ m → drop m (written ofs bytes buf) ≡ drop m buf
  drop-written m h =
      let n = ofs + length bytes in
      let k : n + (m - n) ≡ m = omega (arith, h) in
      ap (λ i. drop i (written ofs bytes buf)) (sym k)
      ∙ drop_add n (m - n) (written ofs bytes buf)
      ∙ ap (drop (m - n))
          (ap (drop n) split ∙ drop-append n (take ofs buf ++ bytes) (drop n buf) end)
      ∙ sym (drop_add n (m - n) buf)
      ∙ ap (λ i. drop i buf) k

-- A buffer of a page, with a byte that ends any string behind its first half.
pub record IsBuffer (buf : List ℕ) : Type 0 where
  pub size : length buf ≡ 4096
  pub rest : List ℕ
  pub ends : drop 2048 buf ≡ 0 ∷ rest

pub written-IsBuffer :
    (ofs : ℕ) (bytes buf : List ℕ)
    → ofs + length bytes ≤ 2048
    → IsBuffer buf
    → IsBuffer (written ofs bytes buf)
written-IsBuffer ofs bytes buf h b =
    let s = b.size in
    let fits : ofs + length bytes ≤ length buf = omega (arith, h, s) in
    record {
      size = length-written ofs bytes buf fits ∙ s;
      rest = b.rest;
      ends = drop-written ofs bytes buf fits 2048 h ∙ b.ends;
    }

-- The bytes behind a message move to the front.
pub record Consumes (buflen : ℕ) (c c' : Client) : Type 0 where
  pub done : consume buflen c ≡ some c'
  pub buffer : IsBuffer c'.buf
  pub less : c'.bufofs ≡ c.bufofs - buflen
  pub live : take c'.bufofs c'.buf ≡ drop buflen (take c.bufofs c.buf)
  pub same_remote : c'.remote ≡ c.remote
  pub same_invalid : c'.invalid ≡ c.invalid

module _ (buflen : ℕ) (c : Client) (b : IsBuffer c.buf) (small : c.bufofs ≤ 2048)
    (fits : buflen ≤ c.bufofs) (pos : 0 < buflen) where
  ofs : ℕ
  ofs = c.bufofs - buflen

  moved : List ℕ
  moved = take ofs (drop buflen c.buf)

  length-moved : length moved ≡ ofs
  unfolding moved ofs
  length-moved =
      let t = length-take ofs (drop buflen c.buf) in
      let d = length-drop buflen c.buf in let s = b.size in omega (arith, t, d, s, small, fits)

  first : List ℕ
  first = written 0 moved c.buf

  first-IsBuffer : IsBuffer first
  unfolding first ofs
  first-IsBuffer =
      written-IsBuffer 0 moved c.buf (let l = length-moved in omega (arith, l, small)) b

  pub consumed : Client
  consumed = record c { buf = written ofs (0 ∷ []) first; bufofs = ofs }

  pub consume-Consumes : Consumes buflen c consumed
  unfolding consume consumed first ofs moved
  consume-Consumes =
      let l = length-moved in
      let s = b.size in
      let fb = first-IsBuffer in
      let fs = fb.size in
      let w0 = write-written 0 moved c.buf (omega (arith, l, s, small)) in
      let room : ofs + 1 ≤ length first = omega (arith, fs, small) in
      let w1 = write-written ofs (0 ∷ []) first room in
      record {
        done = ground (arith, w0, w1);
        buffer = written-IsBuffer ofs (0 ∷ []) first (omega (arith, small, fits, pos)) fb;
        less = refl;
        live =
            take_before-written ofs (0 ∷ []) first room
            ∙ ap (λ k. take k first) (omega (arith, l))
            ∙ take-written 0 moved c.buf (omega (arith, l, s, small))
            ∙ sym (drop-take buflen ofs c.buf (omega (arith, fits, small, s)))
            ∙ ap (λ k. drop buflen (take k c.buf)) (omega (arith, fits));
        same_remote = refl;
        same_invalid = refl;
      }
