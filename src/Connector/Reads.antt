-- ===== src/Connector/Reads.antt =====
-- The reads of a client that is no remote server: no access behind the buffer, and an end.
use mathlib.Core.Path.{subst}
use ckpool.Common.{
  ℕ, zero, suc, ◌+◌, ◌<◌, ◌≤◌, ◌≡◌, ◌≢◌, ◌⊎◌, inl, inr, ◌∙◌, Bool, false, not, ◌&&◌, List, [], ◌∷◌,
  Option, none, some, ltb, ◌==◌, length, take, drop, arith, Bool-cases, Option-cases, All,
  length-take, some_inj,
}
use ckpool.Connector.{
  Client, text, memchr, Verdict, receiving, disconnected, invalid_json, Parsed, stopped, go_on,
  forwarded, reparse, make_room, and_then, after_read, parse_client_msg,
}
use ckpool.Connector.Buffer.{
  IsBuffer, written, write-written, written-IsBuffer, consumed, consume-Consumes,
}

pub memchr_lt : (c : ℕ) (bs : List ℕ) (i : ℕ) → memchr c bs ≡ some i → i < length bs
unfolding memchr
memchr_lt c [] i h = ground (arith, h)
memchr_lt c (b ∷ bs) i h = elim (Bool-cases (b == c)) [
  | inl e ↦ let z : 0 ≡ i = some_inj (ground (arith, e, h)) in omega (arith, z)
  | inr e ↦ elim (Option-cases (memchr c bs)) [
    | inl n ↦ ground (arith, e, n, h)
    | inr (k, s) ↦
        let z : suc k ≡ i = some_inj (ground (arith, e, s, h)) in
        let r = memchr_lt c bs k s in omega (arith, r, z)
  ]
]

pub text_ends :
    (n : ℕ) (buf rest : List ℕ) → drop n buf ≡ 0 ∷ rest → (t : List ℕ) × (text buf ≡ some t)
unfolding text
text_ends zero [] rest h = ground (arith, h)
text_ends zero (b ∷ bs) rest h = ([], let z : b ≡ 0 = ground (arith, h) in ground (arith, z))
text_ends (suc n) [] rest h = ground (arith, h)
text_ends (suc n) (b ∷ bs) rest h =
    let (t, e) = text_ends n bs rest h in
    elim (Bool-cases (b == 0)) [
      | inl z ↦ ([], ground (arith, z))
      | inr z ↦ (b ∷ t, ground (arith, z, e))
    ]

-- A client that is no remote server, with a buffer of a page and at most `limit` bytes in it.
pub record IsReady (limit : ℕ) (c : Client) : Type 0 where
  pub buffer : IsBuffer c.buf
  pub small : c.bufofs ≤ limit
  pub ours : c.remote ≡ false

-- What reparse comes to: an end of the connection, or no line left.
pub data Reparsed {ℓ} {V : Type ℓ} : Parsed V → Type ℓ where
  stops : (v : Verdict) (c : Client) (ms : List V) → v ≢ receiving → Reparsed (stopped v c ms)
  goes_on : (c : Client) (ms : List V) → IsReady 2048 c → Reparsed (go_on c ms)

-- What parse_client_msg comes to: an end of the connection, or a client that waits for more.
pub data Ends {ℓ} {V : Type ℓ} : Parsed V → Type ℓ where
  leaves : (v : Verdict) (c : Client) (ms : List V) → v ≢ receiving → Ends (stopped v c ms)
  waits : (c : Client) (ms : List V) → IsReady 1024 c → Ends (stopped receiving c ms)

pub make_room-ready :
    (realloc_bytes : ℕ → List ℕ) (c : Client)
    → c.remote ≡ false
    → (make_room realloc_bytes c ≡ none)
      ⊎ ((make_room realloc_bytes c ≡ some c) × (c.bufofs ≤ 1024))
unfolding make_room
make_room-ready realloc_bytes c o = elim (Bool-cases (ltb 1024 c.bufofs)) [
  | inl big ↦ inl (ground (arith, big, o))
  | inr fine ↦ inr (ground (arith, fine), ground (arith, fine))
]

module _ {ℓ} {V : Type ℓ} (json_loads : List ℕ → Option V) (with_keys : V → V)
    (realloc_bytes : ℕ → List ℕ) (blocked : Bool) where
  reparse-Reparsed :
      (n : ℕ) (c : Client) (ms : List V)
      → IsReady 2048 c
      → c.bufofs < n
      → Reparsed (reparse json_loads with_keys n c ms)
  unfolding reparse
  reparse-Reparsed zero c ms r enough = absurd (omega (arith, enough))
  reparse-Reparsed (suc n) c ms r enough = elim (Option-cases (memchr 10 (take c.bufofs c.buf))) [
    | inl nl ↦ subst Reparsed (ground (arith, nl)) (goes_on c ms r)
    | inr (eol, found) ↦ elim (Bool-cases (ltb 1024 (eol + 1) && not c.remote)) [
      | inl big ↦ subst Reparsed (ground (arith, found, big)) (stops disconnected c ms (λ e. cc))
      | inr fine ↦
          let b = r.buffer in
          let (t, is_text) = text_ends 2048 c.buf b.rest b.ends in
          elim (Option-cases (json_loads t)) [
            | inl bad ↦
                subst Reparsed (ground (arith, found, fine, is_text, bad))
                  (stops invalid_json c ms (λ e. cc))
            | inr (v, good) ↦
                let len = memchr_lt 10 (take c.bufofs c.buf) eol found in
                let live = length-take c.bufofs c.buf in
                let fits : eol + 1 ≤ c.bufofs = omega (arith, len, live) in
                let d = consumed (eol + 1) c b r.small fits (omega arith) in
                let k = consume-Consumes (eol + 1) c b r.small fits (omega arith) in
                let less = k.less in
                let done = k.done in
                let ms' = forwarded json_loads with_keys c v ms in
                let ready : IsReady 2048 d = record {
                  buffer = k.buffer;
                  small = let s = r.small in omega (arith, less, s);
                  ours = k.same_remote ∙ r.ours;
                } in
                elim (Bool-cases (d.bufofs == 0)) [
                  | inl z ↦
                      subst Reparsed (ground (arith, found, fine, is_text, good, done, z))
                        (goes_on d ms' ready)
                  | inr z ↦
                      subst Reparsed (ground (arith, found, fine, is_text, good, done, z))
                        (reparse-Reparsed n d ms' ready (omega (arith, less, enough, fits)))
                ]
          ]
    ]
  ]

  after_read-Reparsed :
      (x : List ℕ) (c : Client) (ms : List V)
      → length x ≤ 1024
      → c.bufofs ≤ 1024
      → IsReady 2048 c
      → Reparsed (after_read json_loads with_keys realloc_bytes blocked x c ms)
  unfolding after_read
  after_read-Reparsed x c ms small le r =
      let s = r.buffer.size in
      let room : c.bufofs + length x ≤ length c.buf = omega (arith, small, le, s) in
      let w = write-written c.bufofs x c.buf room in
      let d : Client = record c { buf = written c.bufofs x c.buf; bufofs = c.bufofs + length x } in
      subst Reparsed (ground (arith, w)) (
        reparse-Reparsed (c.bufofs + length x + 1) d ms
          (record {
            buffer = written-IsBuffer c.bufofs x c.buf (omega (arith, small, le)) r.buffer;
            small = omega (arith, small, le);
            ours = r.ours;
          })
          (omega arith))

  and_then-Ends :
      (p : Parsed V) (f : Client → List V → Parsed V)
      → Reparsed p
      → ((c : Client) (ms : List V) → IsReady 2048 c → Ends (f c ms))
      → Ends (and_then p f)
  unfolding and_then
  and_then-Ends _ f (stops v c ms ne) h = leaves v c ms ne
  and_then-Ends _ f (goes_on c ms r) h = h c ms r

  -- However the bytes of a client that is no remote server arrive, in reads of at most 1024 bytes, and
  -- whatever json_loads makes of them: parse_client_msg ends within the fuel it has and reads and
  -- writes nothing behind the buffer. A client that it keeps has at most 1024 bytes left in it.
  pub parse_client_msg-Ends :
      (rs : List (List ℕ)) (c : Client) (ms : List V)
      → All (λ r. length r ≤ 1024) rs
      → IsReady 2048 c
      → Ends (parse_client_msg json_loads with_keys realloc_bytes blocked rs c ms)
  unfolding parse_client_msg
  parse_client_msg-Ends [] c ms small r = elim (make_room-ready realloc_bytes c r.ours) [
    | inl full ↦ subst Ends (ground (arith, full)) (leaves disconnected c ms (λ e. cc))
    | inr (room, le) ↦ elim (Bool-cases blocked) [
      | inl b ↦
          subst Ends (ground (arith, room, b))
            (waits c ms (record { buffer = r.buffer; small = le; ours = r.ours }))
      | inr b ↦ subst Ends (ground (arith, room, b)) (leaves disconnected c ms (λ e. cc))
    ]
  ]
  parse_client_msg-Ends (x ∷ rs) c ms small r = elim (make_room-ready realloc_bytes c r.ours) [
    | inl full ↦ subst Ends (ground (arith, full)) (leaves disconnected c ms (λ e. cc))
    | inr (room, le) ↦ subst Ends (ground (arith, room)) (
        and_then-Ends (after_read json_loads with_keys realloc_bytes blocked x c ms)
          (λ d ms'. parse_client_msg json_loads with_keys realloc_bytes blocked rs d ms')
          (after_read-Reparsed x c ms small.0 le r)
          (λ d ms' k. parse_client_msg-Ends rs d ms' small.1 k))
  ]
