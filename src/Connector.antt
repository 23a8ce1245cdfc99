-- ===== src/Connector.antt =====
-- The lines that src/connector.c reads from a client: parse_client_msg, outside passthrough and
-- redirector mode. The reads are the bytes that read gives, at most MAX_MSGSIZE at a time, and
-- whether the last one finds none for now (or fails); json_loads of jansson and the keys that are
-- set in a message are parameters, and so are the bytes that realloc adds.
pub mod Buffer
pub mod Reads
pub mod Frames
pub mod Lines
mod Tests
use ckpool.Common.{
  ℕ, zero, suc, ◌+◌, ◌-◌, ◌%◌, Bool, true, false, not, ◌&&◌, List, [], ◌∷◌, ◌++◌, Option, none,
  some, ltb, leb, ◌==◌, if◌then◌else◌, length, take, drop,
}

abbrev pub max_msgsize : ℕ
max_msgsize = 1024

abbrev pub page_size : ℕ
page_size = 4096

pub round_up_page : ℕ → ℕ
round_up_page len = if len % page_size == 0 then len else len + (page_size - len % page_size)

pub record Client : Type 0 where
  pub buf : List ℕ
  pub bufofs : ℕ
  pub remote : Bool
  pub invalid : Bool

-- Bytes put into a buffer, at an offset.
pub write : ℕ → List ℕ → List ℕ → Option (List ℕ)
write ofs bytes buf =
    if leb (ofs + length bytes) (length buf)
    then some (take ofs buf ++ (bytes ++ drop (ofs + length bytes) buf))
    else none

pub memchr : ℕ → List ℕ → Option ℕ
memchr c [] = none
memchr c (b ∷ bs) =
    if b == c then some 0 else elim (memchr c bs) [ none ↦ none | some i ↦ some (suc i) ]

-- The C string at the start of a buffer, nothing where no byte ends it.
pub text : List ℕ → Option (List ℕ)
text [] = none
text (b ∷ bs) = if b == 0 then some [] else elim (text bs) [ none ↦ none | some t ↦ some (b ∷ t) ]

-- The bytes of a message leave the buffer.
pub consume : ℕ → Client → Option Client
consume buflen c =
    let ofs = c.bufofs - buflen in
    elim (write 0 (take ofs (drop buflen c.buf)) c.buf) [
      | none ↦ none
      | some b ↦ elim (write ofs (0 ∷ []) b) [
        | none ↦ none
        | some b' ↦ some (record c { buf = b'; bufofs = ofs })
      ]
    ]

-- Whether the client is kept, and whether it is told that its message is no JSON.
pub data Verdict : Type 0 where
  receiving : Verdict
  disconnected : Verdict
  invalid_json : Verdict

-- `overrun` is a read or a write behind the end of the buffer, `unfinished` is lack of fuel.
pub data Parsed {ℓ} (V : Type ℓ) : Type ℓ where
  overrun : Parsed V
  unfinished : Parsed V
  stopped : Verdict → Client → List V → Parsed V
  go_on : Client → List V → Parsed V

-- The test of the buffer before a read.
module _ (realloc_bytes : ℕ → List ℕ) where
  pub grown : Client → Client
  grown c =
      let size = round_up_page (c.bufofs + max_msgsize + 1) in
      record c { buf = take size c.buf ++ realloc_bytes (size - length c.buf) }

  pub make_room : Client → Option Client
  make_room c =
      if ltb max_msgsize c.bufofs then (if not c.remote then none else some (grown c)) else some c

module _ {ℓ} {V : Type ℓ} where
  pub and_then : Parsed V → (Client → List V → Parsed V) → Parsed V
  and_then overrun f = overrun
  and_then unfinished f = unfinished
  and_then (stopped v c ms) f = stopped v c ms
  and_then (go_on c ms) f = f c ms

module _ {ℓ} {V : Type ℓ} (json_loads : List ℕ → Option V) (with_keys : V → V) where
  pub forwarded : Client → V → List V → List V
  forwarded c v ms = if c.invalid then ms else ms ++ (with_keys v ∷ [])

  -- From `reparse` on, with fuel, until no line is left.
  pub reparse : ℕ → Client → List V → Parsed V
  reparse zero c ms = unfinished
  reparse (suc n) c ms = elim (memchr 10 (take c.bufofs c.buf)) [
    | none ↦ go_on c ms
    | some eol ↦
        if ltb max_msgsize (eol + 1) && not c.remote
        then stopped disconnected c ms
        else elim (text c.buf) [
          | none ↦ overrun
          | some t ↦ elim (json_loads t) [
            | none ↦ stopped invalid_json c ms
            | some v ↦ elim (consume (eol + 1) c) [
              | none ↦ overrun
              | some c' ↦
                  let rest = reparse n c' (forwarded c v ms) in
                  if c'.bufofs == 0 then go_on c' (forwarded c v ms) else rest
            ]
          ]
        ]
  ]

module _ {ℓ} {V : Type ℓ} (json_loads : List ℕ → Option V) (with_keys : V → V)
    (realloc_bytes : ℕ → List ℕ) (blocked : Bool) where
  -- A read into the buffer, and the lines that are in it then.
  pub after_read : List ℕ → Client → List V → Parsed V
  after_read r c ms = elim (write c.bufofs r c.buf) [
    | none ↦ overrun
    | some b ↦
        reparse json_loads with_keys (c.bufofs + length r + 1)
          (record c { buf = b; bufofs = c.bufofs + length r }) ms
  ]

  pub parse_client_msg : List (List ℕ) → Client → List V → Parsed V
  parse_client_msg [] c ms = elim (make_room realloc_bytes c) [
    | none ↦ stopped disconnected c ms
    | some c' ↦ stopped (if blocked then receiving else disconnected) c' ms
  ]
  parse_client_msg (r ∷ rs) c ms = elim (make_room realloc_bytes c) [
    | none ↦ stopped disconnected c ms
    | some c' ↦ and_then (after_read r c' ms) (λ d ms'. parse_client_msg rs d ms')
  ]
