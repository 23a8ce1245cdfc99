-- ===== src/Connector/Lines.antt =====
-- What parse_client_msg forwards of a stream of lines that json_loads reads.
use mathlib.Core.Path.{subst}
use mathlib.Core.List.{append_assoc, append-nil}
use ckpool.Common.{
  ℕ, zero, suc, ◌+◌, ◌<◌, ◌≤◌, ◌≡◌, inl, inr, refl, sym, ap, ◌∙◌, Bool, true, false, not, ◌&&◌,
  List, [], ◌∷◌, ◌++◌, map, Option, none, some, ltb, ◌==◌, if◌then◌else◌, length, take, drop, arith,
  Bool-cases, Option-cases, All, length-take, take-append-drop,
}
use ckpool.Connector.{
  Client, text, memchr, consume, receiving, disconnected, Parsed, stopped, go_on, forwarded,
  reparse, make_room, and_then, after_read, parse_client_msg,
}
use ckpool.Connector.Buffer.{
  written, write-written, written-IsBuffer, take-written, consumed, consume-Consumes,
}
use ckpool.Connector.Reads.{memchr_lt, text_ends, IsReady}
use ckpool.Connector.Frames.{
  frames, joined, frames-append, frames-none, frames-some, frames_front, first_line, text-front,
}

zero_of : (n : ℕ) → n == 0 ≡ true → n ≡ 0
zero_of n h = ground (arith, h)

make_room_fits :
    (realloc_bytes : ℕ → List ℕ) (c : Client) → c.bufofs ≤ 1024 → make_room realloc_bytes c ≡ some c
unfolding make_room
make_room_fits realloc_bytes c le = ground (arith, le)

module _ {ℓ κ} {A : Type ℓ} (P : A → Type κ) where
  All-front : (xs ys : List A) → All P (xs ++ ys) → All P xs
  All-front [] ys h = tt
  All-front (x ∷ xs) ys h = (h.0, All-front xs ys h.1)

  All-back : (xs ys : List A) → All P (xs ++ ys) → All P ys
  All-back [] ys h = h
  All-back (x ∷ xs) ys h = All-back xs ys h.1

small_test : (n : ℕ) (b : Bool) → n ≤ 1024 → ltb 1024 n && b ≡ false
small_test n b h = ground (arith, h)

module _ {ℓ} {V : Type ℓ} (json_loads : List ℕ → Option V) (value : List ℕ → V) where
  -- A line that fits a message, has no byte that ends a string, and is read whatever comes behind it.
  pub record IsServed (l : List ℕ) : Type ℓ where
    pub short : length l ≤ 1024
    pub no_end : All (λ b. 0 < b) l
    pub parsed : (x : List ℕ) → json_loads (l ++ x) ≡ some (value l)

  module _ (with_keys : V → V) where
    pub messages : List (List ℕ) → List V
    messages ls = map (λ l. with_keys (value l)) ls

    -- What reparse does with the bytes that are in the buffer.
    record Serves (bytes : List ℕ) (ms : List V) (p : Parsed V) : Type ℓ where
      client : Client
      result : p ≡ go_on client (ms ++ messages (frames [] bytes).0)
      ready : IsReady 2048 client
      valid : client.invalid ≡ false
      live : take client.bufofs client.buf ≡ (frames [] bytes).1
      partial : frames [] (frames [] bytes).1 ≡ ([], (frames [] bytes).1)

    none-Serves :
        (bytes : List ℕ) (c : Client) (ms : List V)
        → memchr 10 bytes ≡ none
        → IsReady 2048 c
        → c.invalid ≡ false
        → take c.bufofs c.buf ≡ bytes
        → Serves bytes ms (go_on c ms)
    unfolding messages
    none-Serves bytes c ms nl r v l =
        let e : frames [] bytes ≡ ([], bytes) = frames-none [] bytes nl in
        let m : messages (frames [] bytes).0 ≡ [] = ap (λ z. messages z.0) e in
        record {
          client = c;
          result = ap (go_on c) (sym (append-nil ms) ∙ ap (λ z. ms ++ z) (sym m));
          ready = r;
          valid = v;
          live = l ∙ ap (λ z. z.1) (sym e);
          partial = subst (λ (z : List ℕ). frames [] z ≡ ([], z)) (ap (λ z. z.1) (sym e)) e;
        }

    line-Serves :
        (l bytes rest : List ℕ) (ms : List V) (p : Parsed V)
        → frames [] bytes ≡ (l ∷ (frames [] rest).0, (frames [] rest).1)
        → Serves rest (ms ++ (with_keys (value l) ∷ [])) p
        → Serves bytes ms p
    unfolding messages
    line-Serves l bytes rest ms p e s =
        let same : (frames [] rest).1 ≡ (frames [] bytes).1 = ap (λ z. z.1) (sym e) in
        record {
          client = s.client;
          result =
              s.result
              ∙ ap (go_on s.client) (
                  append_assoc ms (with_keys (value l) ∷ []) (messages (frames [] rest).0)
                  ∙ ap (λ z. ms ++ messages z.0) (sym e));
          ready = s.ready;
          valid = s.valid;
          live = s.live ∙ same;
          partial = subst (λ (z : List ℕ). frames [] z ≡ ([], z)) same s.partial;
        }

    -- The test and the parsing of the first line in the buffer.
    record Reads (c : Client) (eol : ℕ) (l : List ℕ) : Type ℓ where
      fits : eol + 1 ≤ c.bufofs
      kept_test : ltb 1024 (eol + 1) && not c.remote ≡ false
      string : List ℕ
      is_text : text c.buf ≡ some string
      is_value : json_loads string ≡ some (value l)

    line-Reads :
        (c : Client) (eol : ℕ)
        → IsReady 2048 c
        → memchr 10 (take c.bufofs c.buf) ≡ some eol
        → IsServed (take (suc eol) (take c.bufofs c.buf))
        → Reads c eol (take (suc eol) (take c.bufofs c.buf))
    line-Reads c eol r found s =
        let live = take c.bufofs c.buf in
        let l = take (suc eol) live in
        let b = r.buffer in
        let lt = memchr_lt 10 live eol found in
        let n = length-take c.bufofs c.buf in
        let k = length-take (suc eol) live in
        let short = s.short in
        let (t, is_text) = text_ends 2048 c.buf b.rest b.ends in
        let y = drop (suc eol) live ++ drop c.bufofs c.buf in
        let whole : c.buf ≡ l ++ y =
          sym (take-append-drop c.bufofs c.buf)
          ∙ ap (λ z. z ++ drop c.bufofs c.buf) (sym (take-append-drop (suc eol) live))
          ∙ append_assoc l (drop (suc eol) live) (drop c.bufofs c.buf) in
        let (u, e) = text-front l y t s.no_end (ap text (sym whole) ∙ is_text) in
        record {
          fits = omega (arith, lt, n);
          kept_test = small_test (eol + 1) (not c.remote) (omega (arith, short, k, lt));
          string = t;
          is_text = is_text;
          is_value = ap json_loads e ∙ s.parsed u;
        }

    reparse_line :
        (n : ℕ) (c d : Client) (ms : List V) (eol : ℕ) (t : List ℕ) (v : V)
        → memchr 10 (take c.bufofs c.buf) ≡ some eol
        → ltb 1024 (eol + 1) && not c.remote ≡ false
        → text c.buf ≡ some t
        → json_loads t ≡ some v
        → consume (eol + 1) c ≡ some d
        → reparse json_loads with_keys (suc n) c ms ≡ (
            if d.bufofs == 0
            then go_on d (forwarded json_loads with_keys c v ms)
            else reparse json_loads with_keys n d (forwarded json_loads with_keys c v ms))
    unfolding reparse
    reparse_line n c d ms eol t v found test is_text is_value done =
        ground (arith, found, test, is_text, is_value, done)

    rest-Serves :
        (n : ℕ) (c : Client) (ms : List V) (eol : ℕ)
        → IsReady 2048 c
        → c.bufofs < suc n
        → c.invalid ≡ false
        → memchr 10 (take c.bufofs c.buf) ≡ some eol
        → Reads c eol (take (suc eol) (take c.bufofs c.buf))
        → All IsServed (frames [] (drop (suc eol) (take c.bufofs c.buf))).0
        → ((d : Client) (ms' : List V)
            → IsReady 2048 d
            → d.bufofs < n
            → d.invalid ≡ false
            → All IsServed (frames [] (take d.bufofs d.buf)).0
            → Serves (take d.bufofs d.buf) ms' (reparse json_loads with_keys n d ms'))
        → Serves
            (drop (suc eol) (take c.bufofs c.buf))
            (ms ++ (with_keys (value (take (suc eol) (take c.bufofs c.buf))) ∷ []))
            (reparse json_loads with_keys (suc n) c ms)
    unfolding forwarded memchr
    rest-Serves n c ms eol r enough valid found k s again =
        let l = take (suc eol) (take c.bufofs c.buf) in
        let rest = drop (suc eol) (take c.bufofs c.buf) in
        let ms' = ms ++ (with_keys (value l) ∷ []) in
        let d = consumed (eol + 1) c r.buffer r.small k.fits (omega arith) in
        let q = consume-Consumes (eol + 1) c r.buffer r.small k.fits (omega arith) in
        let less = q.less in
        let fits = k.fits in
        let one : eol + 1 ≡ suc eol = omega arith in
        let live : take d.bufofs d.buf ≡ rest =
          q.live ∙ ap (λ i. drop i (take c.bufofs c.buf)) one in
        let ready : IsReady 2048 d = record {
          buffer = q.buffer;
          small = let small = r.small in omega (arith, less, small);
          ours = q.same_remote ∙ r.ours;
        } in
        let vd : d.invalid ≡ false = q.same_invalid ∙ valid in
        let f : forwarded json_loads with_keys c (value l) ms ≡ ms' = ground (arith, valid) in
        let one_line =
          reparse_line n c d ms eol k.string (value l) found k.kept_test k.is_text k.is_value
            q.done in
        elim (Bool-cases (d.bufofs == 0)) [
          | inl z ↦
              let zero_ofs = zero_of d.bufofs z in
              let empty : rest ≡ [] = sym live ∙ ap (λ i. take i d.buf) zero_ofs in
              subst (Serves rest ms') (sym (one_line ∙ ground (arith, z, f)))
                (none-Serves rest d ms' (ap (memchr 10) empty) ready vd live)
          | inr z ↦
              let s' = subst (λ (w : List ℕ). All IsServed (frames [] w).0) (sym live) s in
              subst (Serves rest ms') (sym (one_line ∙ ground (arith, z, f))) (
                subst (λ (w : List ℕ). Serves w ms' (reparse json_loads with_keys n d ms')) live
                  (again d ms' ready (omega (arith, less, fits, enough)) vd s'))
        ]

    reparse-Serves :
        (n : ℕ) (c : Client) (ms : List V)
        → IsReady 2048 c
        → c.bufofs < n
        → c.invalid ≡ false
        → All IsServed (frames [] (take c.bufofs c.buf)).0
        → Serves (take c.bufofs c.buf) ms (reparse json_loads with_keys n c ms)
    unfolding reparse
    reparse-Serves zero c ms r enough valid s = absurd (omega (arith, enough))
    reparse-Serves (suc n) c ms r enough valid s =
        let live = take c.bufofs c.buf in
        elim (Option-cases (memchr 10 live)) [
          | inl nl ↦
              subst (Serves live ms) (ground (arith, nl)) (none-Serves live c ms nl r valid refl)
          | inr (eol, found) ↦
              let l = take (suc eol) live in
              let rest = drop (suc eol) live in
              let e : frames [] live ≡ first_line [] live eol = frames-some [] live eol found in
              let served = subst (λ (z : List (List ℕ) × List ℕ). All IsServed z.0) e s in
              line-Serves l live rest ms (reparse json_loads with_keys (suc n) c ms) e (
                rest-Serves n c ms eol r enough valid found (line-Reads c eol r found served.0)
                  served.1 (λ d ms' h lt v w. reparse-Serves n d ms' h lt v w))
        ]

    messages-append : (ls ms : List (List ℕ)) → messages (ls ++ ms) ≡ messages ls ++ messages ms
    unfolding messages
    messages-append [] ms = refl
    messages-append (l ∷ ls) ms = ap (◌∷◌ (with_keys (value l))) (messages-append ls ms)

    module _ (realloc_bytes : ℕ → List ℕ) (blocked : Bool) where
      read_frames :
          (bytes x : List ℕ)
          → frames [] bytes ≡ ([], bytes)
          → frames [] (bytes ++ x) ≡ frames bytes x
      read_frames bytes x whole =
          frames-append [] bytes x
          ∙ ap (λ (z : List (List ℕ) × List ℕ). (z.0 ++ (frames z.1 x).0, (frames z.1 x).1)) whole

      -- The lines of a read, and those of what comes behind it.
      joined_frames :
          (bytes x ys left : List ℕ)
          → frames [] (bytes ++ x) ≡ frames bytes x
          → left ≡ (frames [] (bytes ++ x)).1
          → frames bytes (x ++ ys)
            ≡ ((frames [] (bytes ++ x)).0 ++ (frames left ys).0, (frames left ys).1)
      joined_frames bytes x ys left a l =
          frames-append bytes x ys
          ∙ ap (λ (z : List (List ℕ) × List ℕ). (z.0 ++ (frames z.1 ys).0, (frames z.1 ys).1))
              (sym a)
          ∙ ap (λ w. ((frames [] (bytes ++ x)).0 ++ (frames w ys).0, (frames w ys).1)) (sym l)

      served_short : (ls : List (List ℕ)) → All IsServed ls → All (λ l. length l ≤ 1024) ls
      served_short [] s = tt
      served_short (l ∷ ls) s = (s.0.short, served_short ls s.1)

      after_read-Serves :
          (x : List ℕ) (c : Client) (ms : List V)
          → length x ≤ 1024
          → c.bufofs ≤ 1024
          → IsReady 2048 c
          → c.invalid ≡ false
          → All IsServed (frames [] (take c.bufofs c.buf ++ x)).0
          → Serves
              (take c.bufofs c.buf ++ x)
              ms
              (after_read json_loads with_keys realloc_bytes blocked x c ms)
      unfolding after_read
      after_read-Serves x c ms small le r valid served =
          let size = r.buffer.size in
          let room : c.bufofs + length x ≤ length c.buf = omega (arith, small, le, size) in
          let w = write-written c.bufofs x c.buf room in
          let d : Client = record c {
            buf = written c.bufofs x c.buf;
            bufofs = c.bufofs + length x;
          } in
          let live : take d.bufofs d.buf ≡ take c.bufofs c.buf ++ x =
            take-written c.bufofs x c.buf room in
          let ready : IsReady 2048 d = record {
            buffer = written-IsBuffer c.bufofs x c.buf (omega (arith, small, le)) r.buffer;
            small = omega (arith, small, le);
            ours = r.ours;
          } in
          subst (Serves (take c.bufofs c.buf ++ x) ms) (ground (arith, w)) (
            subst
              (λ (z : List ℕ).
                Serves z ms (reparse json_loads with_keys (c.bufofs + length x + 1) d ms))
              live
              (reparse-Serves (c.bufofs + length x + 1) d ms ready (omega arith) valid
                (subst (λ (z : List ℕ). All IsServed (frames [] z).0) (sym live) served)))

      -- How a client that is kept stands after the reads.
      record Forwards (c : Client) (rs : List (List ℕ)) (ms : List V) (p : Parsed V) : Type ℓ where
        client : Client
        result :
            p
            ≡ stopped
                (if blocked then receiving else disconnected)
                client
                (ms ++ messages (frames (take c.bufofs c.buf) (joined rs)).0)
        left : take client.bufofs client.buf ≡ (frames (take c.bufofs c.buf) (joined rs)).1

      parse-Forwards :
          (rs : List (List ℕ)) (c : Client) (ms : List V)
          → frames [] (take c.bufofs c.buf) ≡ ([], take c.bufofs c.buf)
          → All IsServed (frames (take c.bufofs c.buf) (joined rs)).0
          → length (frames (take c.bufofs c.buf) (joined rs)).1 ≤ 1024
          → All (λ r. length r ≤ 1024) rs
          → IsReady 2048 c
          → c.invalid ≡ false
          → Forwards c rs ms (parse_client_msg json_loads with_keys realloc_bytes blocked rs c ms)
      unfolding parse_client_msg frames joined messages and_then
      parse-Forwards [] c ms whole served rest small r valid =
          let n = length-take c.bufofs c.buf in
          let size = r.buffer.size in
          let k = r.small in
          let room = make_room_fits realloc_bytes c (omega (arith, n, rest, size, k)) in
          record {
            client = c;
            result =
                ground (arith, room)
                ∙ ap (stopped (if blocked then receiving else disconnected) c)
                    (sym (append-nil ms));
            left = refl;
          }
      parse-Forwards (x ∷ rs) c ms whole served rest small r valid =
          let bytes = take c.bufofs c.buf in
          let ys = joined rs in
          let n = length-take c.bufofs c.buf in
          let size = r.buffer.size in
          let k = r.small in
          let front =
            frames_front 1024 bytes (x ++ ys) (served_short (frames bytes (x ++ ys)).0 served)
              rest in
          let le : c.bufofs ≤ 1024 = omega (arith, n, front, size, k) in
          let room = make_room_fits realloc_bytes c le in
          let after : Client → List V → Parsed V =
            λ d ms'. parse_client_msg json_loads with_keys realloc_bytes blocked rs d ms' in
          let a = read_frames bytes x whole in
          let b = frames-append bytes x ys in
          let s1 = subst (λ (z : List (List ℕ) × List ℕ). All IsServed z.0) b served in
          let here =
            subst (λ (z : List (List ℕ) × List ℕ). All IsServed z.0) (sym a)
              (All-front IsServed (frames bytes x).0 (frames (frames bytes x).1 ys).0 s1) in
          let s = after_read-Serves x c ms small.0 le r valid here in
          let d = s.client in
          let e = joined_frames bytes x ys (take d.bufofs d.buf) a s.live in
          let f =
            parse-Forwards rs d (ms ++ messages (frames [] (bytes ++ x)).0)
              (subst (λ (z : List ℕ). frames [] z ≡ ([], z)) (sym s.live) s.partial)
              (All-back IsServed (frames [] (bytes ++ x)).0 (frames (take d.bufofs d.buf) ys).0
                (subst (λ (z : List (List ℕ) × List ℕ). All IsServed z.0) e served))
              (subst (λ (z : List (List ℕ) × List ℕ). length z.1 ≤ 1024) e rest) small.1 s.ready
              s.valid in
          record {
            client = f.client;
            result =
                ground (arith, room)
                ∙ ap (λ p. and_then p after) s.result
                ∙ f.result
                ∙ ap (stopped (if blocked then receiving else disconnected) f.client) (
                    append_assoc ms (messages (frames [] (bytes ++ x)).0)
                      (messages (frames (take d.bufofs d.buf) ys).0)
                    ∙ ap (λ z. ms ++ z)
                        (sym (
                            messages-append (frames [] (bytes ++ x)).0
                              (frames (take d.bufofs d.buf) ys).0)
                          ∙ ap (λ z. messages z.0) (sym e)));
            left = f.left ∙ ap (λ z. z.1) (sym e);
          }

      -- However a stream of bytes is cut into reads of at most 1024, with a client that is no remote
      -- server and no complete line in its buffer yet: where each line of the stream has at most 1024
      -- bytes, is ended by no zero byte and is read by json_loads whatever follows it, and the last,
      -- incomplete one has at most 1024 bytes, the client's messages are the lines, in order and with
      -- their keys, the bytes left in the buffer are the incomplete line, and the client is kept unless
      -- the last read fails.
      pub parse_client_msg-frames :
          (rs : List (List ℕ)) (c : Client) (ms : List V)
          → frames [] (take c.bufofs c.buf) ≡ ([], take c.bufofs c.buf)
          → All IsServed (frames (take c.bufofs c.buf) (joined rs)).0
          → length (frames (take c.bufofs c.buf) (joined rs)).1 ≤ 1024
          → All (λ r. length r ≤ 1024) rs
          → IsReady 2048 c
          → c.invalid ≡ false
          → (d : Client) × (parse_client_msg json_loads with_keys realloc_bytes blocked rs c ms
              ≡ stopped
                  (if blocked then receiving else disconnected)
                  d
                  (ms ++ messages (frames (take c.bufofs c.buf) (joined rs)).0))
            × (take d.bufofs d.buf ≡ (frames (take c.bufofs c.buf) (joined rs)).1)
      parse_client_msg-frames rs c ms whole served rest small r valid =
          let f = parse-Forwards rs c ms whole served rest small r valid in
          (f.client, f.result, f.left)
