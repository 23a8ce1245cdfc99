-- ===== src/Sha256/Stream.antt =====
-- The streaming interface against the hash of the whole message: contexts and padding.
use native.Mathlib.Decide.{dec_lt}
use native.Mathlib.Nat.{zero-add, suc-add}
use mathlib.Core.List.{append_assoc}
use ckpool.Common.{
  ℕ, zero, suc, ◌+◌, ◌-◌, ◌*◌, ◌/◌, ◌%◌, ◌^◌, ◌<◌, ◌≤◌, ◌≡◌, refl, sym, ap, ◌∙◌, List, [], ◌∷◌,
  ◌++◌, true, false, ltb, if◌then◌else◌, length, length-append, length-take, length-drop, take,
  drop, take-append, take-append-drop, take_le-append, drop_le-append, take-all, u32, arith,
}
use ckpool.Sha256.{Ctx, sha256_transf, sha256_init, sha256_update, memcpy_at}
use ckpool.Sha256.Compress.{sha256_h0, transf_block}

-- Only the first `k` blocks are read.
pub sha256_transf_front :
    (h : List ℕ) (k : ℕ) (xs ys : List ℕ)
    → 64 * k ≤ length xs
    → sha256_transf h (xs ++ ys) k ≡ sha256_transf h xs k
unfolding sha256_transf
sha256_transf_front h zero xs ys le = refl
sha256_transf_front h (suc k) xs ys le =
    rw (take_le-append 64 xs ys (omega arith), drop_le-append 64 xs ys (omega arith))
      (sha256_transf_front (transf_block h (take 64 xs)) k (drop 64 xs) ys
        (omega (arith, length-drop 64 xs)))

-- Hashing blocks in two goes is hashing them at once.
pub sha256_transf_split :
    (h : List ℕ) (k m : ℕ) (xs ys : List ℕ)
    → length xs ≡ 64 * k
    → sha256_transf h (xs ++ ys) (k + m) ≡ sha256_transf (sha256_transf h xs k) ys m
unfolding sha256_transf
sha256_transf_split h zero m [] ys e = rw zero-add
sha256_transf_split h zero m (x ∷ xs) ys e = absurd (omega arith)
sha256_transf_split h (suc k) m xs ys e =
    rw
      (
        suc-add k m,
        sha256_transf,
        take_le-append 64 xs ys (omega arith),
        drop_le-append 64 xs ys (omega arith),
      )
      (sha256_transf_split (transf_block h (take 64 xs)) k m (drop 64 xs) ys
        (omega (arith, length-drop 64 xs)))

-- A context that has taken in `msg`: whole blocks of it are in the hash, the rest is pending.
pub record Took (msg : List ℕ) (ctx : Ctx) : Type 0 where
  pub done : List ℕ
  pub pending : List ℕ
  pub blocks : ℕ
  pub parts : msg ≡ done ++ pending
  pub done_size : length done ≡ 64 * blocks
  pub total : ctx.tot_len ≡ u32 (64 * blocks)
  pub few : length pending < 64
  pub len : ctx.len ≡ length pending
  pub held : take (length pending) ctx.block ≡ pending
  pub room : length ctx.block ≡ 128
  pub hash : ctx.h ≡ sha256_transf sha256_h0 done blocks

pub sha256_init-Took : (memory : List ℕ) → length memory ≡ 128 → Took [] (sha256_init memory)
unfolding sha256_init sha256_transf
sha256_init-Took memory e = record {
  done = [];
  pending = [];
  blocks = 0;
  parts = refl;
  done_size = refl;
  total = refl;
  few = omega arith;
  len = refl;
  held = refl;
  room = e;
  hash = refl;
}

length-memcpy_at :
    (dest : List ℕ) (ofs : ℕ) (bytes : List ℕ)
    → ofs + length bytes ≤ length dest
    → length (memcpy_at dest ofs bytes) ≡ length dest
unfolding memcpy_at
length-memcpy_at dest ofs bytes le = omega (
  arith,
  length-append (take ofs dest ++ bytes) (drop (ofs + length bytes) dest),
  length-append (take ofs dest) bytes,
  length-take ofs dest,
  length-drop (ofs + length bytes) dest,
)

-- Bytes copied right behind those held are held with them.
take-memcpy_at :
    (dest xs bytes : List ℕ)
    → take (length xs) dest ≡ xs
    → take (length (xs ++ bytes)) (memcpy_at dest (length xs) bytes) ≡ xs ++ bytes
unfolding memcpy_at
take-memcpy_at dest xs bytes e = rw e (take-append (length (xs ++ bytes)) (xs ++ bytes) _ refl)

-- sha256_update on its two branches, with the lengths worked out.
update-short :
    (ctx : Ctx) (m : List ℕ)
    → ctx.len + length m < 64
    → sha256_update ctx m
      ≡ record ctx { len = ctx.len + length m; block = memcpy_at ctx.block ctx.len m }
unfolding sha256_update
update-short ctx m short =
    let all : (if ltb (length m) (64 - ctx.len) then length m else 64 - ctx.len) ≡ length m =
      ground arith in
    let fits : ltb (u32 (ctx.len + length m)) 64 ≡ true = ground arith in
    let small : u32 (ctx.len + length m) ≡ ctx.len + length m = omega arith in
    rw (all, fits, small, take-all (length m) m refl)

update-long :
    (ctx : Ctx) (m : List ℕ)
    → ctx.len < 64
    → 64 ≤ ctx.len + length m
    → ctx.len + length m < 2 ^ 32
    → let rem = 64 - ctx.len in
      let nb = (length m - rem) / 64 in
      let full = memcpy_at ctx.block ctx.len (take rem m) in
      sha256_update ctx m ≡ record {
        tot_len = u32 (ctx.tot_len + (nb + 1) * 64);
        len = (length m - rem) % 64;
        block = memcpy_at full 0 (take ((length m - rem) % 64) (drop (nb * 64) (drop rem m)));
        h = sha256_transf (sha256_transf ctx.h full 1) (drop rem m) nb;
      }
unfolding sha256_update
update-long ctx m few long fits =
    let part : (if ltb (length m) (64 - ctx.len) then length m else 64 - ctx.len) ≡ 64 - ctx.len =
      ground arith in
    let over : ltb (u32 (ctx.len + length m)) 64 ≡ false = ground arith in rw (part, over)

-- A message short enough to fit behind the pending bytes.
update_short-Took :
    (msg : List ℕ) (ctx : Ctx) (m : List ℕ)
    → Took msg ctx
    → ctx.len + length m < 64
    → Took
        (msg ++ m)
        (record ctx { len = ctx.len + length m; block = memcpy_at ctx.block ctx.len m })
update_short-Took msg ctx m t short = record {
  done = t.done;
  pending = t.pending ++ m;
  blocks = t.blocks;
  parts = rw t.parts (append_assoc t.done t.pending m);
  done_size = t.done_size;
  total = t.total;
  few = omega (arith, t.len, length-append t.pending m);
  len = omega (arith, t.len, length-append t.pending m);
  held = rw t.len (take-memcpy_at ctx.block t.pending m t.held);
  room = length-memcpy_at ctx.block ctx.len m (omega (arith, t.room)) ∙ t.room;
  hash = t.hash;
}

-- The block that the pending bytes and the front of the message make, and what is hashed of it.
full_block :
    (ctx : Ctx) (msg front : List ℕ) (t : Took msg ctx)
    → length t.pending + length front ≡ 64
    → (h : List ℕ)
    → sha256_transf h (memcpy_at ctx.block ctx.len front) 1 ≡ sha256_transf h (t.pending ++ front) 1
unfolding memcpy_at
full_block ctx msg front t e h =
    rw (t.len, memcpy_at, t.held)
      (sha256_transf_front h 1 (t.pending ++ front) _
        (omega (arith, length-append t.pending front)))

update_long-Took :
    (msg : List ℕ) (ctx : Ctx) (front middle rest : List ℕ) (nb : ℕ)
    → (t : Took msg ctx) → length t.pending + length front ≡ 64
    → length middle ≡ 64 * nb
    → length rest < 64
    → Took (msg ++ (front ++ middle ++ rest)) (record {
      tot_len = u32 (ctx.tot_len + (nb + 1) * 64);
      len = length rest;
      block = memcpy_at (memcpy_at ctx.block ctx.len front) 0 rest;
      h =
          sha256_transf
            (sha256_transf ctx.h (memcpy_at ctx.block ctx.len front) 1)
            (middle ++ rest)
            nb;
    })
update_long-Took msg ctx front middle rest nb t e1 e2 few = record {
  done = t.done ++ (t.pending ++ front) ++ middle;
  pending = rest;
  blocks = t.blocks + 1 + nb;
  parts = rw t.parts (simp append_assoc);
  done_size = omega (
    arith,
    t.done_size,
    length-append (t.done ++ (t.pending ++ front)) middle,
    length-append t.done (t.pending ++ front),
    length-append t.pending front,
  );
  total = omega (arith, t.total);
  few = few;
  len = refl;
  held = take-memcpy_at (memcpy_at ctx.block ctx.len front) [] rest refl;
  room = length-memcpy_at _ 0 rest (omega (arith, same_room, t.room)) ∙ same_room ∙ t.room;
  hash =
      rw
        (
          full_block ctx msg front t e1 ctx.h,
          sha256_transf_front _ nb middle rest (omega arith),
          t.hash,
        )
        (sym (
          sha256_transf_split sha256_h0 (t.blocks + 1) nb (t.done ++ (t.pending ++ front)) middle
            (omega (arith, sizes, t.done_size))
          ∙ ap (λ h. sha256_transf h middle nb)
              (sha256_transf_split sha256_h0 t.blocks 1 t.done (t.pending ++ front) t.done_size)));
}
  where
    same_room : length (memcpy_at ctx.block ctx.len front) ≡ length ctx.block
    same_room = length-memcpy_at ctx.block ctx.len front (omega (arith, t.len, t.room))

    sizes : length (t.done ++ (t.pending ++ front)) ≡ length t.done + 64
    sizes = omega (arith, length-append t.done (t.pending ++ front), length-append t.pending front)

-- The same, with the pieces of the message given by equations.
update_long-Took' :
    (msg m tail rest' : List ℕ) (ctx : Ctx) (front middle rest : List ℕ) (nb k : ℕ)
    → m ≡ front ++ middle ++ rest
    → tail ≡ middle ++ rest
    → k ≡ length rest
    → rest' ≡ rest
    → (t : Took msg ctx) → length t.pending + length front ≡ 64
    → length middle ≡ 64 * nb
    → length rest < 64
    → Took (msg ++ m) (record {
      tot_len = u32 (ctx.tot_len + (nb + 1) * 64);
      len = k;
      block = memcpy_at (memcpy_at ctx.block ctx.len front) 0 rest';
      h = sha256_transf (sha256_transf ctx.h (memcpy_at ctx.block ctx.len front) 1) tail nb;
    })
update_long-Took' msg m tail rest' ctx front middle rest nb k e1 e2 e3 e4 t =
    rw (e1, e2, e3, e4) (update_long-Took msg ctx front middle rest nb t)

-- Taking in one more chunk: afterwards the context has taken in the message with that chunk, as
-- long as the chunk's length and the pending bytes' do not overflow an unsigned int.
pub sha256_update-Took :
    (msg : List ℕ) (ctx : Ctx) (m : List ℕ)
    → Took msg ctx
    → ctx.len + length m < 2 ^ 32
    → Took (msg ++ m) (sha256_update ctx m)
sha256_update-Took msg ctx m t fits = elim (dec_lt (ctx.len + length m) 64) [
  | yes short ↦ rw (update-short ctx m short) (update_short-Took msg ctx m t short)
  | no long ↦ rw (update-long ctx m few (omega arith) fits) (
      update_long-Took' msg m tail _ ctx (take rem m) (take (nb * 64) tail) (drop (nb * 64) tail) nb
        _ (sym whole) (sym (take-append-drop (nb * 64) tail)) (omega (arith, rest_size long))
        (take-all _ _ (rest_size long)) t (omega (arith, t.len, t.few, length-take rem m))
        (omega (arith, length-take (nb * 64) tail, length-drop rem m))
        (omega (arith, rest_size long)))
]
  where
    few : ctx.len < 64
    few = omega (arith, t.len, t.few)

    rem : ℕ
    rem = 64 - ctx.len

    nb : ℕ
    nb = (length m - rem) / 64

    tail : List ℕ
    tail = drop rem m

    whole : take rem m ++ take (nb * 64) tail ++ drop (nb * 64) tail ≡ m
    whole =
        append_assoc (take rem m) (take (nb * 64) tail) (drop (nb * 64) tail)
        ∙ ap (◌++◌ (take rem m)) (take-append-drop (nb * 64) tail)
        ∙ take-append-drop rem m

    rest_size : ¬ (ctx.len + length m < 64) → length (drop (nb * 64) tail) ≡ (length m - rem) % 64
    rest_size long = omega (arith, length-drop (nb * 64) tail, length-drop rem m)
