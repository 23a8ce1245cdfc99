-- ===== src/Sha256/Digest.antt =====
-- sha256_final and the whole hash against FIPS 180: pad the message, then hash its blocks.
use mathlib.Core.Path.{subst}
use mathlib.Core.List.{append_assoc, append-nil}
use native.Mathlib.Nat.{zero-add, suc-add}
use ckpool.Common.{
  ℕ, zero, suc, ◌+◌, ◌-◌, ◌*◌, ◌/◌, ◌%◌, ◌^◌, ◌<◌, ◌≤◌, ◌≡◌, refl, sym, ap, ap₂, ◌∙◌, List, [], ◌∷◌,
  ◌++◌, ltb, if◌then◌else◌, length, length-append, length-take, length-drop, length-replicate, take,
  drop, take-append, drop-append, take-append-drop, replicate, u32, arith,
}
use ckpool.Sha256.{
  Ctx, sha256_transf, sha256_init, sha256_update, sha256_final, sha256, memcpy_at, unpack_words,
  unpack32,
}
use ckpool.Sha256.Compress.{sha256_h0}
use ckpool.Sha256.Fips.{initial_hash, hash_blocks, hash_bytes}
use ckpool.Sha256.Rounds.{
  sha256_h0-initial_hash, sha256_transf-hash_blocks, unpack_words-hash_bytes,
}
use ckpool.Sha256.Stream.{
  Took, sha256_init-Took, sha256_update-Took, sha256_transf_front, sha256_transf_split,
}

-- The length in bits as eight bytes, most significant first.
abbrev pub be64 : ℕ → List ℕ
be64 v =
    v / 2 ^ 56 % 256
    ∷ v / 2 ^ 48 % 256
    ∷ v / 2 ^ 40 % 256
    ∷ v / 2 ^ 32 % 256
    ∷ v / 2 ^ 24 % 256
    ∷ v / 2 ^ 16 % 256
    ∷ v / 2 ^ 8 % 256
    ∷ v % 256
    ∷ []

-- FIPS 180: a one bit, as few zero bits as make the blocks full, and the length.
pub fips_pad : List ℕ → List ℕ
fips_pad msg = msg ++ (0x80 ∷ replicate ((119 - length msg % 64) % 64) 0) ++ be64 (8 * length msg)

unfoldable pub fips_sha256 : List ℕ → List ℕ
fips_sha256 msg = hash_bytes (hash_blocks initial_hash (fips_pad msg) (length (fips_pad msg) / 64))

-- The same with the compression of the source.
transf_sha256 : List ℕ → List ℕ
transf_sha256 msg =
    unpack_words (sha256_transf sha256_h0 (fips_pad msg) (length (fips_pad msg) / 64))

transf_sha256-fips_sha256 : (msg : List ℕ) → transf_sha256 msg ≡ fips_sha256 msg
unfolding transf_sha256 fips_sha256
transf_sha256-fips_sha256 msg =
    let n = length (fips_pad msg) / 64 in
    unpack_words-hash_bytes (sha256_transf sha256_h0 (fips_pad msg) n)
    ∙ ap hash_bytes (
        sha256_transf-hash_blocks sha256_h0 (fips_pad msg) n
        ∙ ap (λ h. hash_blocks h (fips_pad msg) n) sha256_h0-initial_hash)

-- A copy over the middle part of a buffer.
memcpy_mid :
    (xs old ys bytes : List ℕ)
    → length old ≡ length bytes
    → memcpy_at (xs ++ old ++ ys) (length xs) bytes ≡ xs ++ bytes ++ ys
unfolding memcpy_at
memcpy_mid xs old ys bytes e = rw (
  append_assoc xs old ys,
  take-append (length xs) xs (old ++ ys) refl,
  sym (append_assoc xs old ys),
  drop-append (length xs + length bytes) (xs ++ old) ys (omega (arith, length-append xs old)),
)

replicate_add : (m n : ℕ) (a : ℕ) → replicate (m + n) a ≡ replicate m a ++ replicate n a
replicate_add zero n a = rw zero-add
replicate_add (suc m) n a = rw (suc-add m n) (ap (◌∷◌ a) (replicate_add m n a))

pub memcpy_mid' :
    (buf xs old ys bytes : List ℕ) (ofs : ℕ)
    → buf ≡ xs ++ old ++ ys
    → ofs ≡ length xs
    → length old ≡ length bytes
    → memcpy_at buf ofs bytes ≡ xs ++ bytes ++ ys
memcpy_mid' buf xs old ys bytes ofs e o l = rw (e, o) (memcpy_mid xs old ys bytes l)

-- The three writes of sha256_final into the block, where the pending bytes leave room for them.
padded_block :
    (block pending len4 : List ℕ) (pm z : ℕ)
    → take (length pending) block ≡ pending
    → pm ≤ length block
    → length pending + 5 + z ≡ pm
    → length len4 ≡ 4
    → let r = length pending in
      memcpy_at (memcpy_at (memcpy_at block r (replicate (pm - r) 0)) r (0x80 ∷ [])) (pm - 4) len4
      ≡ (pending ++ (0x80 ∷ replicate z 0)) ++ len4 ++ drop (pm - r) (drop r block)
padded_block block pending len4 pm z held room size four =
    memcpy_mid' _ (pending ++ (0x80 ∷ replicate z 0)) (replicate 4 0) junk len4 (pm - 4)
      (memcpy_mid' _ pending (0 ∷ []) (replicate z 0 ++ (replicate 4 0 ++ junk)) (0x80 ∷ [])
          (length pending) (cleared ∙ spread) refl refl
        ∙ simp append_assoc)
      (omega
        (arith, length-append pending (0x80 ∷ replicate z 0), length-replicate {0} {A = ℕ} z 0))
      (sym four)
  where
    r : ℕ
    r = length pending

    junk : List ℕ
    junk = drop (pm - r) (drop r block)

    cut : block ≡ pending ++ take (pm - r) (drop r block) ++ junk
    cut =
        sym (take-append-drop r block)
        ∙ ap (λ x. x ++ drop r block) held
        ∙ ap (◌++◌ pending) (sym (take-append-drop (pm - r) (drop r block)))
        ∙ sym (append_assoc pending (take (pm - r) (drop r block)) junk)

    cleared : memcpy_at block r (replicate (pm - r) 0) ≡ pending ++ replicate (pm - r) 0 ++ junk
    cleared =
        memcpy_mid' block pending (take (pm - r) (drop r block)) junk (replicate (pm - r) 0) r cut
          refl
          (omega (
            arith,
            length-take (pm - r) (drop r block),
            length-drop r block,
            length-replicate {0} {A = ℕ} (pm - r) 0,
          ))

    count : pm - r ≡ suc (z + 4)
    count = omega arith

    spread :
        pending ++ replicate (pm - r) 0 ++ junk
        ≡ pending ++ (0 ∷ []) ++ (replicate z 0 ++ (replicate 4 0 ++ junk))
    spread = rw (count, replicate_add z 4 0) (simp append_assoc)

-- The blocks that the pending bytes and the padding take.
final_count : ℕ → ℕ
final_count r = if ltb 55 r then 2 else 1

final_count_bounds :
    (r : ℕ)
    → r < 64
    → (r + 9 ≤ final_count r * 64) × (final_count r * 64 ≤ 128) × (final_count r * 64 < r + 73)
unfolding final_count
final_count_bounds r h = ground arith

-- What is hashed last: the pending bytes, padded.
last_blocks : List ℕ → ℕ → List ℕ
last_blocks pending bits =
    (pending ++ (0x80 ∷ replicate (final_count (length pending) * 64 - length pending - 5) 0))
    ++ unpack32 bits

length-last_blocks :
    (pending : List ℕ) (bits : ℕ)
    → length pending < 64
    → length (last_blocks pending bits) ≡ final_count (length pending) * 64
unfolding last_blocks unpack32
length-last_blocks pending bits few =
    let zeros = final_count (length pending) * 64 - length pending - 5 in
    omega (
      arith,
      final_count_bounds (length pending) few,
      length-append (pending ++ (0x80 ∷ replicate zeros 0)) (unpack32 bits),
      length-append pending (0x80 ∷ replicate zeros 0),
      length-replicate {0} {A = ℕ} zeros 0,
    )

final-Took :
    (msg : List ℕ) (ctx : Ctx) (t : Took msg ctx)
    → sha256_final ctx
      ≡ unpack_words (
          sha256_transf ctx.h
            (last_blocks t.pending (u32 (8 * length msg)))
            (final_count (length t.pending)))
unfolding sha256_final last_blocks final_count unpack32
final-Took msg ctx t =
    rw (t.len, small, bits)
      (ap (λ b. unpack_words (sha256_transf ctx.h b nb))
          (padded_block ctx.block t.pending (unpack32 (u32 (8 * length msg))) (nb * 64)
            (nb * 64 - r - 5) t.held (omega (arith, bounds, t.room)) (omega (arith, bounds)) refl)
        ∙ ap unpack_words (
            sha256_transf_front ctx.h nb _ _
              (omega (arith, length-last_blocks t.pending (u32 (8 * length msg)) t.few))))
  where
    r : ℕ
    r = length t.pending

    nb : ℕ
    nb = final_count r

    bounds : (r + 9 ≤ nb * 64) × (nb * 64 ≤ 128) × (nb * 64 < r + 73)
    bounds = final_count_bounds r t.few

    small : r % 64 ≡ r
    small = omega (arith, t.few)

    bits : u32 (u32 (ctx.tot_len + r) * 2 ^ 3) ≡ u32 (8 * length msg)
    bits = omega (arith, t.total, t.done_size, ap length t.parts, length-append t.done t.pending)

be64-small : (v : ℕ) → v < 2 ^ 32 → be64 v ≡ replicate 4 0 ++ unpack32 (u32 v)
unfolding unpack32
be64-small v h = ground arith

zero_count : (r : ℕ) → r < 64 → final_count r * 64 - r - 5 ≡ (119 - r) % 64 + 4
unfolding final_count
zero_count r h = ground arith

-- The padding of FIPS 180 for a message of which `done` is whole blocks.
fips_pad-last_blocks :
    (done pending : List ℕ) (k : ℕ)
    → length done ≡ 64 * k
    → length pending < 64
    → 8 * length (done ++ pending) < 2 ^ 32
    → fips_pad (done ++ pending) ≡ done ++ last_blocks pending (u32 (8 * length (done ++ pending)))
unfolding fips_pad last_blocks
fips_pad-last_blocks done pending k whole few small =
    let rem : length (done ++ pending) % 64 ≡ length pending =
      omega (arith, length-append done pending) in
    let z = (119 - length pending) % 64 in
    rw
      (
        be64-small (8 * length (done ++ pending)) small,
        rem,
        zero_count (length pending) few,
        replicate_add z 4 0,
      )
      (simp append_assoc)

-- Every chunk in turn.
pub update_all : Ctx → List (List ℕ) → Ctx
update_all ctx [] = ctx
update_all ctx (m ∷ ms) = update_all (sha256_update ctx m) ms

abbrev pub concat : List (List ℕ) → List ℕ
concat [] = []
concat (m ∷ ms) = m ++ concat ms

final-transf :
    (msg : List ℕ) (ctx : Ctx)
    → Took msg ctx
    → 8 * length msg < 2 ^ 32
    → sha256_final ctx ≡ transf_sha256 msg
unfolding transf_sha256
final-transf msg ctx t small =
    final-Took msg ctx t
    ∙ ap unpack_words (
        ap (λ h. sha256_transf h last nb) t.hash
        ∙ sym (sha256_transf_split sha256_h0 t.blocks nb t.done last t.done_size)
        ∙ ap₂ (sha256_transf sha256_h0) (sym padded) (sym blocks))
  where
    nb : ℕ
    nb = final_count (length t.pending)

    last : List ℕ
    last = last_blocks t.pending (u32 (8 * length msg))

    padded : fips_pad msg ≡ t.done ++ last
    padded =
        subst (λ m. fips_pad m ≡ t.done ++ last_blocks t.pending (u32 (8 * length m))) (sym t.parts)
          (fips_pad-last_blocks t.done t.pending t.blocks t.done_size t.few
            (subst (λ m. 8 * length m < 2 ^ 32) t.parts small))

    blocks : length (fips_pad msg) / 64 ≡ t.blocks + nb
    blocks = omega (
      arith,
      ap length padded,
      length-append t.done last,
      length-last_blocks t.pending (u32 (8 * length msg)) t.few,
      t.done_size,
    )

final-fips :
    (msg : List ℕ) (ctx : Ctx)
    → Took msg ctx
    → 8 * length msg < 2 ^ 32
    → sha256_final ctx ≡ fips_sha256 msg
final-fips msg ctx t small = final-transf msg ctx t small ∙ transf_sha256-fips_sha256 msg

update_all-Took :
    (msg : List ℕ) (ctx : Ctx) (ms : List (List ℕ))
    → Took msg ctx
    → 8 * length (msg ++ concat ms) < 2 ^ 32
    → Took (msg ++ concat ms) (update_all ctx ms)
unfolding update_all
update_all-Took msg ctx [] t small = rw append-nil t
update_all-Took msg ctx (m ∷ ms) t small = rw (← append_assoc msg m (concat ms)) (
    update_all-Took (msg ++ m) (sha256_update ctx m) ms
      (sha256_update-Took msg ctx m t (
        omega
          (arith, t.len, t.few, length-append msg (m ++ concat ms), length-append m (concat ms))))
      (rw (append_assoc msg m (concat ms)) small))

-- However a message of less than 2 ^ 29 bytes is cut into chunks for sha256_update, and whatever
-- the context's memory held before, sha256_final gives the SHA-256 digest of the whole message as
-- FIPS 180 defines it: pad, then hash block by block, with the functions, the message schedule and the
-- rounds of the standard and the constants that are the roots of primes.
pub sha256_stream-fips :
    (memory : List ℕ) (ms : List (List ℕ))
    → length memory ≡ 128
    → 8 * length (concat ms) < 2 ^ 32
    → sha256_final (update_all (sha256_init memory) ms) ≡ fips_sha256 (concat ms)
sha256_stream-fips memory ms room small =
    final-fips (concat ms) _
      (update_all-Took [] (sha256_init memory) ms (sha256_init-Took memory room) small) small

-- So the hash of a whole message does not depend on the memory of its context.
pub sha256-fips :
    (scratch message : List ℕ)
    → length scratch ≡ 128
    → 8 * length message < 2 ^ 32
    → sha256 scratch message ≡ fips_sha256 message
unfolding sha256 sha256_init
sha256-fips scratch message room small =
    final-fips message _
      (sha256_update-Took [] (sha256_init scratch) message (sha256_init-Took scratch room)
        (omega arith))
      small
