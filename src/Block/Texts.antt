-- ===== src/Block/Texts.antt =====
-- The text of a block.
use mathlib.Core.List.{append-nil}
use ckpool.Common.{
  ℕ, ◌+◌, ◌*◌, ◌%◌, ◌≡◌, refl, sym, ap, ap₂, ◌∙◌, true, List, [], ◌∷◌, ◌++◌, ltb, leb, ◌==◌,
  if◌then◌else◌, length, le_bytes, arith, Bool-cases, inl, inr,
}
use ckpool.Hex.{bin2hex, hex_digit}
use ckpool.Hex.Pieces.{bin2hex-append, length-bin2hex}
use ckpool.Block.{Transactions, varint, Processed, refused, overflow, built, process_block}

-- The size of a list in a block.
pub compact_size : ℕ → List ℕ
compact_size n =
    if ltb n 0xfd
    then n % 256 ∷ []
    else if leb n 0xffff
    then 0xfd ∷ le_bytes 2 n
    else 0xfe ∷ le_bytes 4 n

varint-compact_size : (n : ℕ) → varint n ≡ bin2hex (compact_size n)
unfolding varint compact_size bin2hex hex_digit
varint-compact_size n = elim (Bool-cases (ltb n 0xfd)) [
  | inl a ↦ rw a refl
  | inr a ↦ rw a (elim (Bool-cases (leb n 0xffff)) [ inl b ↦ rw b refl | inr b ↦ rw b refl ])
]

-- The block without its other transactions.
abbrev pub block_front : ℕ → List ℕ → List ℕ → List ℕ
block_front txns header coinbase = header ++ (compact_size txns ++ coinbase)

-- A block with its other transactions, unless its coinbase or the text of its front is too long.
pub block_text : ℕ → List ℕ → List ℕ → List ℕ → Processed
block_text txns header coinbase txs =
    let front = block_front txns header coinbase in
    if ltb 511 (length coinbase)
    then refused
    else if ltb 1023 (2 * length front)
    then overflow
    else built (bin2hex (front ++ txs))

zero_count : (n : ℕ) → (n == 0) ≡ true → n ≡ 0
zero_count n z = ground (arith, z)

-- The other transactions, if there are any, follow the front.
followed :
    (n : ℕ) (front txs : List ℕ)
    → (n ≡ 0 → txs ≡ [])
    → (if n == 0 then bin2hex front else bin2hex front ++ bin2hex txs) ≡ bin2hex (front ++ txs)
followed n front txs alone = elim (Bool-cases (n == 0)) [
  | inl z ↦
      rw z (ap bin2hex (sym (ap (λ y. front ++ y) (alone (zero_count n z)) ∙ append-nil front)))
  | inr z ↦ rw z (sym (bin2hex-append front txs))
]

front_text :
    (txns : ℕ) (header coinbase : List ℕ)
    → bin2hex header ++ (varint txns ++ bin2hex coinbase)
      ≡ bin2hex (block_front txns header coinbase)
front_text txns header coinbase =
    let size = compact_size txns in
    ap (λ z. bin2hex header ++ (z ++ bin2hex coinbase)) (varint-compact_size txns)
    ∙ sym (
        bin2hex-append header (size ++ coinbase)
        ∙ ap (λ z. bin2hex header ++ z) (bin2hex-append size coinbase))

pub process_block-block_text :
    (t : Transactions) (coinbase header txs : List ℕ)
    → t.txn_data ≡ bin2hex txs
    → (t.txns ≡ 0 → txs ≡ [])
    → process_block t coinbase header ≡ block_text (t.txns + 1) header coinbase txs
unfolding process_block block_text
process_block-block_text t coinbase header txs txt alone =
    let front = block_front (t.txns + 1) header coinbase in
    ap
      (λ z.
        if ltb 511 (length coinbase)
        then refused
        else if ltb 1023 (length z)
        then overflow
        else built (if t.txns == 0 then z else z ++ t.txn_data))
      (front_text (t.txns + 1) header coinbase)
    ∙ ap₂
        (λ k z.
          if ltb 511 (length coinbase) then refused else if ltb 1023 k then overflow else built z)
        (length-bin2hex front)
        (ap (λ z. if t.txns == 0 then bin2hex front else bin2hex front ++ z) txt
          ∙ followed t.txns front txs alone)
