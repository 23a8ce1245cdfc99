-- ===== src/Merkle/Tests.antt =====
-- The witness of the merkle theorem: five transactions under a hash that shows the tree.
use ckpool.Common.{ℕ, ◌+◌, ◌*◌, ◌^◌, ◌<◌, ◌≤◌, ◌≡◌, none, length, List, [], ◌∷◌}
use ckpool.Merkle.{merkle_bins, merkle_loop}
use ckpool.Merkle.Root.{Branch, merkle_bins-Branch}

abbrev show_pair : ℕ → ℕ → ℕ
show_pair a b = 100 * a + b

abbrev five_txids : List ℕ
five_txids = 1 ∷ 2 ∷ 3 ∷ 4 ∷ 5 ∷ []

merkle_bins-Branch_example :
    (length five_txids < 2 ^ 16
      → Branch show_pair 16 9 five_txids
        × merkle_bins show_pair five_txids ≡ merkle_loop show_pair 16 five_txids)
    × (2 ^ 16 ≤ length five_txids → merkle_bins show_pair five_txids ≡ none)
merkle_bins-Branch_example = merkle_bins-Branch show_pair 9 five_txids
