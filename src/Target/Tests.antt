-- ===== src/Target/Tests.antt =====
-- The witness of fulltest's theorem: two numbers that differ in the top word alone.
use ckpool.Common.{ℕ, ◌≡◌, refl, List, [], ◌∷◌, ◌++◌, replicate, leb, le_value, arith}
use ckpool.Target.{fulltest}
use ckpool.Target.Laws.{fulltest-leb}

abbrev low_hash : List ℕ
low_hash = replicate 31 255 ++ (1 ∷ [])

abbrev high_target : List ℕ
high_target = replicate 31 0 ++ (2 ∷ [])

fulltest-leb_example :
    fulltest low_hash high_target ≡ leb (le_value low_hash) (le_value high_target)
fulltest-leb_example = fulltest-leb low_hash high_target (grind arith) (grind arith) refl refl
