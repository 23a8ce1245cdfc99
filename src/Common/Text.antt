-- ===== src/Common/Text.antt =====
-- ASCII text as lists of character codes, and C's comparisons that ignore case.
use Prim.Native.Nat.{ℕ, ◌+◌}
use Prim.Native.Char.{code}
use Prim.Native.String.{String}
use mathlib.Core.Bool.{Bool, true, false, ◌&&◌}
use mathlib.Core.List.{List, [], ◌∷◌}
use mathlib.Core.Option.{Option, none, some}
use mathlib.Core.Option
use ckpool.Common.Tests.{leb, ◌==◌, if◌then◌else◌}

abbrev pub codes : String → List ℕ
codes String.[] = []
codes (String.◌∷◌ c s) = code c ∷ codes s

abbrev pub is_lower : ℕ → Bool
is_lower c = leb b'a' c && leb c b'z'

abbrev pub is_upper : ℕ → Bool
is_upper c = leb b'A' c && leb c b'Z'

-- tolower of ctype.h in the C locale.
abbrev pub tolower : ℕ → ℕ
tolower c = if is_upper c then c + 32 else c

-- strchr(s, c) - s, for a character that is not the terminator.
unfoldable pub index_of : ℕ → List ℕ → Option ℕ
index_of c [] = none
index_of c (d ∷ ds) = if d == c then some 0 else Option.map (λ i. i + 1) (index_of c ds)

-- Equality that ignores case: strcasecmp of two whole strings gives 0.
unfoldable pub eq_nocase : List ℕ → List ℕ → Bool
eq_nocase [] [] = true
eq_nocase [] (d ∷ ds) = false
eq_nocase (c ∷ cs) [] = false
eq_nocase (c ∷ cs) (d ∷ ds) = tolower c == tolower d && eq_nocase cs ds
