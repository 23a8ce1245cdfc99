-- ===== src/Target.antt =====
-- fulltest of src/libckpool.c: a 256-bit comparison, one 32-bit word at a time from the top.
mod Laws
mod Tests
use ckpool.Common.{
  ℕ, zero, suc, ◌*◌, ◌+◌, Bool, true, false, List, ltb, if◌then◌else◌, take, drop, le_value,
}

-- le32toh of word i of a buffer.
pub word32 : List ℕ → ℕ → ℕ
word32 buf i = le_value (take 4 (drop (4 * i) buf))

-- The loop with i words left to look at, from word i - 1 down.
pub fulltest_loop : ℕ → List ℕ → List ℕ → Bool
fulltest_loop zero hash target = true
fulltest_loop (suc i) hash target =
    let rest = fulltest_loop i hash target in
    if ltb (word32 target i) (word32 hash i)
    then false
    else if ltb (word32 hash i) (word32 target i)
    then true
    else rest

pub fulltest : List ℕ → List ℕ → Bool
fulltest hash target = fulltest_loop 8 hash target
