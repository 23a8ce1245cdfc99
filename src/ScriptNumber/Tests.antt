-- ===== src/ScriptNumber/Tests.antt =====
-- Witnesses of the script number theorems, on the height of a block.
use ckpool.Common.{◌≡◌, ◌⊎◌, ◌≤◌, ◌<◌, ◌+◌, ◌-◌, ◌*◌, ◌^◌, [], ◌∷◌, ◌++◌, take, get_or, arith}
use ckpool.ScriptNumber.{ser_number, get_sernumber, number_len}
use ckpool.ScriptNumber.Laws.{get_sernumber-ser_number, ser_number_minimal}

get_sernumber-ser_number_example :
    get_sernumber (take (ser_number 850000).used (ser_number 850000).stored ++ (7 ∷ [])) ≡ 850000
get_sernumber-ser_number_example = get_sernumber-ser_number 850000 (7 ∷ []) (omega arith)

ser_number_minimal_example :
    let n = number_len 850000 in
    (1 ≤ n)
    × (n ≤ 4)
    × ((ser_number 850000).used ≡ n + 1)
    × (get_or (ser_number 850000).stored n 0 < 0x80)
    × ((n ≡ 1) ⊎ (128 * 256 ^ (n - 2) ≤ 850000))
ser_number_minimal_example = ser_number_minimal 850000 (omega arith)
