-- ===== src/Submit/Throttle.antt =====
-- The end of parse_submit of src/stratifier.c: what a run of invalid shares leads to, with the last_share
-- that add_submit sets before. A time is in whole seconds.
pub mod Patience
use ckpool.Common.{
  ℕ, ◌+◌, Bool, true, false, not, ◌&&◌, ◌||◌, List, [], ◌∷◌, ltb, ◌==◌, if◌then◌else◌,
}

pub data Action : Type 0 where
  no_action updated reconnected disconnected : Action

pub record Client : Type 0 where
  pub first_invalid : ℕ
  pub last_share : ℕ
  pub reject : ℕ

-- What the rest of parse_submit has found out about a share.
pub record Seen : Type 0 where
  pub now : ℕ
  pub result : Bool
  pub submit : Bool
  pub share : Bool
  pub wbincomplete : Bool

unfoldable pub is_invalid : Seen → Bool
is_invalid e = not e.wbincomplete && ((not e.result && not e.submit) || not e.share)

-- add_submit, as far as it counts here; it is not reached without `share`.
unfoldable pub note_share : Seen → Client → Client
note_share e c = if e.share && (e.result || e.submit) then record c { last_share = e.now } else c

-- Both forms of a disconnection, of a node and of a pool, are the one action.
unfoldable pub throttle : Seen → Client → Action × Client
throttle e c =
    let again = not (c.first_invalid == 0) in
    if is_invalid e
    then (if ltb c.first_invalid c.last_share || c.first_invalid == 0
        then (no_action, record c { first_invalid = e.now })
        else if again && ltb (c.first_invalid + 180) e.now && ltb c.reject 3
        then (disconnected, record c { reject = 3 })
        else if again && ltb (c.first_invalid + 120) e.now && ltb c.reject 2
        then (reconnected, record c { reject = 2 })
        else if again && ltb (c.first_invalid + 60) e.now && c.reject == 0
        then (updated, record c { reject = 1 })
        else (no_action, c))
    else if ltb c.reject 3
    then (no_action, record c { first_invalid = 0; reject = 0 })
    else (no_action, c)

-- A new client behind a history of shares, the newest first.
unfoldable pub after : List Seen → Client
after [] = record { first_invalid = 0; last_share = 0; reject = 0 }
after (e ∷ es) = (throttle e (note_share e (after es))).1

unfoldable pub action : Seen → List Seen → Action
action e es = (throttle e (note_share e (after es))).0
