-- ===== src/Submit/Tests.antt =====
-- Witnesses of the theorems on parse_submit and its throttle.
use ckpool.Common.{
  ℕ, true, ◌+◌, ◌<◌, ◌≡◌, refl, false, List, [], ◌∷◌, Option, some, replicate, leb, codes, arith,
}
use ckpool.Work.{Workbase, Sdata}
use ckpool.Submit.{World, parse_submit}
use ckpool.Submit.Accepted.{IsAccepted, parse_submit-IsAccepted}
use ckpool.Submit.Laws.{IsBalanced, parse_submit-IsBalanced}
use ckpool.Submit.Throttle.{Seen, action, after, throttle, note_share, is_invalid}
use ckpool.Submit.Throttle.Patience.{Streak, disconnected-Streak}

-- Natural numbers for the doubles, and a constant for sscanf.
abbrev plain_world : World
plain_world = record {
  Diff = ℕ;
  at_least = λ a b. leb b a;
  wb_diff = λ wb. 100;
  network_diff = λ wb. 5000;
  mindiff = 10;
  submission_diff = λ wb nonce2 ntime mask nonce stale. (42, replicate 32 9);
  scan32 = λ s. 1700000000;
  scan_id = λ s. 5;
  in_latency = λ wb. false;
  version_mask = 0;
}

abbrev one_base : Workbase
one_base = record {
  id = 5;
  gentime_sec = 1000;
  ntime32 = 1700000000;
  readcount = 0;
  prevhash = replicate 64 48;
  built = record {
    coinb1bin = [];
    coinb2bin = [];
    coinb3bin = [];
    headerbin = [];
    enonce1varlen = 4;
    enonce2varlen = 8;
  };
}

abbrev one_pool : Sdata
one_pool = record {
  workbases = one_base ∷ [];
  current_workbase = some 5;
  workbase_id = 6;
  workbases_generated = 1;
  lasthash = replicate 64 48;
  blockchange_id = 5;
  shares = [];
  shares_generated = 0;
  users = [];
}

abbrev five_params : List (Option (List ℕ))
five_params =
    some (codes "rig")
    ∷ some (codes "5")
    ∷ some (codes "0011223344556677")
    ∷ some (codes "6553f100")
    ∷ some (codes "deadbeef")
    ∷ []

parse_submit-IsAccepted_example :
    ((parse_submit plain_world
          (some (codes "rig"))
          (some five_params)
          (some one_base)
          one_pool).result
        ≡ true
      → IsAccepted plain_world (some (codes "rig")) (some five_params) one_pool)
    × (IsAccepted plain_world (some (codes "rig")) (some five_params) one_pool
        → (parse_submit plain_world
            (some (codes "rig"))
            (some five_params)
            (some one_base)
            one_pool).result
          ≡ true)
parse_submit-IsAccepted_example =
    parse_submit-IsAccepted plain_world (some (codes "rig")) (some five_params) one_base one_pool

parse_submit-IsBalanced_example :
    IsBalanced plain_world one_pool
      (parse_submit plain_world (some (codes "rig")) (some five_params) (some one_base) one_pool)
parse_submit-IsBalanced_example =
    parse_submit-IsBalanced plain_world (some (codes "rig")) (some five_params) (some one_base)
      one_pool (omega arith, tt)

abbrev bad_share : ℕ → Seen
bad_share time = record {
  now = time;
  result = false;
  submit = false;
  share = true;
  wbincomplete = false;
}

disconnected-Streak_example :
    (t : ℕ) × Streak (bad_share 1190 ∷ bad_share 1000 ∷ []) t × (t + 180 < 1190)
unfolding action after throttle note_share is_invalid
disconnected-Streak_example = disconnected-Streak (bad_share 1190) (bad_share 1000 ∷ []) refl
