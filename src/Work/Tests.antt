-- ===== src/Work/Tests.antt =====
-- Witnesses of the theorems on workbases and shares, in a pool that has just started.
use ckpool.Common.{ℕ, ◌≡◌, refl, false, List, [], ◌∷◌, some, replicate, eq_bytes, arith}
use ckpool.Coinbase.{Coinbase}
use ckpool.Work.{
  Workbase, Sdata, find_workbase, new_share, add_base, find_share, delete_workbase, discard, is_old,
  age_workbases, insert_base, get_workbase, update_readcount,
}
use ckpool.Work.Table.{known}
use ckpool.Work.Shares.{Event, added, submitted, taken, run, step, IsCurrent, new_share-once}
use ckpool.Work.Kept.{IsTable, add_base-IsTable}

abbrev no_coinbase : Coinbase
no_coinbase = record {
  coinb1bin = [];
  coinb2bin = [];
  coinb3bin = [];
  headerbin = [];
  enonce1varlen = 4;
  enonce2varlen = 8;
}

abbrev base : ℕ → ℕ → Workbase
base id time = record {
  id = id;
  gentime_sec = time;
  ntime32 = 1700000000;
  readcount = 0;
  prevhash = replicate 64 48;
  built = no_coinbase;
}

abbrev two_bases : Sdata
two_bases = record {
  workbases = base 4 1000 ∷ base 5 1030 ∷ [];
  current_workbase = some 5;
  workbase_id = 6;
  workbases_generated = 2;
  lasthash = replicate 64 48;
  blockchange_id = 4;
  shares = [];
  shares_generated = 0;
  users = [];
}

abbrev a_hash : List ℕ
a_hash = replicate 32 9

abbrev some_events : List Event
some_events = taken 4 ∷ added (base 0 1060) ∷ submitted (replicate 32 8) 6 ∷ []

abbrev shared : Sdata
shared = (new_share a_hash 5 two_bases).1

still-IsCurrent : IsCurrent 5 (run false some_events shared)
unfolding run step new_share find_share add_base insert_base age_workbases is_old discard
    delete_workbase known eq_bytes get_workbase update_readcount
still-IsCurrent = record { in_table = refl; no_newer_block = omega arith }

new_share-once_example : (new_share a_hash 6 (run false some_events shared)).0 ≡ false
unfolding new_share find_share
new_share-once_example =
    new_share-once false a_hash 5 6 two_bases some_events (omega arith) refl still-IsCurrent

two_bases-IsTable : IsTable two_bases
unfolding find_workbase
two_bases-IsTable = record {
  distinct = (refl, (refl, tt));
  below = (omega arith, (omega arith, tt));
}

add_base-IsTable_example : IsTable (add_base false false (base 0 5000) false two_bases).1
add_base-IsTable_example = add_base-IsTable false false (base 0 5000) two_bases two_bases-IsTable
