-- ===== src/Vardiff/Tests.antt =====
-- Runs of add_submit on numbers with three decimal places, and the witness.
use ckpool.Common.{ℕ, ◌+◌, ◌-◌, ◌*◌, ◌/◌, ◌^◌, ◌≡◌, refl, true, false, none, ltb, ◌==◌}
use ckpool.Vardiff.{
  Doubles, Tv, Config, Client, Meter, Sdata, network_of, Submitted, add_submit, retarget, shared,
  worker_shared, user_shared, count_stats, first_shared, decay, decay_time, time_bias,
  sane_exponent, sane_tdiff, tvdiff, add_double, unbiased, optimal_diff, clamp, least_diff,
  min_network, max_diff, min_diff, change_diff,
}

-- Three decimal places, and 1 + x for the exponential.
abbrev Thousandths : Doubles
Thousandths = record {
  Double = ℕ;
  of_int = λ n. 1000 * n;
  of_difference = λ a b. 1000 * (a - b);
  decimal = λ m p. 1000 * m / 10 ^ p;
  plus = λ a b. a + b;
  minus = λ a b. a - b;
  times = λ a b. a * b / 1000;
  over = λ a b. 1000 * a / b;
  exp = λ a. 1000 + a;
  less = ltb;
  equal = λ a b. a == b;
  lround = λ a. (a + 500) / 1000;
  truncate = λ a. a / 1000;
}

abbrev pool : Config
pool = record {
  mindiff = 1;
  maxdiff = 5000;
  startdiff = 42;
  highdiff = 1000000;
  node = false;
  proxy = false;
}

abbrev noon : Tv
noon = record { tv_sec = 1700000000; tv_usec = 0 }

abbrev unused : Meter Thousandths
unused = record {
  uadiff = 0;
  dsps1 = 0;
  dsps5 = 0;
  dsps60 = 0;
  dsps1440 = 0;
  dsps10080 = 0;
  last_decay = record { tv_sec = 0; tv_usec = 0 };
}

abbrev zeroed : Client Thousandths
zeroed = record {
  diff = 0;
  old_diff = 0;
  diff_change_job_id = 0;
  suggest_diff = 0;
  rental_diff = false;
  ssdc = 0;
  ldc = record { tv_sec = 0; tv_usec = 0 };
  first_share = record { tv_sec = 0; tv_usec = 0 };
  last_share = record { tv_sec = 0; tv_usec = 0 };
  idle = true;
  meter = unused;
}

abbrev from_client : Client Thousandths → Submitted Thousandths
from_client c = record {
  client = c;
  worker = record { shares = 0; meter = unused; last_share = noon; mindiff = 0; idle = true };
  user = record { shares = 0; meter = unused; last_share = noon };
  stats = record { unaccounted_shares = 0; unaccounted_diff_shares = 0; unaccounted_rejects = 0 };
  sent = none;
}

abbrev block : Sdata Thousandths
block = record { workbase_id = 7; current_workbase = record { diff = 0; network_diff = 80000000 } }

-- A client whose 72nd share comes at a high rate.
abbrev fast : Client Thousandths
fast = record zeroed {
  diff = 42;
  old_diff = 42;
  ssdc = 71;
  first_share = record { tv_sec = 1699999000; tv_usec = 0 };
  ldc = record { tv_sec = 1699999990; tv_usec = 0 };
  meter = record unused {
    dsps1 = 2000000;
    last_decay = record { tv_sec = 1699999999; tv_usec = 990000 };
  };
}

abbrev answer : Submitted Thousandths
answer = add_submit Thousandths pool block noon 42000 true true (from_client fast)

-- The pool's greatest difficulty, below what the rate would ask for.
raised :
    (answer.client.diff ≡ 5000)
    × ((answer.client.old_diff ≡ 42) × (answer.stats.unaccounted_shares ≡ 1))
unfolding add_submit network_of retarget shared worker_shared user_shared count_stats first_shared
    decay decay_time time_bias sane_exponent sane_tdiff tvdiff add_double unbiased optimal_diff
    clamp least_diff min_network max_diff min_diff change_diff
raised = (refl, (refl, refl))
