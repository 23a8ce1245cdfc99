-- ===== src/Vardiff.antt =====
-- The difficulty of a client: add_submit of src/stratifier.c with decay_client, decay_worker,
-- decay_user and time_bias, decay_time, sane_tdiff and tvdiff of src/libckpool.c; and what else sets
-- client->diff, in __stratum_add_instance, parse_subscribe, parse_authorise, suggest_diff and
-- update_diff. Doubles are a parameter. A number read from a client or the configuration that is
-- negative stands as 0: each such test takes both the same way.
pub mod Setters
pub mod Bounds
pub mod Change
pub mod Answers
pub mod Reach
mod Tests
use ckpool.Common.{
  ℕ, zero, suc, ◌+◌, ◌-◌, ◌*◌, Bool, true, false, not, ◌&&◌, ◌||◌, Option, none, some, ltb, leb,
  ◌==◌, if◌then◌else◌,
}

-- double and its operations. of_difference is the double of a difference of integers, decimal m p
-- the constant m / 10 ^ p, and truncate the conversion to an integer.
pub record Doubles : Type 1 where
  pub Double : Type 0
  pub of_int : ℕ → Double
  pub of_difference : ℕ → ℕ → Double
  pub decimal : ℕ → ℕ → Double
  pub plus : Double → Double → Double
  pub minus : Double → Double → Double
  pub times : Double → Double → Double
  pub over : Double → Double → Double
  pub exp : Double → Double
  pub less : Double → Double → Bool
  pub equal : Double → Double → Bool
  pub lround : Double → ℕ
  pub truncate : Double → ℕ

pub record Tv : Type 0 where
  pub tv_sec : ℕ
  pub tv_usec : ℕ

pub record Config : Type 0 where
  pub mindiff : ℕ
  pub maxdiff : ℕ
  pub startdiff : ℕ
  pub highdiff : ℕ
  pub node : Bool
  pub proxy : Bool

-- MAX and MIN.
pub max_diff : ℕ → ℕ → ℕ
max_diff a b = if ltb b a then a else b

pub min_diff : ℕ → ℕ → ℕ
min_diff a b = if ltb a b then a else b

module _ (D : Doubles) where
  -- The hashmeter of a client, a worker or a user.
  pub record Meter : Type 0 where
    pub uadiff : ℕ
    pub dsps1 : D.Double
    pub dsps5 : D.Double
    pub dsps60 : D.Double
    pub dsps1440 : D.Double
    pub dsps10080 : D.Double
    pub last_decay : Tv

  pub record Client : Type 0 where
    pub diff : ℕ
    pub old_diff : ℕ
    pub diff_change_job_id : ℕ
    pub suggest_diff : ℕ
    pub rental_diff : Bool
    pub ssdc : ℕ
    pub ldc : Tv
    pub first_share : Tv
    pub last_share : Tv
    pub idle : Bool
    pub meter : Meter

  pub record Worker : Type 0 where
    pub shares : ℕ
    pub meter : Meter
    pub last_share : Tv
    pub mindiff : ℕ
    pub idle : Bool

  pub record User : Type 0 where
    pub shares : ℕ
    pub meter : Meter
    pub last_share : Tv

  pub record Stats : Type 0 where
    pub unaccounted_shares : ℕ
    pub unaccounted_diff_shares : ℕ
    pub unaccounted_rejects : ℕ

  pub tvdiff : Tv → Tv → D.Double
  tvdiff end start =
      D.plus (D.of_difference end.tv_sec start.tv_sec)
        (D.over (D.of_difference end.tv_usec start.tv_usec) (D.decimal 1000000 0))

  pub sane_tdiff : Tv → Tv → D.Double
  sane_tdiff end start =
      let tdiff = tvdiff end start in if D.less tdiff (D.decimal 1 3) then D.decimal 1 3 else tdiff

  -- At most 36.
  pub sane_exponent : D.Double → D.Double
  sane_exponent dexp = if D.less (D.decimal 36 0) dexp then D.decimal 36 0 else dexp

  pub decay_time : D.Double → D.Double → D.Double → D.Double → D.Double
  decay_time f fadd fsecs interval =
      let dexp = sane_exponent (D.over fsecs interval) in
      let fprop = D.minus (D.decimal 1 0) (D.over (D.decimal 1 0) (D.exp dexp)) in
      let ftotal = D.plus (D.decimal 1 0) fprop in
      let decayed = D.over (D.plus f (D.times (D.over fadd fsecs) fprop)) ftotal in
      if D.less fsecs (D.decimal 0 0) || D.equal fsecs (D.decimal 0 0)
      then f
      else if D.less decayed (D.decimal 2 16)
      then D.decimal 0 0
      else decayed

  pub time_bias : D.Double → D.Double → D.Double
  time_bias tdiff period =
      D.minus (D.decimal 1 0) (D.over (D.decimal 1 0) (D.exp (sane_exponent (D.over tdiff period))))

  -- n += diff, for an integer n.
  pub add_double : ℕ → D.Double → ℕ
  add_double n diff = D.truncate (D.plus (D.of_int n) diff)

  -- decay_client, decay_worker and decay_user.
  pub decay : Meter → D.Double → Tv → Meter
  decay m diff now_t =
      let tdiff = sane_tdiff now_t m.last_decay in
      let total = D.plus diff (D.of_int m.uadiff) in
      if D.less tdiff (D.decimal 5 2)
      then record m { uadiff = add_double m.uadiff diff }
      else record {
        uadiff = 0;
        dsps1 = decay_time m.dsps1 total tdiff (D.decimal 60 0);
        dsps5 = decay_time m.dsps5 total tdiff (D.decimal 300 0);
        dsps60 = decay_time m.dsps60 total tdiff (D.decimal 3600 0);
        dsps1440 = decay_time m.dsps1440 total tdiff (D.decimal 86400 0);
        dsps10080 = decay_time m.dsps10080 total tdiff (D.decimal 604800 0);
        last_decay = now_t;
      }

  pub record Workbase : Type 0 where
    pub diff : D.Double
    pub network_diff : D.Double

  -- The current workbase, and the id that sdata gives next.
  pub record Sdata : Type 0 where
    pub workbase_id : ℕ
    pub current_workbase : Workbase

  pub network_of : Config → Sdata → D.Double
  network_of cfg sdata =
      if cfg.proxy then sdata.current_workbase.diff else sdata.current_workbase.network_diff

  -- What add_submit reads and writes, and the difficulty that it sends to the client, if any.
  pub record Submitted : Type 0 where
    pub client : Client
    pub worker : Worker
    pub user : User
    pub stats : Stats
    pub sent : Option ℕ

  -- dsps: the average over one minute behind 72 shares, else that over five.
  pub unbiased : Client → D.Double → D.Double
  unbiased c bdiff =
      if leb 72 c.ssdc
      then D.over c.meter.dsps1 (time_bias bdiff (D.decimal 60 0))
      else D.over c.meter.dsps5 (time_bias bdiff (D.decimal 300 0))

  -- MIN(optimal, network_diff), of an integer and a double.
  pub min_network : ℕ → D.Double → ℕ
  min_network optimal network_diff =
      if D.less (D.of_int optimal) network_diff then optimal else D.truncate network_diff

  pub clamp : Config → ℕ → D.Double → ℕ → ℕ
  clamp cfg mindiff network_diff optimal =
      let raised = max_diff (max_diff optimal cfg.mindiff) mindiff in
      min_network (if cfg.maxdiff == 0 then raised else min_diff raised cfg.maxdiff) network_diff

  pub least_diff : Client → Worker → ℕ
  least_diff c w = if c.suggest_diff == 0 then w.mindiff else c.suggest_diff

  -- The new difficulty by the diff rate ratio, where it is not within its limits.
  pub optimal_diff : Config → D.Double → Client → Worker → D.Double → Option ℕ
  optimal_diff cfg network_diff c w dsps =
      let drr = D.over dsps (D.of_int c.diff) in
      let mindiff = least_diff c w in
      if D.less (D.decimal 15 2) drr && D.less drr (D.decimal 4 1)
      then none
      else if mindiff == 0
      then some (clamp cfg mindiff network_diff (D.lround (D.times dsps (D.decimal 333 2))))
      else if D.less drr (D.decimal 5 1)
      then none
      else some (clamp cfg mindiff network_diff (D.lround (D.times dsps (D.decimal 24 1))))

  -- The rest of add_submit behind an optimal difficulty.
  pub change_diff : ℕ → Tv → Client → ℕ → Client × Option ℕ
  change_diff next_blockid now_t c optimal =
      if ltb optimal 1
      then (c, none)
      else if c.diff == optimal
      then (c, none)
      else if ltb optimal c.diff && c.ssdc == 1
      then (record c { ldc = now_t }, none)
      else (
        record c {
          ssdc = 0;
          ldc = now_t;
          diff_change_job_id = next_blockid;
          old_diff = c.diff;
          diff = optimal;
        },
        some optimal,
      )

  -- add_submit from the count of shares on.
  pub retarget : Config → Sdata → Tv → D.Double → Client → Worker → Client × Option ℕ
  retarget cfg sdata now_t diff before w =
      let c = record before { ssdc = before.ssdc + 1 } in
      let bdiff = sane_tdiff now_t c.first_share in
      let tdiff = sane_tdiff now_t c.ldc in
      let network_diff = network_of cfg sdata in
      if ltb c.ssdc 72 && D.less tdiff (D.decimal 240 0)
      then (c, none)
      else if not (D.equal diff (D.of_int c.diff))
      then (record c { ssdc = 0 }, none)
      else elim (optimal_diff cfg network_diff c w (unbiased c bdiff)) [
        | none ↦ (c, none)
        | some optimal ↦ change_diff sdata.workbase_id now_t c optimal
      ]

  pub count_stats : Bool → D.Double → Stats → Stats
  count_stats valid diff s =
      if valid
      then record s {
        unaccounted_shares = s.unaccounted_shares + 1;
        unaccounted_diff_shares = add_double s.unaccounted_diff_shares diff;
      }
      else record s { unaccounted_rejects = add_double s.unaccounted_rejects diff }

  pub first_shared : Tv → Client → Client
  first_shared now_t c =
      if c.first_share.tv_sec == 0 then record c { first_share = now_t; ldc = now_t } else c

  pub shared : Tv → D.Double → Client → Client
  shared now_t diff before =
      let c = first_shared now_t before in
      record c { meter = decay c.meter diff now_t; last_share = now_t; idle = false }

  pub worker_shared : Tv → D.Double → Bool → Worker → Worker
  worker_shared now_t diff valid w = record {
    shares = if valid then add_double w.shares diff else w.shares;
    meter = decay w.meter diff now_t;
    last_share = now_t;
    mindiff = w.mindiff;
    idle = false;
  }

  pub user_shared : Tv → D.Double → Bool → User → User
  user_shared now_t diff valid u = record {
    shares = if valid then add_double u.shares diff else u.shares;
    meter = decay u.meter diff now_t;
    last_share = now_t;
  }

  pub add_submit : Config → Sdata → Tv → D.Double → Bool → Bool → Submitted → Submitted
  add_submit cfg sdata now_t diff valid submit s =
      let stats = count_stats valid diff s.stats in
      let c = shared now_t diff s.client in
      let w = worker_shared now_t diff valid s.worker in
      let u = user_shared now_t diff valid s.user in
      let changed = retarget cfg sdata now_t diff c w in
      if not valid && not submit
      then record {
        client = s.client;
        worker = s.worker;
        user = s.user;
        stats = stats;
        sent = none;
      }
      else if cfg.node
      then record { client = c; worker = w; user = u; stats = stats; sent = none }
      else record { client = changed.0; worker = w; user = u; stats = stats; sent = changed.1 }
