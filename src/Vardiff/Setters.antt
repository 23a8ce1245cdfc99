-- ===== src/Vardiff/Setters.antt =====
-- What sets client->diff without a share: __stratum_add_instance, parse_subscribe, parse_authorise,
-- suggest_diff and update_diff of src/stratifier.c. What strstr, strcasestr and strtoll find, and the
-- entries of mindiff_overrides, are parameters.
pub mod Sound
use ckpool.Common.{
  ℕ, zero, suc, ◌+◌, Bool, true, false, not, ◌&&◌, List, [], ◌∷◌, Option, none, some, ltb, ◌==◌,
  if◌then◌else◌, codes, drop, get_or,
}
use ckpool.Vardiff.{Doubles, Config, Tv, Client}

-- An entry of mindiff_overrides.
pub data Entry : Type 0 where
  missing : Entry
  integer : ℕ → Entry
  other_value : Entry

pub record Text : Type 0 where
  pub strstr : List ℕ → List ℕ → Option (List ℕ)
  pub strtoll : List ℕ → ℕ

module _ (D : Doubles) where
  -- client->diff = client->old_diff = diff
  pub set_both : ℕ → Client D → Client D
  set_both diff c = record c { diff = diff; old_diff = diff }

  -- A client that was zeroed, on a server.
  pub add_instance : Config → Bool → Tv → Client D → Client D
  add_instance cfg server_highdiff now_t zeroed =
      let c = record (set_both cfg.startdiff zeroed) { ldc = now_t } in
      let high = record c { suggest_diff = cfg.highdiff } in
      if server_highdiff
      then if ltb high.diff cfg.highdiff then set_both cfg.highdiff high else high
      else c

  -- The lower-case key, or the other one where that is missing.
  pub override_diff : Entry → Entry → ℕ → ℕ
  override_diff (integer n) mixed default = if n == 0 then default else n
  override_diff other_value mixed default = default
  override_diff missing (integer n) default = if n == 0 then default else n
  override_diff missing mixed default = default

  pub apply_rental : ℕ → Client D → Client D
  apply_rental diff c = record (set_both diff c) { suggest_diff = diff; rental_diff = true }

  -- parse_subscribe, by whether the user agent has the name of a service.
  pub rental_service : Bool → Bool → (List ℕ → Entry) → Client D → Client D
  rental_service nicehash miningrigrentals overrides c =
      if nicehash
      then apply_rental
          (override_diff (overrides (codes "nicehash")) (overrides (codes "NiceHash")) 500000) c
      else if miningrigrentals
      then apply_rental
          (override_diff (overrides (codes "miningrigrentals"))
            (overrides (codes "MiningRigRentals")) 1000000)
          c
      else c

  -- The loop over mindiff_overrides, by whether the workername has each key.
  pub pattern_diff : List (Bool × ℕ) → Client D → Client D
  pattern_diff [] c = c
  pattern_diff (entry ∷ entries) c =
      let rest = pattern_diff entries c in
      if entry.0 && not (entry.1 == 0)
      then record (set_both entry.1 c) { suggest_diff = entry.1 }
      else rest

  -- "d=" or "diff=", and the number behind it.
  pub parameter_number : Text → List ℕ → ℕ
  parameter_number text diff_str =
      if get_or diff_str 1 0 == b'='
      then text.strtoll (drop 2 diff_str)
      else text.strtoll (drop 5 diff_str)

  pub password_number : Text → List ℕ → Option ℕ
  password_number text pass = elim (text.strstr pass (codes "diff=")) [
    | some diff_str ↦ some (parameter_number text diff_str)
    | none ↦ elim (text.strstr pass (codes "d=")) [
      | some diff_str ↦ some (parameter_number text diff_str)
      | none ↦ none
    ]
  ]

  pub limited : Config → ℕ → ℕ
  limited cfg password_diff =
      let raised =
        if not (cfg.mindiff == 0) && ltb password_diff cfg.mindiff
        then cfg.mindiff
        else password_diff in
      if not (cfg.maxdiff == 0) && ltb cfg.maxdiff raised then cfg.maxdiff else raised

  pub apply_password : Config → Option ℕ → Client D → Client D
  apply_password cfg none c = c
  apply_password cfg (some password_diff) c =
      if password_diff == 0
      then c
      else record (set_both (limited cfg password_diff) c) { suggest_diff = password_diff }

  pub with_password : Config → Text → Option (List ℕ) → Client D → Client D
  with_password cfg text none c = c
  with_password cfg text (some pass) c = apply_password cfg (password_number text pass) c

  -- parse_authorise, from the overrides to the default.
  pub authorise_diff : Config → Text → List (Bool × ℕ) → Option (List ℕ) → Client D → Client D
  authorise_diff cfg text overrides pass before =
      let named = if before.rental_diff then before else pattern_diff overrides before in
      let c = with_password cfg text pass named in
      if c.diff == 0 then set_both cfg.startdiff c else c

  -- suggest_diff, and the difficulty that it sends; none for what is no number.
  pub suggest : Config → ℕ → Bool → Option ℕ → Client D → Client D × Option ℕ
  suggest cfg workbase_id active none c = (c, none)
  suggest cfg workbase_id active (some asked) c =
      let sdiff = if ltb asked cfg.mindiff then cfg.mindiff else asked in
      let suggested = record c { suggest_diff = sdiff } in
      if not active
      then (c, none)
      else if sdiff == c.suggest_diff
      then (c, none)
      else if c.diff == sdiff
      then (suggested, none)
      else (
        record suggested { diff_change_job_id = workbase_id; old_diff = c.diff; diff = sdiff },
        some sdiff,
      )

  -- update_diff, for a client of a proxy that had old_diff.
  pub update_diff : D.Double → D.Double → Client D → Client D × Option ℕ
  update_diff old_diff read c =
      let diff = if D.less read (D.decimal 1 0) then D.decimal 1 0 else read in
      if D.less old_diff diff
      then (c, none)
      else if D.less diff (D.of_int c.diff)
      then (record c { diff = D.truncate diff }, some (D.truncate diff))
      else (c, none)
