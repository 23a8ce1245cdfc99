-- ===== src/Submit.antt =====
-- parse_submit of src/stratifier.c: what becomes of a share that a client sends. The doubles, the
-- clock and libc's sscanf are parameters, and so is submission_diff, which gives the share's
-- difficulty and hash. Statistics, logs and messages are left out.
pub mod Laws
pub mod Params
pub mod Accepted
pub mod Throttle
mod Tests
use Prim.Native.Nat.{bit_and}
use ckpool.Common.{
  ℕ, zero, suc, ◌+◌, ◌-◌, ◌*◌, ◌%◌, ◌^◌, Bool, true, false, not, ◌&&◌, ◌||◌, List, [], ◌∷◌, ◌++◌,
  Option, none, some, ltb, leb, ◌==◌, eq_bytes, get_elem?, if◌then◌else◌, length, take, drop,
  replicate,
}
use ckpool.Hex.{validhex}
use ckpool.Work.{Workbase, Sdata, get_workbase, put_workbase, find_workbase, new_share}

-- enum share_err, as far as parse_submit sets it.
pub data ShareErr : Type 0 where
  se_none se_not_array se_invalid_size se_no_username se_no_jobid se_no_nonce2 se_no_ntime :
      ShareErr
  se_no_nonce se_invalid_version_mask se_worker_mismatch se_invalid_jobid se_stale : ShareErr
  se_ntime_invalid se_dupe se_low_diff : ShareErr

-- A check of the parameters: an error, or what has been read.
pub data Check {ℓ} (A : Type ℓ) : Type ℓ where
  refused : ShareErr → Check A
  passed : A → Check A

infixl 5 ◌>>=◌
abbrev pub ◌>>=◌ {ℓ κ} : {X : Type ℓ} {Y : Type κ} (c : Check X) (next : X → Check Y) → Check Y
passed x >>= next = next x
refused why >>= next = refused why

abbrev pub demand : ShareErr → Bool → Check (Unit {0})
demand e true = passed tt
demand e false = refused e

infixl 5 ◌>>◌
abbrev pub ◌>>◌ {κ} : {Y : Type κ} (check : Check (Unit {0})) (next : Check Y) → Check Y
check >> next = check >>= λ done. next

-- json_string_value of an element; an absent one and one that is no string are NULL.
pub string_at : List (Option (List ℕ)) → ℕ → Option (List ℕ)
string_at params i = elim (get_elem? params i) [ none ↦ none | some value ↦ value ]

pub text : ShareErr → (List ℕ → Bool) → Option (List ℕ) → Check (List ℕ)
text e good none = refused e
text e good (some s) = if not (length s == 0) && good s then passed s else refused e

pub record Fields : Type 0 where
  pub job_id : List ℕ
  pub nonce2 : List ℕ
  pub ntime : List ℕ
  pub nonce : List ℕ
  pub version_mask32 : ℕ

pub mask_of : (List ℕ → ℕ) → ℕ → Option (List ℕ) → Check ℕ
mask_of scan32 allowed none = passed 0
mask_of scan32 allowed (some s) =
    let m = scan32 s in
    if not (length s == 0) && validhex s
    then (if not (m == 0) && not (bit_and (2 ^ 32 - 1 - allowed) m == 0)
        then refused se_invalid_version_mask
        else passed m)
    else passed 0

-- Up to the comparison with the client's worker name; `none` is a value that is no array.
pub check_params :
    (List ℕ → ℕ) → ℕ → Option (List ℕ) → Option (List (Option (List ℕ))) → Check Fields
check_params scan32 allowed client_name none = refused se_not_array
check_params scan32 allowed client_name (some params) = do
  demand se_invalid_size (leb 5 (length params))
  workername ← text se_no_username (λ s. true) (string_at params 0)
  job_id ← text se_no_jobid (λ s. true) (string_at params 1)
  nonce2 ← text se_no_nonce2 validhex (string_at params 2)
  ntime ← text se_no_ntime validhex (string_at params 3)
  nonce ← text se_no_nonce (λ s. leb 8 (length s) && validhex s) (string_at params 4)
  mask ← mask_of scan32 allowed (string_at params 5)
  demand se_worker_mismatch
      (elim client_name [ none ↦ false | some name ↦ eq_bytes workername name ])
  passed (record {
    job_id = job_id;
    nonce2 = nonce2;
    ntime = ntime;
    nonce = nonce;
    version_mask32 = mask;
  })

-- The nonce2 of the length that the workbase wants: cut, or filled up with zeros.
pub fit_nonce2 : ℕ → List ℕ → List ℕ
fit_nonce2 len nonce2 = take len (nonce2 ++ drop (length nonce2) (replicate 16 b'0'))

-- What comes back: the answer, whether it goes to the pool above, and the tables.
pub record Outcome : Type 0 where
  pub result : Bool
  pub submit : Bool
  pub share : Bool
  pub err : ShareErr
  pub sdata : Sdata

-- Doubles and the outside world.
pub record World : Type 1 where
  pub Diff : Type 0
  pub at_least : Diff → Diff → Bool
  pub wb_diff : Workbase → Diff
  pub network_diff : Workbase → Diff
  pub mindiff : Diff
  pub submission_diff : Workbase → List ℕ → ℕ → ℕ → List ℕ → Bool → Diff × List ℕ
  pub scan32 : List ℕ → ℕ
  pub scan_id : List ℕ → ℕ
  pub in_latency : Workbase → Bool
  pub version_mask : ℕ

module _ (W : World) where
  open W use {
    Diff, at_least, wb_diff, network_diff, mindiff, submission_diff, scan32, scan_id, in_latency,
    version_mask,
  }

  -- Stale, and not in time for a remote node's latency.
  pub is_late : ℕ → Workbase → Sdata → Bool
  is_late id wb s = ltb id s.blockchange_id && not (in_latency wb)

  -- wb->ntime32 + 7000 is a uint32_t.
  pub ntime_is_valid : ℕ → Workbase → Bool
  ntime_is_valid ntime32 wb = leb wb.ntime32 ntime32 && leb ntime32 ((wb.ntime32 + 7000) % 2 ^ 32)

  -- Behind out_put, for a share that is not invalid.
  pub settle : ℕ → Diff → List ℕ → Bool → Sdata → Outcome
  settle id sdiff hash submit s =
      let (fresh, s') = new_share hash id s in
      if at_least sdiff mindiff
      then record {
        result = fresh;
        submit = fresh && submit;
        share = true;
        err = if fresh then se_none else se_dupe;
        sdata = s';
      }
      else record { result = false; submit = false; share = true; err = se_low_diff; sdata = s }

  -- The difficulty and hash of a share, on the first 8 digits of its nonce.
  pub evaluated : Fields → Workbase → Sdata → Diff × List ℕ
  evaluated f wb s =
      submission_diff wb (fit_nonce2 (2 * wb.built.enonce2varlen) f.nonce2) (scan32 f.ntime)
        f.version_mask32 (take 8 f.nonce) (ltb (scan_id f.job_id) s.blockchange_id)

  -- With the workbase read.
  pub judge : Fields → Workbase → Workbase → Sdata → Outcome
  judge f current wb s =
      let id = scan_id f.job_id in
      let (sdiff, hash) = evaluated f wb s in
      let worthy = at_least sdiff (wb_diff wb) || at_least sdiff (network_diff current) in
      let s' = put_workbase id s in
      let settled = settle id sdiff hash worthy s' in
      if is_late id wb s
      then record { result = false; submit = worthy; share = true; err = se_stale; sdata = s' }
      else if ntime_is_valid (scan32 f.ntime) wb
      then settled
      else record {
        result = false;
        submit = false;
        share = true;
        err = se_ntime_invalid;
        sdata = s';
      }

  pub judge_found : Fields → Workbase → Option Workbase × Sdata → Outcome
  judge_found f current (some wb, s) = judge f current wb s
  judge_found f current (none, s) = record {
    result = false;
    submit = false;
    share = true;
    err = se_invalid_jobid;
    sdata = s;
  }

  -- The whole handler; `current` is the current workbase, and none while the pool starts.
  pub parse_submit :
      Option (List ℕ) → Option (List (Option (List ℕ))) → Option Workbase → Sdata → Outcome
  parse_submit client_name params current s =
      elim (check_params scan32 version_mask client_name params) [
        | refused e ↦ record { result = false; submit = false; share = false; err = e; sdata = s }
        | passed f ↦ elim current [
          | none ↦ record { result = false; submit = false; share = true; err = se_none; sdata = s }
          | some wb ↦ judge_found f wb (get_workbase (scan_id f.job_id) s)
        ]
      ]
