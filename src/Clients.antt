-- ===== src/Clients.antt =====
-- The clients of src/stratifier.c and the sessions of those that have gone: the functions on
-- stratum_instances, recycled_instances and disconnected_sessions, outside proxy mode. A hash table is
-- the list of its entries, of those of one key the one that HASH_FIND gives first; `ref` is an int, and
-- -1 is 2 ^ 32 - 1 here.
pub mod Entries
pub mod Refs
pub mod Tagged
pub mod Leaks
mod Tests
use ckpool.Common.{
  ℕ, zero, suc, ◌+◌, ◌-◌, ◌%◌, ◌^◌, Bool, true, false, not, ◌&&◌, ◌||◌, List, [], ◌∷◌, ◌++◌, map,
  Option, none, some, ltb, ◌==◌, if◌then◌else◌, u32, u64,
}

pub record Instance : Type 0 where
  pub id : ℕ
  pub session_id : ℕ
  pub enonce1_64 : ℕ
  pub ref : ℕ
  pub dropped : Bool
  pub authorised : Bool
  pub authorising : Bool
  pub user : Option ℕ
  pub start_time : ℕ

pub record Session : Type 0 where
  pub session_id : ℕ
  pub enonce1_64 : ℕ
  pub client_id : ℕ
  pub userid : ℕ
  pub added : ℕ

pub record Sdata : Type 0 where
  pub stratum_instances : List Instance
  pub recycled_instances : ℕ
  pub stratum_generated : ℕ
  pub disconnected_sessions : List Session
  pub disconnected : ℕ
  pub disconnected_generated : ℕ
  pub session_id : ℕ
  pub enonce1_64 : ℕ

-- __instance_by_id, and a change of the client found.
unfoldable pub instance_by_id : ℕ → List Instance → Option Instance
instance_by_id id [] = none
instance_by_id id (c ∷ cs) = if c.id == id then some c else instance_by_id id cs

unfoldable pub update_instance : (Instance → Instance) → ℕ → List Instance → List Instance
update_instance f id [] = []
update_instance f id (c ∷ cs) = if c.id == id then f c ∷ cs else c ∷ update_instance f id cs

unfoldable pub delete_instance : ℕ → List Instance → List Instance
delete_instance id [] = []
delete_instance id (c ∷ cs) = if c.id == id then cs else c ∷ delete_instance id cs

pub change : (Instance → Instance) → ℕ → Sdata → Sdata
change f id s = record s { stratum_instances = update_instance f id s.stratum_instances }

pub find_session : ℕ → List Session → Option Session
find_session sid [] = none
find_session sid (x ∷ xs) = if x.session_id == sid then some x else find_session sid xs

pub delete_session : ℕ → List Session → List Session
delete_session sid [] = []
delete_session sid (x ∷ xs) = if x.session_id == sid then xs else x ∷ delete_session sid xs

-- __recruit_stratum_instance: a structure that waits to be used again, or a new one.
pub recruit_stratum_instance : Sdata → Sdata
recruit_stratum_instance s =
    if s.recycled_instances == 0
    then record s { stratum_generated = s.stratum_generated + 1 }
    else record s { recycled_instances = s.recycled_instances - 1 }

pub blank_instance : ℕ → ℕ → ℕ → Instance
blank_instance id now sid = record {
  id = id;
  session_id = sid;
  enonce1_64 = 0;
  ref = 0;
  dropped = false;
  authorised = false;
  authorising = false;
  user = none;
  start_time = now;
}

-- __inc_instance_ref and __dec_instance_ref.
pub inc_ref : Instance → Instance
inc_ref c = record c { ref = u32 (c.ref + 1) }

pub dec_ref : Instance → Instance
dec_ref c = record c { ref = u32 (c.ref + 2 ^ 32 - 1) }

-- ref_instance_by_id: whether the client was found, with a reference to it then.
pub ref_instance_by_id : ℕ → Sdata → Bool × Sdata
ref_instance_by_id id s = elim (instance_by_id id s.stratum_instances) [
  | none ↦ (false, s)
  | some c ↦ if c.dropped then (false, s) else (true, change inc_ref id s)
]

-- preauth_ref_instance_by_id: the same for a client that is not authorising or authorised.
pub preauth_ref_instance_by_id : ℕ → Sdata → Bool × Sdata
preauth_ref_instance_by_id id s = elim (instance_by_id id s.stratum_instances) [
  | none ↦ (false, s)
  | some c ↦
      if c.dropped || c.authorising || c.authorised
      then (false, s)
      else (true, change (λ c. record (inc_ref c) { authorising = true }) id s)
]

-- srecv_process up to where __stratum_add_instance lets go of the lock: the client of a message is
-- there, dropped, or unknown; a structure is recruited for an unknown one.
pub data Sender : Type 0 where
  known : Sender
  dropped_sender : Sender
  unknown : Sender

pub recv_instance : ℕ → Sdata → Sender × Sdata
recv_instance id s = elim (instance_by_id id s.stratum_instances) [
  | none ↦ (unknown, recruit_stratum_instance s)
  | some c ↦ if c.dropped then (dropped_sender, s) else (known, change inc_ref id s)
]

-- __stratum_add_instance from there on, and the reference that srecv_process takes before it lets go
-- of the lock that this has taken again. Another thread may have added the id meanwhile.
pub stratum_add_instance : ℕ → ℕ → Sdata → Sdata
stratum_add_instance id now s =
    let sid = u32 (s.session_id + 1) in
    record s {
      session_id = sid;
      stratum_instances = inc_ref (blank_instance id now sid) ∷ s.stratum_instances;
    }

-- The sessions that __disconnect_session leaves from more than ten minutes ago, and their number.
pub young_sessions : ℕ → List Session → List Session
young_sessions now [] = []
young_sessions now (x ∷ xs) =
    let rest = young_sessions now xs in if ltb (x.added + 600) now then rest else x ∷ rest

pub old_count : ℕ → List Session → ℕ
old_count now [] = 0
old_count now (x ∷ xs) = (if ltb (x.added + 600) now then 1 else 0) + old_count now xs

pub age_sessions : ℕ → Sdata → Sdata
age_sessions now s = record s {
  disconnected_sessions = young_sessions now s.disconnected_sessions;
  disconnected = s.disconnected - old_count now s.disconnected_sessions;
}

pub session_of : ℕ → Instance → ℕ → Session
session_of now c userid = record {
  session_id = c.session_id;
  enonce1_64 = c.enonce1_64;
  client_id = c.id;
  userid = userid;
  added = now;
}

pub add_session : Session → Sdata → Sdata
add_session x s = elim (find_session x.session_id s.disconnected_sessions) [
  | some old ↦ s
  | none ↦ record s {
    disconnected_sessions = s.disconnected_sessions ++ (x ∷ []);
    disconnected = s.disconnected + 1;
    disconnected_generated = s.disconnected_generated + 1;
  }
]

pub disconnect_session : ℕ → Instance → Sdata → Sdata
disconnect_session now c s =
    let s' = age_sessions now s in
    elim c.user [
      | none ↦ s'
      | some userid ↦
          if c.enonce1_64 == 0 || not c.authorised
          then s'
          else add_session (session_of now c userid) s'
    ]

-- __kill_instance behind __del_client.
pub kill_instance : ℕ → Sdata → Sdata
kill_instance id s = record s {
  stratum_instances = delete_instance id s.stratum_instances;
  recycled_instances = s.recycled_instances + 1;
}

pub set_dropped : Instance → Instance
set_dropped c = record c { dropped = true }

-- drop_client: at once, or when the last reference goes.
pub drop_client : ℕ → ℕ → Sdata → Sdata
drop_client now id s = elim (instance_by_id id s.stratum_instances) [
  | none ↦ s
  | some c ↦
      if c.dropped
      then s
      else (let s' = disconnect_session now c s in
          if c.ref == 0 then kill_instance id s' else change set_dropped id s')
]

-- _dec_instance_ref: the client of a reference is in the table.
pub dec_instance_ref : ℕ → Sdata → Sdata
dec_instance_ref id s =
    let s' = change dec_ref id s in
    elim (instance_by_id id s'.stratum_instances) [
      | none ↦ s'
      | some c ↦ if c.dropped && c.ref == 0 then kill_instance id s' else s'
    ]

-- disconnected_sessionid_exists: the extra nonce of the session, 0 without one.
pub disconnected_sessionid_exists : ℕ → Sdata → ℕ × Sdata
disconnected_sessionid_exists sid s = elim (find_session sid s.disconnected_sessions) [
  | none ↦ (0, s)
  | some x ↦ (
    x.enonce1_64,
    record s {
      disconnected_sessions = delete_session sid s.disconnected_sessions;
      disconnected = s.disconnected - 1;
    },
  )
]

pub set_enonce1 : ℕ → Instance → Instance
set_enonce1 e c = record c { enonce1_64 = e }

-- The extra nonce in parse_subscribe, with a current workbase: the one of the old session (0 where
-- none is named), or the next one of new_enonce1.
pub subscribe : ℕ → ℕ → Sdata → Sdata
subscribe id sid s =
    let (old, s') = if sid == 0 then (0, s) else disconnected_sessionid_exists sid s in
    let e = if old == 0 then u64 (s.enonce1_64 + 1) else old in
    change (set_enonce1 e) id (record s' { enonce1_64 = if old == 0 then e else s.enonce1_64 })

-- client_auth, for the user that parse_authorise has given the client.
pub client_auth : Bool → ℕ → Instance → Instance
client_auth ret userid c = record c {
  authorised = c.authorised || ret;
  authorising = false;
  user = some userid;
}

-- request_reconnect tags every client.
pub request_reconnect : Sdata → Sdata
request_reconnect s = record s { stratum_instances = map set_dropped s.stratum_instances }

-- drop_allclients, with the clients that it kills.
pub dropped_clients : List Instance → List Instance
dropped_clients [] = []
dropped_clients (c ∷ cs) =
    let rest = dropped_clients cs in if c.ref == 0 then rest else set_dropped c ∷ rest

pub killed_count : List Instance → ℕ
killed_count [] = 0
killed_count (c ∷ cs) = (if c.ref == 0 then 1 else 0) + killed_count cs

pub drop_allclients : Sdata → Sdata
drop_allclients s = record s {
  stratum_instances = dropped_clients s.stratum_instances;
  recycled_instances = s.recycled_instances + killed_count s.stratum_instances;
}

-- statsupdate, on a client that it holds: one that has not authorised for a minute is tagged.
pub test_authorised : ℕ → Instance → Instance
test_authorised now c =
    if not c.dropped && not c.authorised && ltb (c.start_time + 60) now then set_dropped c else c
