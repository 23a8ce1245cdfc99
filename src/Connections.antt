-- ===== src/Connections.antt =====
-- The life of the clients of src/connector.c: accept_client, ref_client_by_id, dec_instance_ref,
-- __drop_client, invalidate_client and drop_all_clients. A list of clients is oldest first; `ref` is an
-- int, with -1 as 2 ^ 32 - 1. What accept gives is a parameter.
pub mod Reach
pub mod Accounts
mod Tests
use ckpool.Common.{
  ℕ, ◌+◌, ◌-◌, ◌^◌, Bool, true, false, ◌&&◌, List, [], ◌∷◌, ◌++◌, Option, none, some, ltb, leb, not,
  ◌==◌, if◌then◌else◌, length, u32,
}

pub record Client : Type 0 where
  pub id : ℕ
  pub ref : ℕ
  pub invalid : Bool

pub record Cdata : Type 0 where
  pub clients : List Client
  pub dead_clients : List Client
  pub recycled_clients : ℕ
  pub clients_generated : ℕ
  pub dead_generated : ℕ
  pub client_ids : ℕ
  pub nfds : ℕ

pub find_client : ℕ → List Client → Option Client
find_client id [] = none
find_client id (c ∷ cs) = if c.id == id then some c else find_client id cs

pub update_client : (Client → Client) → ℕ → List Client → List Client
update_client f id [] = []
update_client f id (c ∷ cs) = if c.id == id then f c ∷ cs else c ∷ update_client f id cs

pub delete_client : ℕ → List Client → List Client
delete_client id [] = []
delete_client id (c ∷ cs) = if c.id == id then cs else c ∷ delete_client id cs

-- __inc_instance_ref and __dec_instance_ref.
pub inc_ref : Client → Client
inc_ref c = record c { ref = u32 (c.ref + 1) }

pub dec_ref : Client → Client
dec_ref c = record c { ref = u32 (c.ref + 2 ^ 32 - 1) }

pub recruit_client : Cdata → Cdata
recruit_client s =
    if s.recycled_clients == 0
    then record s { clients_generated = s.clients_generated + 1 }
    else record s { recycled_clients = s.recycled_clients - 1 }

-- How accept ends: with a socket of a known family or another one, or with an error.
pub data Accepted : Type 0 where
  connected : Accepted
  unknown_family : Accepted
  recoverable : Accepted
  accept_failed : Accepted

-- The locked section in which accept_client enters the client. The structure is new or one that was
-- cleared, without a reference.
pub entered : Cdata → Cdata
entered s = record s {
  client_ids = s.client_ids + 1;
  clients = s.clients ++ (record { id = s.client_ids; ref = 0; invalid = false } ∷ []);
  nfds = s.nfds + 1;
}

-- The reference of the epoll list, where epoll_ctl succeeds, which accept_client takes behind that section and without the lock:
-- the client may have been dropped, and recycled, meanwhile.
pub epoll_ref : ℕ → Cdata → Cdata
epoll_ref id s = elim (find_client id s.clients) [
  | some c ↦ record s { clients = update_client inc_ref id s.clients }
  | none ↦ record s { dead_clients = update_client inc_ref id s.dead_clients }
]

pub recycle_client : Cdata → Cdata
recycle_client s = record s { recycled_clients = s.recycled_clients + 1 }

-- accept_client, with the limit on the clients (0 for none): it returns, or recruits a structure.
pub server_full : ℕ → Cdata → Bool
server_full maxclients s = not (maxclients == 0) && leb maxclients (length s.clients)

-- Behind accept: the section of the recruited structure. An entered client takes the reference of the
-- epoll list next.
pub accept_ended : Accepted → Cdata → Cdata
accept_ended connected s = entered s
accept_ended unknown_family s = recycle_client s
accept_ended recoverable s = s
accept_ended accept_failed s = recycle_client s

-- ref_client_by_id: whether the client was found, with a reference to it then.
pub ref_client_by_id : ℕ → Cdata → Bool × Cdata
ref_client_by_id id s = elim (find_client id s.clients) [
  | none ↦ (false, s)
  | some c ↦
      if c.invalid
      then (false, s)
      else (true, record s { clients = update_client inc_ref id s.clients })
]

-- dec_instance_ref: the client of a reference is in one of the two lists.
pub dec_instance_ref : ℕ → Cdata → Cdata
dec_instance_ref id s = elim (find_client id s.clients) [
  | some c ↦ record s { clients = update_client dec_ref id s.clients }
  | none ↦ record s { dead_clients = update_client dec_ref id s.dead_clients }
]

-- __drop_client, which leaves an invalid client alone.
pub buried : Client → Client
buried c = record (dec_ref c) { invalid = true }

pub drop_client : ℕ → Cdata → Cdata
drop_client id s = elim (find_client id s.clients) [
  | none ↦ s
  | some c ↦ if c.invalid then s else record s {
    clients = delete_client id s.clients;
    dead_clients = s.dead_clients ++ (buried c ∷ []);
    dead_generated = s.dead_generated + 1;
  }
]

-- The end of invalidate_client: dead clients without a reference are recycled.
pub unreferenced : List Client → ℕ
unreferenced [] = 0
unreferenced (c ∷ cs) = (if c.ref == 0 then 1 else 0) + unreferenced cs

pub referenced : List Client → List Client
referenced [] = []
referenced (c ∷ cs) = let rest = referenced cs in if c.ref == 0 then rest else c ∷ rest

pub cull : Cdata → Cdata
cull s = record s {
  dead_clients = referenced s.dead_clients;
  recycled_clients = s.recycled_clients + unreferenced s.dead_clients;
}

pub invalidate_client : ℕ → Cdata → Cdata
invalidate_client id s = cull (drop_client id s)

pub drop_listed : List Client → Cdata → Cdata
drop_listed [] s = s
drop_listed (c ∷ cs) s = drop_listed cs (drop_client c.id s)

pub drop_all_clients : Cdata → Cdata
drop_all_clients s = drop_listed s.clients s
