-- ===== src/Connections/Reach.antt =====
-- The threads of the connector on its clients. A world is the state with the references that the
-- threads have out, the structures that accept_client has recruited and not yet placed, and the clients
-- that it has entered without the reference of the epoll list.
use ckpool.Common.{ℕ, ◌+◌, ◌-◌, ◌^◌, ◌<◌, ◌≡◌, true, false, List, [], ◌∷◌}
use ckpool.Connections.{
  Cdata, recruit_client, server_full, Accepted, connected, unknown_family, recoverable,
  accept_failed, accept_ended, epoll_ref, ref_client_by_id, dec_instance_ref, drop_client,
  invalidate_client, drop_all_clients,
}
use ckpool.Clients.Entries.{count, without}

pub record World : Type 0 where
  pub cdata : Cdata
  pub holders : List ℕ
  pub recruited : ℕ
  pub entering : List ℕ

-- The ids of the clients that wait for their reference behind an end of accept.
unfoldable pub awaiting : Accepted → ℕ → List ℕ → List ℕ
awaiting connected id ids = id ∷ ids
awaiting unknown_family id ids = ids
awaiting recoverable id ids = ids
awaiting accept_failed id ids = ids

-- One section of one thread, the server full or not when accept_client looks. Taking a reference leaves
-- fewer than 2 ^ 32 - 1 of them.
pub data Step (w : World) : World → Type 0 where
  accepting :
      (maxclients : ℕ)
      → server_full maxclients w.cdata ≡ false
      → Step w (record w { cdata = recruit_client w.cdata; recruited = w.recruited + 1 })
  accepted :
      (a : Accepted)
      → 0 < w.recruited
      → Step w (record w {
        cdata = accept_ended a w.cdata;
        recruited = w.recruited - 1;
        entering = awaiting a w.cdata.client_ids w.entering;
      })
  watched :
      (id : ℕ)
      → 0 < count id w.entering
      → Step w (record w { cdata = epoll_ref id w.cdata; entering = without id w.entering })
  taken :
      (id : ℕ)
      → count id w.holders + 2 < 2 ^ 32
      → (ref_client_by_id id w.cdata).0 ≡ true
      → Step w (record w { cdata = (ref_client_by_id id w.cdata).1; holders = id ∷ w.holders })
  returned :
      (id : ℕ)
      → 0 < count id w.holders
      → Step w (record w { cdata = dec_instance_ref id w.cdata; holders = without id w.holders })
  dropped : (id : ℕ) → Step w (record w { cdata = drop_client id w.cdata })
  invalidated : (id : ℕ) → Step w (record w { cdata = invalidate_client id w.cdata })
  dropped_all : Step w (record w { cdata = drop_all_clients w.cdata })

pub data Reach (w : World) : World → Type 0 where
  here : Reach w w
  next : {u v : World} → Reach w u → Step u v → Reach w v

-- The state without a thread in it.
abbrev pub start : Cdata → World
start s = record { cdata = s; holders = []; recruited = 0; entering = [] }
