-- ===== src/Clients/Refs.antt =====
-- The threads on the clients. A world is the state of the stratifier with the references that are out:
-- those that dec_instance_ref gives back, and those of loops over all clients (statsupdate,
-- stratum_broadcast_updates), which __dec_instance_ref alone gives back; and with the ids for which a
-- thread is between the two sections of __stratum_add_instance.
use ckpool.Common.{ℕ, ◌+◌, ◌^◌, ◌<◌, ◌≡◌, Bool, true, List, ◌∷◌, some}
use ckpool.Clients.{
  Instance, Sdata, instance_by_id, change, inc_ref, dec_ref, ref_instance_by_id,
  preauth_ref_instance_by_id, known, unknown, recv_instance, stratum_add_instance, drop_client,
  dec_instance_ref, client_auth, request_reconnect, test_authorised, subscribe,
}
use ckpool.Clients.Entries.{count, without}

-- The references that are out.
pub record World : Type 0 where
  pub sdata : Sdata
  pub holders : List ℕ
  pub examiners : List ℕ
  pub adding : List ℕ

abbrev pub out : World → ℕ → ℕ
out w id = count id w.holders + count id w.examiners

-- One critical section of one thread. Taking a reference leaves fewer than 2 ^ 32 of them.
pub data Step (w : World) : World → Type 0 where
  received :
      (id : ℕ)
      → out w id + 1 < 2 ^ 32
      → (recv_instance id w.sdata).0 ≡ known
      → Step w (record w { sdata = (recv_instance id w.sdata).1; holders = id ∷ w.holders })
  recruited :
      (id : ℕ)
      → (recv_instance id w.sdata).0 ≡ unknown
      → Step w (record w { sdata = (recv_instance id w.sdata).1; adding = id ∷ w.adding })
  added :
      (id now : ℕ)
      → out w id + 1 < 2 ^ 32
      → 0 < count id w.adding
      → Step w (record w {
        sdata = stratum_add_instance id now w.sdata;
        holders = id ∷ w.holders;
        adding = without id w.adding;
      })
  taken :
      (id : ℕ)
      → out w id + 1 < 2 ^ 32
      → (ref_instance_by_id id w.sdata).0 ≡ true
      → Step w (record w { sdata = (ref_instance_by_id id w.sdata).1; holders = id ∷ w.holders })
  preauthorised :
      (id : ℕ)
      → out w id + 1 < 2 ^ 32
      → (preauth_ref_instance_by_id id w.sdata).0 ≡ true
      → Step w
          (record w { sdata = (preauth_ref_instance_by_id id w.sdata).1; holders = id ∷ w.holders })
  shared :
      (id : ℕ) (c : Instance)
      → out w id + 1 < 2 ^ 32
      → 0 < count id w.holders
      → instance_by_id id w.sdata.stratum_instances ≡ some c
      → Step w (record w { sdata = change inc_ref id w.sdata; holders = id ∷ w.holders })
  returned :
      (id : ℕ)
      → 0 < count id w.holders
      → Step w (record w { sdata = dec_instance_ref id w.sdata; holders = without id w.holders })
  examined :
      (id : ℕ) (c : Instance)
      → out w id + 1 < 2 ^ 32
      → instance_by_id id w.sdata.stratum_instances ≡ some c
      → Step w (record w { sdata = change inc_ref id w.sdata; examiners = id ∷ w.examiners })
  passed :
      (id : ℕ)
      → 0 < count id w.examiners
      → Step w (record w { sdata = change dec_ref id w.sdata; examiners = without id w.examiners })
  tested :
      (id now : ℕ)
      → 0 < count id w.examiners
      → Step w (record w { sdata = change (test_authorised now) id w.sdata })
  authorised :
      (id : ℕ) (ret : Bool) (userid : ℕ)
      → 0 < count id w.holders
      → Step w (record w { sdata = change (client_auth ret userid) id w.sdata })
  subscribed :
      (id sid : ℕ) → 0 < count id w.holders → Step w (record w { sdata = subscribe id sid w.sdata })
  gone : (id now : ℕ) → Step w (record w { sdata = drop_client now id w.sdata })
  reconnected : Step w (record w { sdata = request_reconnect w.sdata })

-- Sections one after the other, without those of drop_allclients.
pub data Lasts (w : World) : World → Type 0 where
  none_yet : Lasts w w
  later : {u v : World} → Lasts w u → Step u v → Lasts w v
