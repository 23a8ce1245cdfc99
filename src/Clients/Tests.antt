-- ===== src/Clients/Tests.antt =====
-- The witness of the theorem on clients and their references.
use ckpool.Common.{ℕ, ◌≡◌, refl, true, false, [], ◌∷◌, none, some}
use ckpool.Clients.{Instance, Sdata, instance_by_id, drop_client}
use ckpool.Clients.Entries.{count}
use ckpool.Clients.Refs.{World, none_yet, later, gone}
use ckpool.Clients.Leaks.{unheld-stays}

abbrev empty : Sdata
empty = record {
  stratum_instances = [];
  recycled_instances = 0;
  stratum_generated = 0;
  disconnected_sessions = [];
  disconnected = 0;
  disconnected_generated = 0;
  session_id = 0;
  enonce1_64 = 5;
}

abbrev client : ℕ → ℕ → ℕ → ℕ → Instance
client id sid e now = record {
  id = id;
  session_id = sid;
  enonce1_64 = e;
  ref = 1;
  dropped = false;
  authorised = false;
  authorising = false;
  user = none;
  start_time = now;
}

abbrev tagged_one : Instance
tagged_one = record (client 1 1 6 100) { ref = 0; dropped = true }

abbrev tagged_world : World
tagged_world = record {
  sdata = record empty { stratum_instances = tagged_one ∷ [] };
  holders = [];
  examiners = [];
  adding = [];
}

abbrev gone_world : World
gone_world = record tagged_world { sdata = drop_client 300 1 tagged_world.sdata }

unheld-stays_example :
    (d : Instance) × (instance_by_id 1 gone_world.sdata.stratum_instances ≡ some d)
    × (d.dropped ≡ true)
unfolding count instance_by_id
unheld-stays_example =
    unheld-stays tagged_world gone_world 1 tagged_one refl refl refl refl
      (later none_yet (gone 1 300))
