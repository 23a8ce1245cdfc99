-- ===== src/Clients/Leaks.antt =====
-- Dropped clients without a holder.
use ckpool.Common.{ℕ, ◌≡◌, ◌≢◌, refl, ap, ◌∙◌, Bool, true, false, List, ◌∷◌, some, arith}
use ckpool.Clients.{
  Instance, instance_by_id, Sender, known, dropped_sender, unknown, change, inc_ref, dec_ref,
  ref_instance_by_id, preauth_ref_instance_by_id, recv_instance, set_dropped, client_auth,
  request_reconnect, test_authorised, set_enonce1,
}
use ckpool.Clients.Entries.{
  count, count-without, entry, tagged, tagged-found, found-tagged, tagged-update, tagged-all,
}
use ckpool.Clients.Refs.{
  World, Step, received, recruited, added, taken, preauthorised, shared, returned, examined, passed,
  tested, authorised, subscribed, gone, reconnected, Lasts, none_yet, later,
}
use ckpool.Clients.Tagged.{
  added-Tagged, raised-Tagged, lowered-Tagged, recv-Tagged, ref-Tagged, preauth-Tagged, refused,
  returned-Tagged, drop-Tagged, subscribe-instances, test_authorised-id,
}

-- A dropped client that no thread holds, and none is about to add.
pub record IsStuck (id : ℕ) (w : World) : Type 0 where
  pub not_held : count id w.holders ≡ 0
  pub not_added : count id w.adding ≡ 0
  pub dropped_there : tagged (entry id w.sdata.stratum_instances) ≡ true

held_other : (id j : ℕ) (is : List ℕ) → j ≢ id → count id is ≡ 0 → count id (j ∷ is) ≡ 0
unfolding count
held_other id j is ne z = ground (arith, ne, z)

-- Whether a client of a message was dropped.
was_dropped : Sender → Bool
was_dropped known = false
was_dropped dropped_sender = true
was_dropped unknown = false

no_sender :
    (id j : ℕ) (s k : Sender)
    → s ≡ k
    → was_dropped k ≡ false
    → (j ≡ id → s ≡ dropped_sender)
    → j ≢ id
unfolding was_dropped
no_sender id j s k y live n =
    λ e. let f = ap was_dropped (n e) in let g = ap was_dropped y in ground (arith, f, g, live)

no_client : (id j : ℕ) (b : Bool) → b ≡ true → (j ≡ id → b ≡ false) → j ≢ id
no_client id j b y n = λ e. let f = n e in ground (arith, f, y)

step-IsStuck : (id : ℕ) (w v : World) → IsStuck id w → Step w v → IsStuck id v
unfolding was_dropped change request_reconnect client_auth test_authorised set_dropped inc_ref
    dec_ref set_enonce1
step-IsStuck id w v h (received j room ok) =
    let t = h.dropped_there in
    let ne =
      no_sender id j (recv_instance j w.sdata).0 known ok refl
        (λ e. ap (λ k. (recv_instance k w.sdata).0) e ∙ (refused id w.sdata t).0) in
    record {
      not_held = held_other id j w.holders ne h.not_held;
      not_added = h.not_added;
      dropped_there = recv-Tagged id j w.sdata t;
    }
step-IsStuck id w v h (recruited j ok) =
    let t = h.dropped_there in
    let ne =
      no_sender id j (recv_instance j w.sdata).0 unknown ok refl
        (λ e. ap (λ k. (recv_instance k w.sdata).0) e ∙ (refused id w.sdata t).0) in
    record {
      not_held = h.not_held;
      not_added = held_other id j w.adding ne h.not_added;
      dropped_there = recv-Tagged id j w.sdata t;
    }
step-IsStuck id w v h (added j now room some_added) =
    let z = h.not_added in
    let r = count-without id j w.adding some_added in
    let ne : j ≢ id =
      λ e. let k = ap (λ i. count i w.adding) e in omega (arith, z, k, some_added) in
    record {
      not_held = held_other id j w.holders ne h.not_held;
      not_added = omega (arith, z, r);
      dropped_there = added-Tagged id j now w.sdata ne h.dropped_there;
    }
step-IsStuck id w v h (taken j room ok) =
    let t = h.dropped_there in
    let ne =
      no_client id j (ref_instance_by_id j w.sdata).0 ok
        (λ e. ap (λ k. (ref_instance_by_id k w.sdata).0) e ∙ (refused id w.sdata t).1) in
    record {
      not_held = held_other id j w.holders ne h.not_held;
      not_added = h.not_added;
      dropped_there = ref-Tagged id j w.sdata t;
    }
step-IsStuck id w v h (preauthorised j room ok) =
    let t = h.dropped_there in
    let ne =
      no_client id j (preauth_ref_instance_by_id j w.sdata).0 ok
        (λ e. ap (λ k. (preauth_ref_instance_by_id k w.sdata).0) e ∙ (refused id w.sdata t).2) in
    record {
      not_held = held_other id j w.holders ne h.not_held;
      not_added = h.not_added;
      dropped_there = preauth-Tagged id j w.sdata t;
    }
step-IsStuck id w v h (shared j c room some_held found) =
    let z = h.not_held in
    let ne : j ≢ id =
      λ e. let k = ap (λ i. count i w.holders) e in omega (arith, z, k, some_held) in
    record {
      not_held = held_other id j w.holders ne z;
      not_added = h.not_added;
      dropped_there = raised-Tagged id j w.sdata h.dropped_there;
    }
step-IsStuck id w v h (returned j some_held) =
    let z = h.not_held in
    let r = count-without id j w.holders some_held in
    let ne : j ≢ id =
      λ e. let k = ap (λ i. count i w.holders) e in omega (arith, z, k, some_held) in
    record {
      not_held = omega (arith, z, r);
      not_added = h.not_added;
      dropped_there = returned-Tagged id j w.sdata ne h.dropped_there;
    }
step-IsStuck id w v h (examined j c room found) = record {
  not_held = h.not_held;
  not_added = h.not_added;
  dropped_there = raised-Tagged id j w.sdata h.dropped_there;
}
step-IsStuck id w v h (passed j some_held) = record {
  not_held = h.not_held;
  not_added = h.not_added;
  dropped_there = lowered-Tagged id j w.sdata h.dropped_there;
}
step-IsStuck id w v h (tested j now some_held) = record {
  not_held = h.not_held;
  not_added = h.not_added;
  dropped_there =
      tagged-update id j (test_authorised now) w.sdata.stratum_instances
        (λ c. test_authorised-id now c) (λ c d. ground (arith, d)) h.dropped_there;
}
step-IsStuck id w v h (authorised j ret userid some_held) = record {
  not_held = h.not_held;
  not_added = h.not_added;
  dropped_there =
      tagged-update id j (client_auth ret userid) w.sdata.stratum_instances (λ c. refl) (λ c d. d)
        h.dropped_there;
}
step-IsStuck id w v h (subscribed j sid some_held) =
    let (e, same) = subscribe-instances j sid w.sdata in
    record {
      not_held = h.not_held;
      not_added = h.not_added;
      dropped_there =
          ap (λ cs. tagged (entry id cs)) same
          ∙ tagged-update id j (set_enonce1 e) w.sdata.stratum_instances (λ c. refl) (λ c d. d)
              h.dropped_there;
    }
step-IsStuck id w v h (gone j now) = record {
  not_held = h.not_held;
  not_added = h.not_added;
  dropped_there = drop-Tagged id j now w.sdata h.dropped_there;
}
step-IsStuck id w v h reconnected = record {
  not_held = h.not_held;
  not_added = h.not_added;
  dropped_there = tagged-all id w.sdata.stratum_instances h.dropped_there;
}

lasts-IsStuck : (id : ℕ) (w v : World) → IsStuck id w → Lasts w v → IsStuck id v
lasts-IsStuck id w v h none_yet = h
lasts-IsStuck id w v h (later {u = u} r t) = step-IsStuck id u v (lasts-IsStuck id w u h r) t

-- A client that is tagged as dropped while no thread holds a reference that dec_instance_ref gives
-- back, and none is between the two sections that add a client of its id, is not recycled: whatever sections but that of drop_allclients run afterwards, it is still in
-- the table and still dropped.
pub unheld-stays :
    (w v : World) (id : ℕ) (c : Instance)
    → instance_by_id id w.sdata.stratum_instances ≡ some c
    → c.dropped ≡ true
    → count id w.holders ≡ 0
    → count id w.adding ≡ 0
    → Lasts w v
    → (d : Instance) × (instance_by_id id v.sdata.stratum_instances ≡ some d) × (d.dropped ≡ true)
unheld-stays w v id c found d none_held none_added r =
    let h : IsStuck id w = record {
      not_held = none_held;
      not_added = none_added;
      dropped_there = found-tagged id w.sdata.stratum_instances c found d;
    } in
    tagged-found id v.sdata.stratum_instances (lasts-IsStuck id w v h r).dropped_there
