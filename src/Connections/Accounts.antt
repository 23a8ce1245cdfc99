-- ===== src/Connections/Accounts.antt =====
-- Where the client structures of the connector are.
use mathlib.Core.Path.{subst}
use ckpool.Common.{
  ℕ, ◌+◌, ◌-◌, ◌≡◌, inl, inr, refl, false, List, [], ◌∷◌, some, length, length-append, ◌==◌, arith,
  Bool-cases, Option-cases,
}
use ckpool.Connections.{
  Client, Cdata, find_client, update_client, delete_client, inc_ref, dec_ref, recruit_client,
  Accepted, connected, unknown_family, recoverable, accept_failed, entered, recycle_client,
  accept_ended, epoll_ref, ref_client_by_id, dec_instance_ref, buried, drop_client, referenced,
  unreferenced, cull, invalidate_client, drop_listed, drop_all_clients,
}
use ckpool.Connections.Reach.{
  World, accepting, accepted, watched, taken, returned, dropped, invalidated, dropped_all, Reach,
  here, next, start,
}

length-update :
    (id : ℕ) (f : Client → Client) (cs : List Client) → length (update_client f id cs) ≡ length cs
unfolding update_client
length-update id f [] = refl
length-update id f (c ∷ cs) =
    let r = length-update id f cs in
    elim (Bool-cases (c.id == id)) [ inl e ↦ ground (arith, e) | inr e ↦ ground (arith, e, r) ]

length-delete :
    (id : ℕ) (cs : List Client) (c : Client)
    → find_client id cs ≡ some c
    → length (delete_client id cs) + 1 ≡ length cs
unfolding find_client delete_client
length-delete id [] c h = ground (arith, h)
length-delete id (d ∷ cs) c h = elim (Bool-cases (d.id == id)) [
  | inl e ↦ ground (arith, e)
  | inr e ↦ let r = length-delete id cs c (ground (arith, e, h)) in ground (arith, e, r)
]

length-referenced : (cs : List Client) → length (referenced cs) + unreferenced cs ≡ length cs
unfolding referenced unreferenced
length-referenced [] = refl
length-referenced (c ∷ cs) =
    let r = length-referenced cs in
    elim (Bool-cases (c.ref == 0)) [ inl e ↦ ground (arith, e, r) | inr e ↦ ground (arith, e, r) ]

-- The structures that are in a list.
unfoldable pub listed : Cdata → ℕ
listed s = length s.clients + length s.dead_clients + s.recycled_clients

-- n structures are in no list.
Lacks : ℕ → Cdata → Type 0
Lacks n s = s.clients_generated ≡ listed s + n

-- The structures that accept_client loses: the one of a recoverable error of accept.
unfoldable pub loses : Accepted → ℕ
loses connected = 0
loses unknown_family = 0
loses recoverable = 1
loses accept_failed = 0

recruit-Lacks : (n : ℕ) (s : Cdata) → Lacks n s → Lacks (n + 1) (recruit_client s)
unfolding Lacks listed recruit_client
recruit-Lacks n s h = elim (Bool-cases (s.recycled_clients == 0)) [
  | inl e ↦ ground (arith, e, h)
  | inr e ↦ ground (arith, e, h)
]

entered-Lacks : (n : ℕ) (s : Cdata) → Lacks (n + 1) s → Lacks n (entered s)
unfolding Lacks listed entered
entered-Lacks n s h =
    let l = length-append s.clients (record { id = s.client_ids; ref = 0; invalid = false } ∷ []) in
    omega (arith, h, l)

recycle-Lacks : (n : ℕ) (s : Cdata) → Lacks (n + 1) s → Lacks n (recycle_client s)
unfolding Lacks listed recycle_client
recycle-Lacks n s h = omega (arith, h)

plus_zero : (n : ℕ) (s : Cdata) → Lacks n s → Lacks (n + 0) s
plus_zero n s h = subst (λ k. Lacks k s) (omega arith) h

equal-Lacks : (n k : ℕ) (s s' : Cdata) → Lacks n s → n ≡ k → s ≡ s' → Lacks k s'
equal-Lacks n k s s' h e f = subst (Lacks k) f (subst (λ i. Lacks i s) e h)

ended-Lacks :
    (n : ℕ) (a : Accepted) (s : Cdata) → Lacks (n + 1) s → Lacks (n + loses a) (accept_ended a s)
unfolding accept_ended loses
ended-Lacks n connected s h = plus_zero n (entered s) (entered-Lacks n s h)
ended-Lacks n unknown_family s h = plus_zero n (recycle_client s) (recycle-Lacks n s h)
ended-Lacks n recoverable s h = h
ended-Lacks n accept_failed s h = plus_zero n (recycle_client s) (recycle-Lacks n s h)

epoll-Lacks : (n id : ℕ) (s : Cdata) → Lacks n s → Lacks n (epoll_ref id s)
unfolding epoll_ref Lacks listed
epoll-Lacks n id s h =
    let l = length-update id inc_ref s.clients in
    let k = length-update id inc_ref s.dead_clients in
    elim (Option-cases (find_client id s.clients)) [
      | inl none_there ↦ ground (arith, none_there, h, k)
      | inr (c, found) ↦ ground (arith, found, h, l)
    ]

ref-Lacks : (n id : ℕ) (s : Cdata) → Lacks n s → Lacks n (ref_client_by_id id s).1
unfolding ref_client_by_id Lacks listed
ref-Lacks n id s h =
    let l = length-update id inc_ref s.clients in
    elim (Option-cases (find_client id s.clients)) [
      | inl none_there ↦ ground (arith, none_there, h)
      | inr (c, found) ↦ elim (Bool-cases c.invalid) [
        | inl d ↦ ground (arith, found, d, h)
        | inr d ↦ ground (arith, found, d, h, l)
      ]
    ]

dec-Lacks : (n id : ℕ) (s : Cdata) → Lacks n s → Lacks n (dec_instance_ref id s)
unfolding dec_instance_ref Lacks listed
dec-Lacks n id s h =
    let l = length-update id dec_ref s.clients in
    let k = length-update id dec_ref s.dead_clients in
    elim (Option-cases (find_client id s.clients)) [
      | inl none_there ↦ ground (arith, none_there, h, k)
      | inr (c, found) ↦ ground (arith, found, h, l)
    ]

drop-Lacks : (n id : ℕ) (s : Cdata) → Lacks n s → Lacks n (drop_client id s)
unfolding drop_client Lacks listed
drop-Lacks n id s h = elim (Option-cases (find_client id s.clients)) [
  | inl none_there ↦ ground (arith, none_there, h)
  | inr (c, found) ↦ elim (Bool-cases c.invalid) [
    | inl d ↦ ground (arith, found, d, h)
    | inr d ↦
        let l = length-delete id s.clients c found in
        let k = length-append s.dead_clients (buried c ∷ []) in ground (arith, found, d, h, l, k)
  ]
]

cull-Lacks : (n : ℕ) (s : Cdata) → Lacks n s → Lacks n (cull s)
unfolding cull Lacks listed
cull-Lacks n s h = let l = length-referenced s.dead_clients in omega (arith, h, l)

drop_listed-Lacks : (n : ℕ) (cs : List Client) (s : Cdata) → Lacks n s → Lacks n (drop_listed cs s)
unfolding drop_listed
drop_listed-Lacks n [] s h = h
drop_listed-Lacks n (c ∷ cs) s h =
    drop_listed-Lacks n cs (drop_client c.id s) (drop-Lacks n c.id s h)

-- What the sections on a way lose.
unfoldable pub lost : {w v : World} → Reach w v → ℕ
lost here = 0
lost (next r (accepting m room)) = lost r
lost (next r (accepted a one)) = lost r + loses a
lost (next r (watched id waits)) = lost r
lost (next r (taken id room ok)) = lost r
lost (next r (returned id held)) = lost r
lost (next r (dropped id)) = lost r
lost (next r (invalidated id)) = lost r
lost (next r dropped_all) = lost r

reach-Lacks :
    (s : Cdata) (v : World) (r : Reach (start s) v)
    → Lacks 0 s
    → Lacks (v.recruited + lost r) v.cdata
unfolding lost invalidate_client drop_all_clients
reach-Lacks s v here h = h
reach-Lacks s v (next {u = u} r (accepting m room)) h =
    equal-Lacks (u.recruited + lost r + 1) (v.recruited + lost r) v.cdata v.cdata
      (recruit-Lacks (u.recruited + lost r) u.cdata (reach-Lacks s u r h)) (omega arith) refl
reach-Lacks s v (next {u = u} r (accepted a one)) h =
    equal-Lacks (u.recruited - 1 + lost r + loses a) (v.recruited + (lost r + loses a)) v.cdata
      v.cdata
      (ended-Lacks (u.recruited - 1 + lost r) a u.cdata (
        equal-Lacks (u.recruited + lost r) (u.recruited - 1 + lost r + 1) u.cdata u.cdata
          (reach-Lacks s u r h) (omega (arith, one)) refl))
      (omega arith) refl
reach-Lacks s v (next {u = u} r (watched id waits)) h =
    epoll-Lacks (u.recruited + lost r) id u.cdata (reach-Lacks s u r h)
reach-Lacks s v (next {u = u} r (taken id room ok)) h =
    ref-Lacks (u.recruited + lost r) id u.cdata (reach-Lacks s u r h)
reach-Lacks s v (next {u = u} r (returned id held)) h =
    dec-Lacks (u.recruited + lost r) id u.cdata (reach-Lacks s u r h)
reach-Lacks s v (next {u = u} r (dropped id)) h =
    drop-Lacks (u.recruited + lost r) id u.cdata (reach-Lacks s u r h)
reach-Lacks s v (next {u = u} r (invalidated id)) h =
    cull-Lacks (u.recruited + lost r) (drop_client id u.cdata)
      (drop-Lacks (u.recruited + lost r) id u.cdata (reach-Lacks s u r h))
reach-Lacks s v (next {u = u} r dropped_all) h =
    drop_listed-Lacks (u.recruited + lost r) u.cdata.clients u.cdata (reach-Lacks s u r h)

-- From a connector that has generated no client on, any sequence of sections: each client structure
-- that was generated is in the table, among the dead clients or among those to be reused, but for the
-- one that accept_client has recruited and not yet placed, and one for each time that it has come to a
-- recoverable error of accept.
pub reach-accounts :
    (s : Cdata) (w : World)
    → s.clients_generated ≡ 0
    → listed s ≡ 0
    → (r : Reach (start s) w) → w.cdata.clients_generated ≡ listed w.cdata + (w.recruited + lost r)
unfolding Lacks
reach-accounts s w none_yet no_lists r = reach-Lacks s w r (omega (arith, none_yet, no_lists))
