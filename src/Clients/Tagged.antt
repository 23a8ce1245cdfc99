-- ===== src/Clients/Tagged.antt =====
-- A dropped client of an id in the table, and what every section leaves of it.
use mathlib.Core.Path.{subst}
use ckpool.Common.{
  ℕ, ◌+◌, ◌≡◌, ◌≢◌, inl, inr, refl, sym, ap, ◌∙◌, true, false, not, ◌&&◌, ◌||◌, some, ltb, ◌==◌,
  if◌then◌else◌, u32, u64, arith, Bool-cases, Option-cases, some_inj,
}
use ckpool.Clients.{
  Instance, Session, Sdata, instance_by_id, update_instance, find_session, recruit_stratum_instance,
  blank_instance, session_of, age_sessions, add_session, disconnect_session, change,
  stratum_add_instance, inc_ref, dec_ref, ref_instance_by_id, preauth_ref_instance_by_id,
  dropped_sender, recv_instance, kill_instance, set_dropped, drop_client, dec_instance_ref,
  disconnected_sessionid_exists, set_enonce1, subscribe, test_authorised,
}
use ckpool.Clients.Entries.{entry, tagged, tagged-found, tagged-update, tagged-other, entry-delete}

-- A tagged client of the id stays in the table.
abbrev pub Tagged : ℕ → Sdata → Type 0
Tagged id s = tagged (entry id s.stratum_instances) ≡ true

moved : (id : ℕ) (s s' : Sdata) → s ≡ s' → Tagged id s → Tagged id s'
moved id s s' e t = subst (λ (u : Sdata). Tagged id u) e t

recruit-instances :
    (s : Sdata) → (recruit_stratum_instance s).stratum_instances ≡ s.stratum_instances
unfolding recruit_stratum_instance
recruit-instances s = elim (Bool-cases (s.recycled_instances == 0)) [
  | inl e ↦ ground (arith, e)
  | inr e ↦ ground (arith, e)
]

pub added-Tagged :
    (id j now : ℕ) (s : Sdata) → j ≢ id → Tagged id s → Tagged id (stratum_add_instance j now s)
unfolding stratum_add_instance blank_instance inc_ref
added-Tagged id j now s ne t =
    tagged-other id (inc_ref (blank_instance j now (u32 (s.session_id + 1)))) s.stratum_instances ne
      t

pub raised-Tagged : (id j : ℕ) (s : Sdata) → Tagged id s → Tagged id (change inc_ref j s)
unfolding change inc_ref
raised-Tagged id j s t = tagged-update id j inc_ref s.stratum_instances (λ c. refl) (λ c d. d) t

pub lowered-Tagged : (id j : ℕ) (s : Sdata) → Tagged id s → Tagged id (change dec_ref j s)
unfolding change dec_ref
lowered-Tagged id j s t = tagged-update id j dec_ref s.stratum_instances (λ c. refl) (λ c d. d) t

pub recv-Tagged : (id j : ℕ) (s : Sdata) → Tagged id s → Tagged id (recv_instance j s).1
unfolding recv_instance
recv-Tagged id j s t = elim (Option-cases (instance_by_id j s.stratum_instances)) [
  | inl n ↦
      moved id (recruit_stratum_instance s) (recv_instance j s).1 (ground (arith, n))
        (ap (λ cs. tagged (entry id cs)) (recruit-instances s) ∙ t)
  | inr (c, found) ↦ elim (Bool-cases c.dropped) [
    | inl d ↦ moved id s (recv_instance j s).1 (ground (arith, found, d)) t
    | inr d ↦
        moved id (change inc_ref j s) (recv_instance j s).1 (ground (arith, found, d))
          (raised-Tagged id j s t)
  ]
]

pub ref-Tagged : (id j : ℕ) (s : Sdata) → Tagged id s → Tagged id (ref_instance_by_id j s).1
unfolding ref_instance_by_id
ref-Tagged id j s t = elim (Option-cases (instance_by_id j s.stratum_instances)) [
  | inl n ↦ moved id s (ref_instance_by_id j s).1 (ground (arith, n)) t
  | inr (c, found) ↦ elim (Bool-cases c.dropped) [
    | inl d ↦ moved id s (ref_instance_by_id j s).1 (ground (arith, found, d)) t
    | inr d ↦
        moved id (change inc_ref j s) (ref_instance_by_id j s).1 (ground (arith, found, d))
          (raised-Tagged id j s t)
  ]
]

pub preauth-Tagged :
    (id j : ℕ) (s : Sdata) → Tagged id s → Tagged id (preauth_ref_instance_by_id j s).1
unfolding preauth_ref_instance_by_id change inc_ref
preauth-Tagged id j s t = elim (Option-cases (instance_by_id j s.stratum_instances)) [
  | inl n ↦ moved id s (preauth_ref_instance_by_id j s).1 (ground (arith, n)) t
  | inr (c, found) ↦ elim (Bool-cases (c.dropped || c.authorising || c.authorised)) [
    | inl d ↦ moved id s (preauth_ref_instance_by_id j s).1 (ground (arith, found, d)) t
    | inr d ↦
        let f : Instance → Instance = λ c. record (inc_ref c) { authorising = true } in
        moved id (change f j s) (preauth_ref_instance_by_id j s).1 (ground (arith, found, d))
          (tagged-update id j f s.stratum_instances (λ c. refl) (λ c d. d) t)
  ]
]

-- A tagged client gets no new holder.
pub refused :
    (id : ℕ) (s : Sdata)
    → Tagged id s
    → ((recv_instance id s).0 ≡ dropped_sender)
      × ((ref_instance_by_id id s).0 ≡ false)
      × ((preauth_ref_instance_by_id id s).0 ≡ false)
unfolding recv_instance ref_instance_by_id preauth_ref_instance_by_id
refused id s t =
    let (c, found, d) = tagged-found id s.stratum_instances t in
    (ground (arith, found, d), ground (arith, found, d), ground (arith, found, d))

kill-Tagged : (id j : ℕ) (s : Sdata) → j ≢ id → Tagged id s → Tagged id (kill_instance j s)
unfolding kill_instance
kill-Tagged id j s ne t = ap tagged (entry-delete id j s.stratum_instances ne) ∙ t

pub returned-Tagged :
    (id j : ℕ) (s : Sdata) → j ≢ id → Tagged id s → Tagged id (dec_instance_ref j s)
unfolding dec_instance_ref
returned-Tagged id j s ne t =
    let s' = change dec_ref j s in
    let t' = lowered-Tagged id j s t in
    elim (Option-cases (instance_by_id j s'.stratum_instances)) [
      | inl n ↦ moved id s' (dec_instance_ref j s) (ground (arith, n)) t'
      | inr (d, f) ↦ elim (Bool-cases (d.dropped && d.ref == 0)) [
        | inl b ↦
            moved id (kill_instance j s') (dec_instance_ref j s) (ground (arith, f, b))
              (kill-Tagged id j s' ne t')
        | inr b ↦ moved id s' (dec_instance_ref j s) (ground (arith, f, b)) t'
      ]
    ]

not-Tagged :
    (id j : ℕ) (s : Sdata) (c : Instance)
    → instance_by_id j s.stratum_instances ≡ some c
    → c.dropped ≡ false
    → Tagged id s
    → j ≢ id
not-Tagged id j s c found d t = λ e.
    let (c', found', d') = tagged-found id s.stratum_instances t in
    let same = some_inj (sym found ∙ ap (λ k. instance_by_id k s.stratum_instances) e ∙ found') in
    let k = ap (λ (x : Instance). x.dropped) same in ground (arith, d, d', k)

session-instances :
    (x : Session) (s : Sdata) → (add_session x s).stratum_instances ≡ s.stratum_instances
unfolding add_session
session-instances x s = elim (Option-cases (find_session x.session_id s.disconnected_sessions)) [
  | inl n ↦ ground (arith, n)
  | inr (y, f) ↦ ground (arith, f)
]

disconnect-instances :
    (now : ℕ) (c : Instance) (s : Sdata)
    → (disconnect_session now c s).stratum_instances ≡ s.stratum_instances
unfolding disconnect_session age_sessions
disconnect-instances now c s = elim (Option-cases c.user) [
  | inl n ↦ ground (arith, n)
  | inr (userid, u) ↦
      let r = session-instances (session_of now c userid) (age_sessions now s) in
      elim (Bool-cases (c.enonce1_64 == 0 || not c.authorised)) [
        | inl h ↦ ground (arith, u, h)
        | inr h ↦ ground (arith, u, h, r)
      ]
]

pub drop-Tagged : (id j now : ℕ) (s : Sdata) → Tagged id s → Tagged id (drop_client now j s)
unfolding drop_client change set_dropped
drop-Tagged id j now s t = elim (Option-cases (instance_by_id j s.stratum_instances)) [
  | inl n ↦ moved id s (drop_client now j s) (ground (arith, n)) t
  | inr (c, found) ↦ elim (Bool-cases c.dropped) [
    | inl d ↦ moved id s (drop_client now j s) (ground (arith, found, d)) t
    | inr d ↦
        let s' = disconnect_session now c s in
        let same = disconnect-instances now c s in
        let t' : Tagged id s' = ap (λ cs. tagged (entry id cs)) same ∙ t in
        elim (Bool-cases (c.ref == 0)) [
          | inl r ↦
              moved id (kill_instance j s') (drop_client now j s) (ground (arith, found, d, r))
                (kill-Tagged id j s' (not-Tagged id j s c found d t) t')
          | inr r ↦
              moved id (change set_dropped j s') (drop_client now j s) (ground (arith, found, d, r))
                (tagged-update id j set_dropped s'.stratum_instances (λ c. refl) (λ c d. refl) t')
        ]
  ]
]

claimed-instances :
    (sid : ℕ) (s : Sdata)
    → (if sid == 0 then (0, s) else disconnected_sessionid_exists sid s).1.stratum_instances
      ≡ s.stratum_instances
unfolding disconnected_sessionid_exists
claimed-instances sid s = elim (Bool-cases (sid == 0)) [
  | inl z ↦ ground (arith, z)
  | inr z ↦ elim (Option-cases (find_session sid s.disconnected_sessions)) [
    | inl n ↦ ground (arith, z, n)
    | inr (x, f) ↦ ground (arith, z, f)
  ]
]

pub subscribe-instances :
    (id sid : ℕ) (s : Sdata)
    → (v : ℕ) × ((subscribe id sid s).stratum_instances
        ≡ update_instance (set_enonce1 v) id s.stratum_instances)
unfolding subscribe change
subscribe-instances id sid s =
    let old = (if sid == 0 then (0, s) else disconnected_sessionid_exists sid s).0 in
    let v = if old == 0 then u64 (s.enonce1_64 + 1) else old in
    (v, ap (λ cs. update_instance (set_enonce1 v) id cs) (claimed-instances sid s))

pub test_authorised-id : (now : ℕ) (c : Instance) → (test_authorised now c).id ≡ c.id
unfolding test_authorised set_dropped
test_authorised-id now c =
    elim (Bool-cases (not c.dropped && not c.authorised && ltb (c.start_time + 60) now)) [
      | inl h ↦ ground (arith, h)
      | inr h ↦ ground (arith, h)
    ]
