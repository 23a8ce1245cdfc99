-- ===== src/Submit/Accepted.antt =====
-- What a share has to be for parse_submit to accept it, said without the checks of the code.
use ckpool.Common.{
  ℕ, ◌+◌, ◌%◌, ◌^◌, ◌≤◌, ◌≡◌, refl, ap, sym, ◌∙◌, ◌⊎◌, inl, inr, Bool, true, false, not, ◌&&◌, List,
  Option, none, some, arith, Bool-cases, Option-cases,
}
use ckpool.Work.{Workbase, Share, Sdata, find_workbase, find_share}
use ckpool.Submit.{Fields, check_params, World, is_late, ntime_is_valid, evaluated, parse_submit}
use ckpool.Submit.Laws.{is_new, acceptable, acceptable_params, parse_submit-acceptable, Check-cases}
use ckpool.Submit.Params.{IsParams, check_params_inv, check_params_to}

module _ (W : World) where
  open W use {at_least, mindiff, scan32, scan_id, in_latency, version_mask}

  -- A share that counts: its parameters are those of the client; its workbase is known, and of the
  -- current block or in the latency of its node; its time is in the 7000 seconds from the workbase's,
  -- as 32-bit numbers; its difficulty is at least the pool's least; and its hash is not among the
  -- shares.
  pub record IsAccepted (client_name : Option (List ℕ)) (params : Option (List (Option (List ℕ))))
      (s : Sdata) : Type 0 where
    pub name : List ℕ
    pub values : List (Option (List ℕ))
    pub fields : Fields
    pub wb : Workbase
    pub client_named : client_name ≡ some name
    pub is_array : params ≡ some values
    pub is_read : IsParams scan32 version_mask name values fields
    pub known : find_workbase (scan_id fields.job_id) s.workbases ≡ some wb
    pub timely : (s.blockchange_id ≤ scan_id fields.job_id) ⊎ (in_latency wb ≡ true)
    pub not_early : wb.ntime32 ≤ scan32 fields.ntime
    pub not_ahead : scan32 fields.ntime ≤ (wb.ntime32 + 7000) % 2 ^ 32
    pub worthy : at_least (evaluated W fields wb s).0 mindiff ≡ true
    pub unseen : find_share (evaluated W fields wb s).1 s.shares ≡ none

  new_inv :
      (hash : List ℕ) (shares : List Share)
      → is_new hash shares ≡ true
      → find_share hash shares ≡ none
  unfolding is_new
  new_inv hash shares h = elim (Option-cases (find_share hash shares)) [
    | inl n ↦ n
    | inr (x, e) ↦ absurd (ground (arith, e, h))
  ]

  timely_inv :
      (id : ℕ) (wb : Workbase) (s : Sdata)
      → is_late W id wb s ≡ false
      → (s.blockchange_id ≤ id) ⊎ (in_latency wb ≡ true)
  unfolding is_late
  timely_inv id wb s h = elim (Bool-cases (in_latency wb)) [
    | inl l ↦ inr l
    | inr l ↦ inl (ground (arith, l, h))
  ]

  timely_to :
      (id : ℕ) (wb : Workbase) (s : Sdata)
      → (s.blockchange_id ≤ id) ⊎ (in_latency wb ≡ true)
      → is_late W id wb s ≡ false
  unfolding is_late
  timely_to id wb s (inl le) = ground (arith, le)
  timely_to id wb s (inr l) = ground (arith, l)

  window_inv :
      (n : ℕ) (wb : Workbase)
      → ntime_is_valid W n wb ≡ true
      → (wb.ntime32 ≤ n) × (n ≤ (wb.ntime32 + 7000) % 2 ^ 32)
  unfolding ntime_is_valid
  window_inv n wb h = (ground (arith, h), ground (arith, h))

  window_to :
      (n : ℕ) (wb : Workbase)
      → wb.ntime32 ≤ n
      → n ≤ (wb.ntime32 + 7000) % 2 ^ 32
      → ntime_is_valid W n wb ≡ true
  unfolding ntime_is_valid
  window_to n wb a b = ground (arith, a, b)

  all_four :
      (a b c d : Bool)
      → (not a && b && c && d) ≡ true
      → (a ≡ false) × (b ≡ true) × (c ≡ true) × (d ≡ true)
  all_four a b c d h = (ground (arith, h), ground (arith, h), ground (arith, h), ground (arith, h))

  acceptable_params-IsAccepted :
      (client_name : Option (List ℕ)) (params : Option (List (Option (List ℕ)))) (s : Sdata)
      → acceptable_params W client_name params s ≡ true
      → IsAccepted client_name params s
  unfolding acceptable_params acceptable check_params
  acceptable_params-IsAccepted client_name none s h = absurd (ground (arith, h))
  acceptable_params-IsAccepted client_name (some values) s h =
      elim (Check-cases (check_params scan32 version_mask client_name (some values))) [
        | inl (e, c) ↦ absurd (ground (arith, c, h))
        | inr (f, c) ↦ elim (Option-cases (find_workbase (scan_id f.job_id) s.workbases)) [
          | inl n ↦ absurd (ground (arith, c, n, h))
          | inr (wb, k) ↦
              let (name, named, read) =
                check_params_inv scan32 version_mask client_name values f c in
              let (l, v, d, n) =
                all_four (is_late W (scan_id f.job_id) wb s) (ntime_is_valid W (scan32 f.ntime) wb)
                  (at_least (evaluated W f wb s).0 mindiff) (is_new (evaluated W f wb s).1 s.shares)
                  (ground (arith, c, k, h)) in
              let window = window_inv (scan32 f.ntime) wb v in
              record {
                name = name;
                values = values;
                fields = f;
                wb = wb;
                client_named = named;
                is_array = refl;
                is_read = read;
                known = k;
                timely = timely_inv (scan_id f.job_id) wb s l;
                not_early = window.0;
                not_ahead = window.1;
                worthy = d;
                unseen = new_inv (evaluated W f wb s).1 s.shares n;
              }
        ]
      ]

  accepted_to :
      (client_name : Option (List ℕ)) (params : Option (List (Option (List ℕ)))) (s : Sdata)
      → IsAccepted client_name params s
      → acceptable_params W client_name params s ≡ true
  unfolding acceptable_params acceptable is_new
  accepted_to client_name params s a =
      let f = a.fields in
      let c =
        ap (check_params scan32 version_mask client_name) a.is_array
        ∙ check_params_to scan32 version_mask client_name a.values f a.name a.client_named
            a.is_read in
      let k = a.known in
      let l = timely_to (scan_id f.job_id) a.wb s a.timely in
      let v = window_to (scan32 f.ntime) a.wb a.not_early a.not_ahead in
      let d = a.worthy in let n = a.unseen in ground (arith, c, k, l, v, d, n)

  -- Once there is a current workbase, parse_submit answers true exactly for a share that counts, as
  -- IsAccepted says: at least five parameters, with the client's own worker name, a job, a second extra
  -- nonce, a time and a nonce of at least eight digits, in hexadecimal, and an allowed version mask; a
  -- known workbase that is of the current block or in its node's latency; a time that is not before the
  -- workbase's and not after that plus 7000, modulo 2 ^ 32; a difficulty of at least the pool's least;
  -- and a hash that is not among the shares.
  pub parse_submit-IsAccepted :
      (client_name : Option (List ℕ)) (params : Option (List (Option (List ℕ))))
      (current : Workbase) (s : Sdata)
      → ((parse_submit W client_name params (some current) s).result ≡ true
          → IsAccepted client_name params s)
        × (IsAccepted client_name params s
            → (parse_submit W client_name params (some current) s).result ≡ true)
  parse_submit-IsAccepted client_name params current s =
      let e = parse_submit-acceptable W client_name params current s in
      (
        λ h. acceptable_params-IsAccepted client_name params s (sym e ∙ h),
        λ a. e ∙ accepted_to client_name params s a,
      )
