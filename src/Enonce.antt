-- ===== src/Enonce.antt =====
-- new_enonce1 and __fill_enonce1data of src/stratifier.c: the extra nonce of a new client. The 64-bit
-- counter is a number below 2 ^ 64, kept in little-endian order by the source.
pub mod Distinct
mod Tests
use ckpool.Common.{
  ℕ, ◌+◌, Bool, true, false, not, ◌&&◌, List, [], ◌∷◌, ◌++◌, Option, none, some, leb, if◌then◌else◌,
  take, u64, le_bytes,
}
use ckpool.Hex.{bin2hex}

pub record Proxy : Type 0 where
  pub id : ℕ
  pub subid : ℕ
  pub clients : ℕ
  pub max_clients : ℕ
  pub bound_clients : ℕ
  pub combined_clients : ℕ

-- The constant part of the current workbase's extra nonce, and the length of the variable one.
pub record Nonces : Type 0 where
  pub enonce1constbin : List ℕ
  pub enonce1varlen : ℕ

pub record Client : Type 0 where
  pub enonce1_64 : ℕ
  pub enonce1bin : List ℕ
  pub enonce1var : List ℕ
  pub enonce1 : List ℕ
  pub proxyid : Option (ℕ × ℕ)

-- The counter, and in proxy mode whether there is a proxy and its current subproxy.
pub record Source : Type 0 where
  pub enonce1_64 : ℕ
  pub is_proxy : Bool
  pub has_proxy : Bool
  pub subproxy : Proxy
  pub current : Option Nonces

pub fill_enonce1data : Nonces → Client → Client
fill_enonce1data wb c =
    let var = take wb.enonce1varlen (le_bytes 8 c.enonce1_64) in
    record c {
      enonce1bin = wb.enonce1constbin ++ var;
      enonce1var = bin2hex var;
      enonce1 = bin2hex (wb.enonce1constbin ++ var);
    }

-- proxy->clients++ and its kin.
pub bind_client : Proxy → Proxy
bind_client p = record p {
  clients = p.clients + 1;
  bound_clients = p.bound_clients + 1;
  combined_clients = p.combined_clients + 1;
}

-- From the test of the current workbase on.
pub next_enonce1 : Nonces → Client → Source → Bool × Client × Source
next_enonce1 wb c s =
    let e = u64 (s.enonce1_64 + 1) in
    (
      true,
      fill_enonce1data wb (record c { enonce1_64 = e }),
      record s {
        enonce1_64 = e;
        subproxy = if s.is_proxy then bind_client s.subproxy else s.subproxy;
      },
    )

pub new_enonce1 : Client → Source → Bool × Client × Source
new_enonce1 c s =
    let c' =
      if s.is_proxy then record c { proxyid = some (s.subproxy.id, s.subproxy.subid) } else c in
    if s.is_proxy && not s.has_proxy
    then (false, c, s)
    else if s.is_proxy && leb s.subproxy.max_clients s.subproxy.clients
    then (false, c', s)
    else elim s.current [ none ↦ (false, c', s) | some wb ↦ next_enonce1 wb c' s ]
