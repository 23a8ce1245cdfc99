-- ===== src/Enonce/Tests.antt =====
-- The witness of the theorem on extra nonces: one client comes between the two.
use ckpool.Common.{◌≢◌, refl, false, [], ◌∷◌, some, none, arith}
use ckpool.Enonce.{Client, Source, Nonces, new_enonce1, next_enonce1}
use ckpool.Enonce.Distinct.{admit, new_enonce1-distinct}

abbrev blank : Client
blank = record { enonce1_64 = 0; enonce1bin = []; enonce1var = []; enonce1 = []; proxyid = none }

abbrev four_bytes : Nonces
four_bytes = record { enonce1constbin = 7 ∷ []; enonce1varlen = 4 }

abbrev counting : Source
counting = record {
  enonce1_64 = 1000;
  is_proxy = false;
  has_proxy = false;
  subproxy = record {
    id = 0;
    subid = 0;
    clients = 0;
    max_clients = 0;
    bound_clients = 0;
    combined_clients = 0;
  };
  current = some four_bytes;
}

new_enonce1-distinct_example :
    (new_enonce1 blank counting).1.enonce1bin
    ≢ (new_enonce1 blank (admit (blank ∷ []) (new_enonce1 blank counting).2)).1.enonce1bin
unfolding new_enonce1 next_enonce1 admit
new_enonce1-distinct_example =
    new_enonce1-distinct blank blank (blank ∷ []) counting four_bytes refl (omega arith)
      (omega arith) (omega arith) refl refl
