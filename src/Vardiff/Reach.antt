-- ===== src/Vardiff/Reach.antt =====
-- The difficulties that a client can have.
use ckpool.Common.{ℕ, Bool, List, Option}
use ckpool.Vardiff.{Doubles, Tv, Config, Client, Sdata, network_of, Submitted, add_submit}
use ckpool.Vardiff.Setters.{
  Entry, Text, add_instance, rental_service, authorise_diff, suggest, update_diff,
}
use ckpool.Vardiff.Bounds.{IsNumber}

-- What sets the difficulty of a client, one after the other.
module _ (D : Doubles) (cfg : Config) where
  pub data Reachable : Client D → Type 0 where
    added :
        (server_highdiff : Bool) (now_t : Tv) (zeroed : Client D)
        → Reachable (add_instance D cfg server_highdiff now_t zeroed)
    subscribed :
        {c : Client D} (nicehash miningrigrentals : Bool) (overrides : List ℕ → Entry)
        → Reachable c
        → Reachable (rental_service D nicehash miningrigrentals overrides c)
    authorised :
        {c : Client D} (text : Text) (overrides : List (Bool × ℕ)) (pass : Option (List ℕ))
        → Reachable c
        → Reachable (authorise_diff D cfg text overrides pass c)
    suggested :
        {c : Client D} (workbase_id : ℕ) (active : Bool) (asked : Option ℕ)
        → Reachable c
        → Reachable (suggest D cfg workbase_id active asked c).0
    updated :
        {c : Client D} (old_diff diff : D.Double)
        → Reachable c
        → Reachable (update_diff D old_diff diff c).0
    submitted :
        (sdata : Sdata D) (now_t : Tv) (diff : D.Double) (valid submit : Bool) (s : Submitted D)
        → IsNumber D (network_of D cfg sdata)
        → Reachable s.client
        → Reachable (add_submit D cfg sdata now_t diff valid submit s).client
