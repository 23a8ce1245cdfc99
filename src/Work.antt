-- ===== src/Work.antt =====
-- The workbases and the shares of src/stratifier.c: add_base, get_workbase, put_workbase, clear_userwb,
-- clear_workbase, new_share, purge_share_hashtable and age_share_hashtable. A hash table is the list of
-- its entries in uthash's order, oldest first. Pointers to workbases are compared by their ids.
pub mod Table
pub mod Shares
pub mod Kept
mod Tests
use ckpool.Common.{
  ℕ, zero, suc, ◌+◌, ◌-◌, ◌%◌, ◌^◌, Bool, true, false, not, ◌&&◌, ◌||◌, List, [], ◌∷◌, ◌++◌, Option,
  none, some, ltb, ◌==◌, eq_bytes, if◌then◌else◌, length, take,
}
use ckpool.Coinbase.{Coinbase, User, generate_userwbs}

pub record Workbase : Type 0 where
  pub id : ℕ
  pub gentime_sec : ℕ
  pub ntime32 : ℕ
  pub readcount : ℕ
  pub prevhash : List ℕ
  pub built : Coinbase

pub record Share : Type 0 where
  pub hash : List ℕ
  pub workbase_id : ℕ

pub record Sdata : Type 0 where
  pub workbases : List Workbase
  pub current_workbase : Option ℕ
  pub workbase_id : ℕ
  pub workbases_generated : ℕ
  pub lasthash : List ℕ
  pub blockchange_id : ℕ
  pub shares : List Share
  pub shares_generated : ℕ
  pub users : List User

-- HASH_FIND, HASH_DEL.
unfoldable pub find_workbase : ℕ → List Workbase → Option Workbase
find_workbase id [] = none
find_workbase id (w ∷ ws) = if w.id == id then some w else find_workbase id ws

pub delete_workbase : ℕ → List Workbase → List Workbase
delete_workbase id [] = []
delete_workbase id (w ∷ ws) =
    let rest = delete_workbase id ws in if w.id == id then rest else w ∷ rest

unfoldable pub find_share : List ℕ → List Share → Option Share
find_share hash [] = none
find_share hash (x ∷ xs) = if eq_bytes x.hash hash then some x else find_share hash xs

-- new_share: the answer, and the table behind it.
unfoldable pub new_share : List ℕ → ℕ → Sdata → Bool × Sdata
new_share hash wb_id s =
    let counted = record s { shares_generated = s.shares_generated + 1 } in
    elim (find_share hash s.shares) [
      | some match ↦ (false, counted)
      | none ↦ (
        true,
        record counted { shares = s.shares ++ (record { hash = hash; workbase_id = wb_id } ∷ []) },
      )
    ]

-- The shares of workbases from wb_id on.
pub purge_share_hashtable : ℕ → List Share → List Share
purge_share_hashtable wb_id [] = []
purge_share_hashtable wb_id (x ∷ xs) =
    let rest = purge_share_hashtable wb_id xs in if ltb x.workbase_id wb_id then rest else x ∷ rest

-- The shares of other workbases than wb_id.
pub age_share_hashtable : ℕ → List Share → List Share
age_share_hashtable wb_id [] = []
age_share_hashtable wb_id (x ∷ xs) =
    let rest = age_share_hashtable wb_id xs in if x.workbase_id == wb_id then rest else x ∷ rest

pub delete_userwb : ℕ → List (ℕ × List ℕ) → List (ℕ × List ℕ)
delete_userwb id [] = []
delete_userwb id ((i, bin) ∷ rest) = if i == id then rest else (i, bin) ∷ delete_userwb id rest

pub clear_userwb : ℕ → List User → List User
clear_userwb id [] = []
clear_userwb id (u ∷ us) = record u { userwbs = delete_userwb id u.userwbs } ∷ clear_userwb id us

-- HASH_DEL, age_share_hashtable and clear_workbase on one old workbase.
pub discard : Bool → ℕ → Sdata → Sdata
discard btcsolo id s = record s {
  workbases = delete_workbase id s.workbases;
  shares = age_share_hashtable id s.shares;
  users = if btcsolo then clear_userwb id s.users else s.users;
}

-- What the loop of add_base keeps: the new workbase, those being read, and the last ten minutes.
pub is_old : Workbase → Workbase → Bool
is_old wb tmp =
    not (wb.id == tmp.id) && tmp.readcount == 0 && ltb (tmp.gentime_sec + 600) wb.gentime_sec

-- The loop over the workbases that were in the table, until fewer than three are left.
pub age_workbases : Bool → Workbase → List Workbase → Sdata → Sdata
age_workbases btcsolo wb [] s = s
age_workbases btcsolo wb (tmp ∷ rest) s =
    let s' = if is_old wb tmp then discard btcsolo tmp.id s else s in
    if ltb (length s.workbases) 3 then s else age_workbases btcsolo wb rest s'

-- The new workbase with its id, and the block it changes to.
pub insert_base : Bool → Workbase → Sdata → Workbase × Bool × Sdata
insert_base proxy wb s =
    let wb' = if proxy then wb else record wb { id = s.workbase_id } in
    let changed = not (eq_bytes (take 64 wb.prevhash) (take 64 s.lasthash)) in
    (
      wb',
      changed,
      record s {
        workbases = s.workbases ++ (wb' ∷ []);
        current_workbase = some wb'.id;
        workbase_id = if proxy then wb.id else s.workbase_id + 1;
        workbases_generated = s.workbases_generated + 1;
        lasthash = if changed then wb.prevhash else s.lasthash;
        blockchange_id = if changed then wb'.id else s.blockchange_id;
      },
    )

-- add_base: `new_block` is the caller's flag before the call, and comes back with the answer.
pub add_base : Bool → Bool → Workbase → Bool → Sdata → Bool × Sdata
add_base proxy btcsolo wb new_block s =
    let (wb', changed, s1) = insert_base proxy wb s in
    let s2 = age_workbases btcsolo wb' s1.workbases s1 in
    let s3 = record s2 {
      users = if btcsolo then generate_userwbs wb'.id wb'.built s2.users else s2.users;
    } in
    let block = new_block || changed in
    (
      block,
      record s3 { shares = if block then purge_share_hashtable wb'.id s3.shares else s3.shares },
    )

unfoldable pub update_readcount : (ℕ → ℕ) → ℕ → List Workbase → List Workbase
update_readcount f id [] = []
update_readcount f id (w ∷ ws) =
    if w.id == id then record w { readcount = f w.readcount } ∷ ws else w ∷ update_readcount f id ws

-- get_workbase; the caller has the workbase by its id.
unfoldable pub get_workbase : ℕ → Sdata → Option Workbase × Sdata
get_workbase id s = (
  find_workbase id s.workbases,
  record s { workbases = update_readcount (λ n. (n + 1) % 2 ^ 32) id s.workbases },
)

unfoldable pub put_workbase : ℕ → Sdata → Sdata
put_workbase id s = record s {
  workbases = update_readcount (λ n. (n + 2 ^ 32 - 1) % 2 ^ 32) id s.workbases;
}
