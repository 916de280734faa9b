-- ===== src/Consumer/Cleanup.antt =====
-- `startCleanup` of consumer/main.go, and the table of lifetimes that `main` gives it. The statement
-- only reads the column collected_at, so a row is of any type with such a column and the database is the
-- rows of each table by its name. What `time.Now` and the statement answer for a table in a round is
-- part of the round. Go runs over the map of lifetimes in any order: it is a list here, and the laws
-- hold for each order of it.
pub mod Laws
use mathlib.Core.List.{foldl}
use cisco_netconf_mac_db.Common.{
  ℤ, ◌-ℤ◌, Bool, not, List, [], ◌∷◌, Text, Time, after, codes, text_eq, keep, if◌then◌else◌,
}

-- What the loop waits for: a tick of the minute, with the time and the outcome of the statement of each
-- table, or the end of the context.
pub data Event : Type 0 where
  tick : (Text → Time) → (Text → Bool) → Event
  done : Event

module _ {R : Type 0} (collected_at : R → Time) where
  -- `NOT (collected_at < cutoff)`
  abbrev pub is_fresh : Time → R → Bool
  is_fresh cutoff r = not (after cutoff (collected_at r))

  -- the statement for one table
  unfoldable pub delete_stale :
      (Text → Time) → (Text → Bool) → (Text → List R) → Text × ℤ → Text → List R
  delete_stale now db_ok db (tbl, ttl) name =
      let kept = keep (is_fresh (now tbl -ℤ ttl)) (db name) in
      if text_eq tbl name then if db_ok tbl then kept else db name else db name

  -- one round
  unfoldable pub round :
      List (Text × ℤ) → (Text → Time) → (Text → Bool) → (Text → List R) → Text → List R
  round ttls now db_ok db = foldl (delete_stale now db_ok) db ttls

  unfoldable pub start_cleanup : List (Text × ℤ) → (Text → List R) → List Event → Text → List R
  start_cleanup ttls db [] = db
  start_cleanup ttls db (done ∷ events) = db
  start_cleanup ttls db (tick now db_ok ∷ events) =
      start_cleanup ttls (round ttls now db_ok db) events

-- the lifetimes of `main`
abbrev pub main_ttls : ℤ → ℤ → List (Text × ℤ)
main_ttls dynamic_ttl static_ttl =
    (codes "mac_table", dynamic_ttl)
    ∷ (codes "arp_table", dynamic_ttl)
    ∷ (codes "interface_table", static_ttl)
    ∷ (codes "vlan_table", static_ttl)
    ∷ []
