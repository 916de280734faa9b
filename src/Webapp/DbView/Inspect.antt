-- ===== src/Webapp/DbView/Inspect.antt =====
-- `InspectHandler` of webapp/internal/dbview: the totals and the newest rows of the four tables.
use cisco_netconf_mac_db.Common.{ℕ, pos, Bool, Option, none, some, List, length, if◌then◌else◌}
use cisco_netconf_mac_db.Webapp.DbView.{MacRow, ArpRow, InterfaceRow, VlanRow}
use cisco_netconf_mac_db.Webapp.DbView.Select.{select}

abbrev pub db_inspect_limit : ℕ
db_inspect_limit = 500

-- `if err != nil { return }`, then the rest
infixl 5 ◌>>=◌
abbrev pub ◌>>=◌ : {A B : Type 0} → Option A → (A → Option B) → Option B
none >>= f = none
some a >>= f = f a

-- What the two statements for a table see of it; `none` is an error.
pub record Source (R : Type 0) : Type 0 where
  pub counted : Option (List R)
  pub selected : Option (List R)

-- A total and rows.
abbrev pub Part : Type 0 → Type 0
Part R = ℕ × List R

module _ {R : Type 0} (id : R → ℕ) where
  unfoldable pub inspect_table : Source R → Option (Part R)
  inspect_table s = do
    counted ← s.counted
    selected ← s.selected
    rows ← select id db_inspect_limit (pos 0) selected
    some (length counted, rows)

pub record Inspected : Type 0 where
  pub macs : Part MacRow
  pub arps : Part ArpRow
  pub interfaces : Part InterfaceRow
  pub vlans : Part VlanRow

pub record Sources : Type 0 where
  pub macs : Source MacRow
  pub arps : Source ArpRow
  pub interfaces : Source InterfaceRow
  pub vlans : Source VlanRow

unfoldable pub inspect_tables : Sources → Option Inspected
inspect_tables s = do
  macs ← inspect_table (λ r. r.id) s.macs
  arps ← inspect_table (λ r. r.id) s.arps
  interfaces ← inspect_table (λ r. r.id) s.interfaces
  vlans ← inspect_table (λ r. r.id) s.vlans
  some (record { macs = macs; arps = arps; interfaces = interfaces; vlans = vlans })

pub data Response : Type 0 where
  method_not_allowed database_error : Response
  answer : Inspected → Response

abbrev pub respond : Option Inspected → Response
respond none = database_error
respond (some r) = answer r

unfoldable pub inspect_handler : Bool → Sources → Response
inspect_handler is_get s = if is_get then respond (inspect_tables s) else method_not_allowed
