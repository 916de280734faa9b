-- ===== src/Webapp/DbView/Table.antt =====
-- `TableHandler` of webapp/internal/dbview.
use cisco_netconf_mac_db.Common.{
  ℕ, Bool, Option, none, some, List, [], ◌∷◌, Text, codes, text_eq, is_empty, length, if◌then◌else◌,
}
use cisco_netconf_mac_db.Webapp.Tokens.Trim.{trim_space}
use cisco_netconf_mac_db.Webapp.DbView.{MacRow, ArpRow, InterfaceRow, VlanRow}
use cisco_netconf_mac_db.Webapp.DbView.Query.{page_of, size_of, offset_of, pages_of}
use cisco_netconf_mac_db.Webapp.DbView.Select.{
  or_empty, int_text, int_or_empty, pattern_of, select, matching,
}

-- The columns that a search looks at.
abbrev pub mac_columns : MacRow → List Text
mac_columns r =
    r.node_id
    ∷ r.mac_address
    ∷ or_empty r.interface
    ∷ int_or_empty r.vlan
    ∷ or_empty r.mac_type
    ∷ []

abbrev pub arp_columns : ArpRow → List Text
arp_columns r = r.node_id ∷ r.ip_address ∷ or_empty r.mac_address ∷ or_empty r.interface ∷ []

abbrev pub interface_columns : InterfaceRow → List Text
interface_columns r =
    r.node_id ∷ r.name ∷ or_empty r.description ∷ or_empty r.ip_address ∷ or_empty r.vrf ∷ []

abbrev pub vlan_columns : VlanRow → List Text
vlan_columns r = r.node_id ∷ int_text r.vlan_id ∷ or_empty r.name ∷ or_empty r.status ∷ []

-- What the three statements of a request see of the table; `none` is an error.
pub record Outcome (R : Type 0) : Type 0 where
  pub total : Option (List R)
  pub filtered : Option (List R)
  pub selected : Option (List R)

-- `tableResp`
pub record TableResp (Rows : Type 0) : Type 0 where
  pub rows : Rows
  pub total : ℕ
  pub filtered_total : ℕ
  pub page : ℕ
  pub page_size : ℕ
  pub pages : ℕ

pub data Response (Rows : Type 0) : Type 0 where
  method_not_allowed invalid_table database_error : Response Rows
  answer : TableResp Rows → Response Rows

module _ {R : Type 0} (id : R → ℕ) (page size : ℕ) where
  abbrev pub answer_rows : ℕ → ℕ → Option (List R) → Response (List R)
  answer_rows total filtered none = database_error
  answer_rows total filtered (some rows) = answer (record {
    rows = rows;
    total = total;
    filtered_total = filtered;
    page = page;
    page_size = size;
    pages = pages_of filtered size;
  })

  abbrev pub select_rows : ℕ → ℕ → Option (List R) → Response (List R)
  select_rows total filtered none = database_error
  select_rows total filtered (some rows) =
      answer_rows total filtered (select id size (offset_of page size) rows)

module _ (ilike : Text → Text → Bool) {R : Type 0} (id : R → ℕ) (columns : R → List Text) where
  abbrev pub matched : Text → Option (List R) → Option (List R)
  matched q none = none
  matched q (some rows) = some (matching ilike columns (pattern_of q) rows)

  abbrev pub filtered_page : ℕ → ℕ → ℕ → Option (List R) → Option (List R) → Response (List R)
  filtered_page page size total none rows = database_error
  filtered_page page size total (some filtered) rows =
      select_rows id page size total (length filtered) rows

  -- one case of the switch, with `q` trimmed
  abbrev pub counted_page : Text → ℕ → ℕ → Outcome R → Option (List R) → Response (List R)
  counted_page q page size o none = database_error
  counted_page q page size o (some rows) =
      if is_empty q
      then select_rows id page size (length rows) (length rows) o.selected
      else filtered_page page size (length rows) (matched q o.filtered) (matched q o.selected)

  unfoldable pub table_page : Text → ℕ → ℕ → Outcome R → Response (List R)
  table_page q page size o = counted_page q page size o o.total

-- The rows of a response are of the requested table.
pub data AnyRows : Type 0 where
  mac_rows : List MacRow → AnyRows
  arp_rows : List ArpRow → AnyRows
  interface_rows : List InterfaceRow → AnyRows
  vlan_rows : List VlanRow → AnyRows

abbrev pub wrap : {R : Type 0} → (List R → AnyRows) → Response (List R) → Response AnyRows
wrap f method_not_allowed = method_not_allowed
wrap f invalid_table = invalid_table
wrap f database_error = database_error
wrap f (answer r) = answer (record {
  rows = f r.rows;
  total = r.total;
  filtered_total = r.filtered_total;
  page = r.page;
  page_size = r.page_size;
  pages = r.pages;
})

pub record Request : Type 0 where
  pub is_get : Bool
  pub table : Text
  pub q : Text
  pub page : Text
  pub limit : Text

pub record Outcomes : Type 0 where
  pub macs : Outcome MacRow
  pub arps : Outcome ArpRow
  pub interfaces : Outcome InterfaceRow
  pub vlans : Outcome VlanRow

module _ (ilike : Text → Text → Bool) where
  -- `case "mac"`
  abbrev pub mac_page : Text → ℕ → ℕ → Outcomes → Response AnyRows
  mac_page q page size o =
      wrap mac_rows (table_page ilike (λ r. r.id) mac_columns q page size o.macs)

  -- `case "arp"`
  abbrev pub arp_page : Text → ℕ → ℕ → Outcomes → Response AnyRows
  arp_page q page size o =
      wrap arp_rows (table_page ilike (λ r. r.id) arp_columns q page size o.arps)

  -- `case "interface"`
  abbrev pub interface_page : Text → ℕ → ℕ → Outcomes → Response AnyRows
  interface_page q page size o =
      wrap interface_rows (table_page ilike (λ r. r.id) interface_columns q page size o.interfaces)

  -- `case "vlan"`
  abbrev pub vlan_page : Text → ℕ → ℕ → Outcomes → Response AnyRows
  vlan_page q page size o =
      wrap vlan_rows (table_page ilike (λ r. r.id) vlan_columns q page size o.vlans)

  abbrev pub switch_table : Text → Text → ℕ → ℕ → Outcomes → Response AnyRows
  switch_table tbl q page size o =
      if text_eq tbl (codes "mac")
      then mac_page q page size o
      else if text_eq tbl (codes "arp")
      then arp_page q page size o
      else if text_eq tbl (codes "interface")
      then interface_page q page size o
      else if text_eq tbl (codes "vlan")
      then vlan_page q page size o
      else invalid_table

  unfoldable pub table_handler : Request → Outcomes → Response AnyRows
  table_handler r o =
      if r.is_get
      then switch_table r.table (trim_space r.q) (page_of r.page) (size_of r.limit) o
      else method_not_allowed
