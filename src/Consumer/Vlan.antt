-- ===== src/Consumer/Vlan.antt =====
-- `handleVlan` of consumer/main.go: the upsert into vlan_table, whose key is (node_id, vlan_id).
-- `json.Unmarshal` and `accepts` are parameters, as in Consumer/Interface.antt.
pub mod Laws
pub mod Messages
use cisco_netconf_mac_db.Common.{
  ℕ, Bool, Option, none, some, List, ◌<|>◌, Text, Time, not_before, lookup, insert, is_empty,
  text_ℕ_has_eq, if◌then◌else◌,
}
use cisco_netconf_mac_db.Payload.{VlanEntry}
use cisco_netconf_mac_db.Consumer.Entries.{Error, bad_json, db_error}

pub record VlanRow : Type 0 where
  pub name : Option Text
  pub status : Option Text
  pub collected_at : Time

abbrev pub VlanTable : Type 0
VlanTable = List ((Text × ℕ) × VlanRow)

abbrev pub vlan_key : VlanEntry → Text × ℕ
vlan_key e = (e.node_id, e.vlan_id)

-- `NULLIF(s, '')`
abbrev pub nullif_empty : Text → Option Text
nullif_empty s = if is_empty s then none else some s

-- The row of the VALUES line, EXCLUDED in the rest of the statement.
abbrev pub excluded : VlanEntry → VlanRow
excluded e = record { name = e.name; status = nullif_empty e.status; collected_at = e.timestamp }

-- The SET list of DO UPDATE, over the stored row.
abbrev pub updated : VlanRow → VlanRow → VlanRow
updated new old = record {
  name = new.name <|> old.name;
  status = new.status <|> old.status;
  collected_at = new.collected_at;
}

-- Insert, or update if the stored row is not newer.
abbrev pub upsert_at : VlanEntry → Option VlanRow → VlanTable → VlanTable
upsert_at e none table = insert (vlan_key e) (excluded e) table
upsert_at e (some old) table =
    if not_before (excluded e).collected_at old.collected_at
    then insert (vlan_key e) (updated (excluded e) old) table
    else table

unfoldable pub upsert_vlan : VlanEntry → VlanTable → VlanTable
upsert_vlan e table = upsert_at e (lookup (vlan_key e) table) table

module _ (unmarshal : Text → Option VlanEntry) (accepts : VlanEntry → VlanTable → Bool) where
  abbrev pub handle_decoded : Option VlanEntry → VlanTable → Option Error × VlanTable
  handle_decoded none table = (some bad_json, table)
  handle_decoded (some e) table =
      if accepts e table then (none, upsert_vlan e table) else (some db_error, table)

  unfoldable pub handle_vlan : Text → VlanTable → Option Error × VlanTable
  handle_vlan b table = handle_decoded (unmarshal b) table
