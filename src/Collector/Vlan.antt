-- ===== src/Collector/Vlan.antt =====
-- `publishVlan` of collector/main.go, without its debug output.
pub mod Laws
use mathlib.Core.List.{foldl}
use cisco_netconf_mac_db.Common.{
  ℕ, ◌==◌, Bool, Option, none, some, List, [], ◌∷◌, ◌++◌, Text, codes, text_eq, is_empty, int64,
  decimal, if◌then◌else◌,
}
use cisco_netconf_mac_db.Proto.{
  Field, name, children, get_string_value, get_uint32_value, Telemetry,
}
use cisco_netconf_mac_db.Payload.{VlanEntry}
use cisco_netconf_mac_db.Collector.Nested.{find_nested_field}
use cisco_netconf_mac_db.Collector.Publish.{Message, Action, publish, seq}

abbrev pub set_id : VlanEntry → Option Field → VlanEntry
set_id e none = e
set_id e (some f) = record e { vlan_id = get_uint32_value f }

abbrev pub set_name : VlanEntry → Option Field → VlanEntry
set_name e none = e
set_name e (some f) = record e { name = some (get_string_value f) }

abbrev pub set_status : VlanEntry → Option Field → VlanEntry
set_status e none = e
set_status e (some f) = record e { status = get_string_value f }

-- `case "keys"`
unfoldable pub apply_keys : VlanEntry → List Field → VlanEntry
apply_keys e fs = elim (find_nested_field fs (codes "id" ∷ [])) [
  | some f ↦ set_id e (some f)
  | none ↦ set_id e (find_nested_field fs (codes "vlan-id" ∷ []))
]

-- the lookups under `state`, each only where the direct field gave nothing
abbrev pub fall_back_name : VlanEntry → List Field → Option Text → VlanEntry
fall_back_name e fs none = set_name e (find_nested_field fs (codes "state" ∷ codes "name" ∷ []))
fall_back_name e fs (some _) = e

abbrev pub fall_back_status : VlanEntry → List Field → VlanEntry
fall_back_status e fs =
    if is_empty e.status
    then set_status e (find_nested_field fs (codes "state" ∷ codes "status" ∷ []))
    else e

-- `case "content"`
unfoldable pub apply_content : VlanEntry → List Field → VlanEntry
apply_content e fs =
    let named = set_name e (find_nested_field fs (codes "name" ∷ [])) in
    let stated = set_status named (find_nested_field fs (codes "status" ∷ [])) in
    let filled = fall_back_name stated fs stated.name in fall_back_status filled fs

unfoldable pub apply_vlan : VlanEntry → Field → VlanEntry
apply_vlan e container =
    if text_eq (name container) (codes "keys")
    then apply_keys e (children container)
    else if text_eq (name container) (codes "content")
    then apply_content e (children container)
    else e

unfoldable pub new_vlan : Telemetry → VlanEntry
new_vlan t = record {
  timestamp = int64 t.msg_timestamp;
  node_id = t.node_id_str;
  vlan_id = 0;
  name = none;
  status = [];
}

unfoldable pub vlan_of_row : Telemetry → Field → VlanEntry
unfolding new_vlan
vlan_of_row t row = foldl apply_vlan (new_vlan t) (children row)

-- `fmt.Sprintf("%s/%d", entry.NodeID, entry.VlanID)`
unfoldable pub vlan_key : VlanEntry → Text
unfolding decimal
vlan_key e = e.node_id ++ b'/' ∷ decimal e.vlan_id

module _ (accepts : List Message → Message → Bool) (marshal : VlanEntry → Option Text) where
  unfoldable pub vlan_rows : Telemetry → List Field → Action
  vlan_rows t [] log = (none, log)
  vlan_rows t (row ∷ rows) log =
      let entry = vlan_of_row t row in
      let later = vlan_rows t rows in
      if entry.vlan_id == 0
      then later log
      else seq (publish accepts (codes "vlan-table") (vlan_key entry) (marshal entry)) later log

  unfoldable pub publish_vlan : Telemetry → Action
  publish_vlan t = vlan_rows t t.data_gpbkv
