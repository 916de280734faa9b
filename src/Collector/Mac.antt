-- ===== src/Collector/Mac.antt =====
-- `publishMAC` of collector/main.go.
pub mod Laws
use mathlib.Core.List.{foldl}
use cisco_netconf_mac_db.Common.{
  ◌||◌, Bool, Option, none, some, List, [], ◌∷◌, ◌++◌, Text, codes, text_eq, is_empty, int64,
  if◌then◌else◌,
}
use cisco_netconf_mac_db.Proto.{
  Field, name, children, get_string_value, get_uint32_value, Telemetry,
}
use cisco_netconf_mac_db.Payload.{MacEntry}
use cisco_netconf_mac_db.Collector.IfName.{expand_if_name}
use cisco_netconf_mac_db.Collector.Publish.{Message, Action, publish}
use cisco_netconf_mac_db.Collector.Leaves.{walk_row}

-- The cases of the switch over the leaf's name.
pub data MacLeaf : Type 0 where
  address port vlan type other : MacLeaf

unfoldable pub mac_leaf : Text → MacLeaf
mac_leaf n =
    if text_eq n (codes "mac") || text_eq n (codes "mac-address")
    then address
    else if text_eq n (codes "port") || text_eq n (codes "interface")
    then port
    else if text_eq n (codes "vlan-id-number") || text_eq n (codes "vlan-id")
    then vlan
    else if text_eq n (codes "mat-addr-type") || text_eq n (codes "mac-type")
    then type
    else other

unfoldable pub set_mac : MacLeaf → MacEntry → Field → MacEntry
set_mac address e f = record e { mac_address = get_string_value f }
set_mac port e f = record e { interface = expand_if_name (get_string_value f) }
set_mac vlan e f = record e { vlan = get_uint32_value f }
set_mac type e f = record e { type = get_string_value f }
set_mac other e f = e

-- `applyMAC`
unfoldable pub apply_mac : MacEntry → Field → MacEntry
unfolding set_mac
apply_mac e f = set_mac (mac_leaf (name f)) e f

unfoldable pub new_mac : Telemetry → MacEntry
new_mac t = record {
  timestamp = int64 t.msg_timestamp;
  node_id = t.node_id_str;
  mac_address = [];
  interface = [];
  vlan = 0;
  type = [];
}

-- the loop over the rows; a row with no MAC address is skipped
unfoldable pub mac_rows : Telemetry → List Field → List MacEntry → List MacEntry
unfolding new_mac
mac_rows t [] entries = entries
mac_rows t (row ∷ rows) entries =
    let entry = walk_row apply_mac (new_mac t) (children row) in
    mac_rows t rows (if is_empty entry.mac_address then entries else entries ++ entry ∷ [])

module _ (accepts : List Message → Message → Bool) (marshal : List MacEntry → Option Text) where
  abbrev pub publish_entries : Telemetry → List MacEntry → Action
  publish_entries t [] log = (none, log)
  publish_entries t (e ∷ es) log =
      publish accepts (codes "mac-table") t.node_id_str (marshal (e ∷ es)) log

  unfoldable pub publish_mac : Telemetry → Action
  unfolding mac_rows
  publish_mac t = publish_entries t (mac_rows t t.data_gpbkv [])
