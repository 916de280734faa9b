-- ===== src/Collector/Arp.antt =====
-- `publishARP` of collector/main.go.
pub mod Laws
use cisco_netconf_mac_db.Common.{
  Bool, Option, none, some, List, [], ◌∷◌, ◌++◌, Text, codes, text_eq, is_empty, int64,
  if◌then◌else◌,
}
use cisco_netconf_mac_db.Proto.{
  Field, name, children, get_string_value, get_uint32_value, Telemetry,
}
use cisco_netconf_mac_db.Payload.{ArpEntry}
use cisco_netconf_mac_db.Collector.IfName.{expand_if_name}
use cisco_netconf_mac_db.Collector.Publish.{Message, Action, publish}
use cisco_netconf_mac_db.Collector.Leaves.{walk_row}

-- The cases of the switch over the leaf's name.
pub data ArpLeaf : Type 0 where
  address hardware port time_to_live other : ArpLeaf

unfoldable pub arp_leaf : Text → ArpLeaf
arp_leaf n =
    if text_eq n (codes "address")
    then address
    else if text_eq n (codes "hardware")
    then hardware
    else if text_eq n (codes "interface")
    then port
    else if text_eq n (codes "time-to-live")
    then time_to_live
    else other

unfoldable pub set_arp : ArpLeaf → ArpEntry → Field → ArpEntry
set_arp address e f = record e { ip_address = get_string_value f }
set_arp hardware e f = record e { mac_address = get_string_value f }
set_arp port e f = record e { interface = expand_if_name (get_string_value f) }
set_arp time_to_live e f = record e { age = get_uint32_value f }
set_arp other e f = e

-- `applyARP`
unfoldable pub apply_arp : ArpEntry → Field → ArpEntry
unfolding set_arp
apply_arp e f = set_arp (arp_leaf (name f)) e f

unfoldable pub new_arp : Telemetry → ArpEntry
new_arp t = record {
  timestamp = int64 t.msg_timestamp;
  node_id = t.node_id_str;
  ip_address = [];
  mac_address = [];
  interface = [];
  age = 0;
}

-- the loop over the rows; a row with no IP address is skipped
unfoldable pub arp_rows : Telemetry → List Field → List ArpEntry → List ArpEntry
unfolding new_arp
arp_rows t [] entries = entries
arp_rows t (row ∷ rows) entries =
    let entry = walk_row apply_arp (new_arp t) (children row) in
    arp_rows t rows (if is_empty entry.ip_address then entries else entries ++ entry ∷ [])

module _ (accepts : List Message → Message → Bool) (marshal : List ArpEntry → Option Text) where
  abbrev pub publish_entries : Telemetry → List ArpEntry → Action
  publish_entries t [] log = (none, log)
  publish_entries t (e ∷ es) log =
      publish accepts (codes "arp-table") t.node_id_str (marshal (e ∷ es)) log

  unfoldable pub publish_arp : Telemetry → Action
  unfolding arp_rows
  publish_arp t = publish_entries t (arp_rows t t.data_gpbkv [])
