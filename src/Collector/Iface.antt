-- ===== src/Collector/Iface.antt =====
-- `publishInterface` of collector/main.go, without its debug output.
pub mod Entry
pub mod Laws
use mathlib.Core.List.{foldl}
use cisco_netconf_mac_db.Common.{
  ℕ, ◌^◌, ◌%◌, Bool, true, Option, none, some, List, [], ◌∷◌, ◌++◌, Text, codes, text_eq, is_empty,
  int64, decimal, if◌then◌else◌,
}
use cisco_netconf_mac_db.Proto.{
  Field, name, children, get_string_value, get_uint32_value, Telemetry,
}
use cisco_netconf_mac_db.Collector.Entries.{IfEntry}
use cisco_netconf_mac_db.Collector.Nested.{find_nested_field}
use cisco_netconf_mac_db.Collector.Mask.{mask_to_prefix_len}
use cisco_netconf_mac_db.Collector.Walk.{is_iface_node, collect_interfaces}
use cisco_netconf_mac_db.Collector.Publish.{Message, Action, publish, seq}

-- The cases of the switch over the field's name.
pub data IfaceLeaf : Type 0 where
  named description mtu shutdown vrf ip switchport_config switchport other : IfaceLeaf

unfoldable pub iface_leaf : Text → IfaceLeaf
iface_leaf n =
    if text_eq n (codes "name")
    then named
    else if text_eq n (codes "description")
    then description
    else if text_eq n (codes "mtu")
    then mtu
    else if text_eq n (codes "shutdown")
    then shutdown
    else if text_eq n (codes "vrf")
    then vrf
    else if text_eq n (codes "ip")
    then ip
    else if text_eq n (codes "switchport-config")
    then switchport_config
    else if text_eq n (codes "switchport")
    then switchport
    else other

-- The name: the type before the string, or before the number where the string is empty.
unfoldable pub iface_name : Text → Field → Text
iface_name if_type f =
    let sv = get_string_value f in
    if is_empty sv then if_type ++ decimal (get_uint32_value f) else if_type ++ sv

-- `uint16(v.GetUint32Value())`
abbrev pub vlan_value : Field → ℕ
vlan_value f = get_uint32_value f % 2 ^ 16

abbrev pub set_vrf : IfEntry → Option Field → IfEntry
set_vrf e none = e
set_vrf e (some f) = record e { vrf = get_string_value f }

abbrev pub set_address : IfEntry → Option Field → IfEntry
set_address e none = e
set_address e (some f) = record e { ip_address = some (get_string_value f) }

abbrev pub set_voice : IfEntry → Option Field → IfEntry
set_voice e none = e
set_voice e (some f) = record e { voice_vlan = some (vlan_value f) }

abbrev pub set_access : IfEntry → Option Field → IfEntry
set_access e none = e
set_access e (some f) = record e { access_vlan = some (vlan_value f) }

-- the bare `switchport`: only where the value is still nil
abbrev pub fill_voice : IfEntry → Option ℕ → Option Field → IfEntry
fill_voice e none o = set_voice e o
fill_voice e (some _) o = e

abbrev pub fill_access : IfEntry → Option ℕ → Option Field → IfEntry
fill_access e none o = set_access e o
fill_access e (some _) o = e

module _ (parse_ip4 : Text → Option (List ℕ)) where
  abbrev pub set_mask : IfEntry → Option Field → IfEntry
  set_mask e none = e
  set_mask e (some f) = record e {
    prefix_len = some (mask_to_prefix_len parse_ip4 (get_string_value f));
  }

  -- the body of the switch
  unfoldable pub set_iface : Text → IfaceLeaf → IfEntry → Field → IfEntry
  set_iface if_type named e f = record e { name = iface_name if_type f }
  set_iface if_type description e f = record e { description = some (get_string_value f) }
  set_iface if_type mtu e f = record e { mtu = get_uint32_value f }
  set_iface if_type shutdown e f = record e { shutdown = true }
  set_iface if_type vrf e f = set_vrf e (find_nested_field (children f) (codes "forwarding" ∷ []))
  set_iface if_type ip e f =
      let addressed = set_address e (
        find_nested_field (children f)
          (codes "address" ∷ codes "primary" ∷ codes "address" ∷ [])) in
      set_mask addressed
        (find_nested_field (children f) (codes "address" ∷ codes "primary" ∷ codes "mask" ∷ []))
  set_iface if_type switchport_config e f =
      let voiced = set_voice e (
        find_nested_field (children f)
          (codes "switchport" ∷ codes "voice" ∷ codes "vlan" ∷ codes "vlan" ∷ [])) in
      set_access voiced (
        find_nested_field (children f)
          (codes "switchport" ∷ codes "access" ∷ codes "vlan" ∷ codes "vlan" ∷ []))
  set_iface if_type switchport e f =
      let voiced =
        fill_voice e e.voice_vlan
          (find_nested_field (children f) (codes "voice" ∷ codes "vlan" ∷ codes "vlan" ∷ [])) in
      fill_access voiced voiced.access_vlan
        (find_nested_field (children f) (codes "access" ∷ codes "vlan" ∷ codes "vlan" ∷ []))
  set_iface if_type other e f = e

  -- one round of the field loop: children that are interface nodes are skipped
  unfoldable pub apply_iface : Text → IfEntry → Field → IfEntry
  apply_iface if_type e f =
      if is_iface_node f then e else set_iface if_type (iface_leaf (name f)) e f

  unfoldable pub new_iface : Telemetry → IfEntry
  new_iface t = record {
    timestamp = int64 t.msg_timestamp;
    node_id = t.node_id_str;
    name = [];
    description = none;
    shutdown = Bool.false;
    ip_address = none;
    prefix_len = none;
    vrf = [];
    mtu = 0;
    access_vlan = none;
    voice_vlan = none;
  }

  unfoldable pub iface_entry : Telemetry → Field → IfEntry
  iface_entry t iface = foldl (apply_iface (name iface)) (new_iface t) (children iface)

-- the loop that looks for the `content` field
unfoldable pub find_content : List Field → Option Field
find_content [] = none
find_content (f ∷ fs) = if text_eq (name f) (codes "content") then some f else find_content fs

-- `entry.NodeID+"/"+entry.Name`
abbrev pub iface_key : IfEntry → Text
iface_key e = e.node_id ++ b'/' ∷ e.name

module _ (accepts : List Message → Message → Bool) (marshal : IfEntry → Option Text)
    (parse_ip4 : Text → Option (List ℕ)) (t : Telemetry) where
  -- the loop over the interfaces of a row
  unfoldable pub publish_ifaces : List Field → Action
  publish_ifaces [] log = (none, log)
  publish_ifaces (iface ∷ ifaces) log =
      let entry = iface_entry parse_ip4 t iface in
      let later = publish_ifaces ifaces in
      if is_empty entry.name
      then later log
      else seq (publish accepts (codes "interface-table") (iface_key entry) (marshal entry)) later
          log

  abbrev pub publish_content : Option Field → Action
  publish_content none log = (none, log)
  publish_content (some content) log = publish_ifaces (collect_interfaces content) log

  -- the loop over the rows
  unfoldable pub iface_rows : List Field → Action
  iface_rows [] log = (none, log)
  iface_rows (row ∷ rows) log =
      seq (publish_content (find_content (children row))) (iface_rows rows) log

  unfoldable pub publish_interface : Action
  publish_interface = iface_rows t.data_gpbkv
