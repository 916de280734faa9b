-- ===== src/Webapp/Ports/Info.antt =====
-- webapp/internal/portinfo: one port by its switch and its name. The text of a time is made by a parameter,
-- `Format(time.RFC3339)`.
use cisco_netconf_mac_db.Common.{
  ℕ, ℤ, Bool, ◌&&◌, ◌||◌, Option, none, some, List, [], ◌∷◌, Text, Time, text_eq, is_empty, take,
  if◌then◌else◌,
}
use cisco_netconf_mac_db.Consumer.Interface.{InterfaceTable}
use cisco_netconf_mac_db.Consumer.Vlan.{VlanTable}
use cisco_netconf_mac_db.Webapp.Ports.Join.{Joined, join_where}

-- The result of `portSQL`; there is no ORDER BY before its LIMIT.
unfoldable pub port_sql : VlanTable → InterfaceTable → Text → Text → List Joined
port_sql vlans ports node port =
    take 1 (join_where (λ k r. text_eq k.0 node && text_eq k.1 port) vlans ports)

pub record PortResult : Type 0 where
  pub node_id : Text
  pub name : Text
  pub description : Option Text
  pub shutdown : Bool
  pub ip_address : Option Text
  pub prefix_len : Option ℤ
  pub vrf : Option Text
  pub mtu : Option ℕ
  pub access_vlan : ℕ
  pub access_vlan_name : Option Text
  pub voice_vlan : Option ℕ
  pub voice_vlan_name : Option Text
  pub collected_at : Text

pub data Response : Type 0 where
  method_not_allowed parameters_required not_found database_error : Response
  answer : PortResult → Response

module _ (format : Time → Text) where
  abbrev pub result_of : Joined → PortResult
  result_of j = record {
    node_id = j.node_id;
    name = j.name;
    description = j.row.description;
    shutdown = j.row.shutdown;
    ip_address = j.row.ip_address;
    prefix_len = j.row.prefix_len;
    vrf = j.row.vrf;
    mtu = j.row.mtu;
    access_vlan = j.row.access_vlan;
    access_vlan_name = j.access_vlan_name;
    voice_vlan = j.row.voice_vlan;
    voice_vlan_name = j.voice_vlan_name;
    collected_at = format j.row.collected_at;
  }

  -- `row.Scan`
  abbrev pub scan_row : List Joined → Response
  scan_row [] = not_found
  scan_row (j ∷ _) = answer (result_of j)

  abbrev pub query_row : Text → Text → Option (VlanTable × InterfaceTable) → Response
  query_row node port none = database_error
  query_row node port (some (vlans, ports)) = scan_row (port_sql vlans ports node port)

  unfoldable pub port_handler : Bool → Text → Text → Option (VlanTable × InterfaceTable) → Response
  port_handler is_get node port db =
      if is_get
      then if is_empty node || is_empty port then parameters_required else query_row node port db
      else method_not_allowed
