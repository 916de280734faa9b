-- ===== src/Webapp/Ports/Vlans.antt =====
-- webapp/internal/vlans: the VLANs of a switch.
use cisco_netconf_mac_db.Common.{
  ℕ, ltb, Bool, Option, none, some, List, [], ◌∷◌, Text, text_eq, is_empty, sort, if◌then◌else◌,
}
use cisco_netconf_mac_db.Consumer.Vlan.{VlanTable}

pub record VlanRecord : Type 0 where
  pub vlan_id : ℕ
  pub name : Option Text

pub data Response : Type 0 where
  method_not_allowed node_required database_error : Response
  answer : List VlanRecord → Response

-- `SELECT vlan_id, name FROM vlan_table WHERE node_id = $1`
unfoldable pub vlans_of : Text → VlanTable → List VlanRecord
vlans_of node [] = []
vlans_of node (((n, v), r) ∷ vlans) =
    let rest = vlans_of node vlans in
    if text_eq n node then record { vlan_id = v; name = r.name } ∷ rest else rest

-- The result of `vlansSQL`, with its `ORDER BY vlan_id`.
unfoldable pub vlans_sql : Text → VlanTable → List VlanRecord
vlans_sql node vlans = sort (λ a b. ltb a.vlan_id b.vlan_id) (vlans_of node vlans)

abbrev pub query : Text → Option VlanTable → Response
query node none = database_error
query node (some vlans) = answer (vlans_sql node vlans)

unfoldable pub vlans_handler : Bool → Text → Option VlanTable → Response
vlans_handler is_get node db =
    if is_get then if is_empty node then node_required else query node db else method_not_allowed
