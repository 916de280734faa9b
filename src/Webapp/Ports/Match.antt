-- ===== src/Webapp/Ports/Match.antt =====
-- webapp/internal/portlookup: the ports of some switches by their descriptions. `ILIKE` and the order of
-- texts under the collation of the database are parameters; the body decodes to a request or not.
use cisco_netconf_mac_db.Common.{
  ℕ, Bool, false, ◌&&◌, ◌||◌, Option, none, some, List, [], ◌∷◌, Text, is_empty, text_eq, any, map,
  sort, if◌then◌else◌,
}
use cisco_netconf_mac_db.Consumer.Interface.{InterfaceRow, InterfaceTable}
use cisco_netconf_mac_db.Consumer.Vlan.{VlanTable}
use cisco_netconf_mac_db.Webapp.DbView.Select.{pattern_of}
use cisco_netconf_mac_db.Webapp.Ports.Join.{Joined, join_where}

pub record LookupRequest : Type 0 where
  pub switch : Text
  pub descriptions : List Text

pub record PortMatch : Type 0 where
  pub node_id : Text
  pub interface : Text
  pub description : Option Text
  pub access_vlan : ℕ
  pub access_vlan_name : Option Text
  pub voice_vlan : Option ℕ
  pub voice_vlan_name : Option Text

pub data Response : Type 0 where
  method_not_allowed bad_request switch_required descriptions_required database_error : Response
  answer : List PortMatch → Response

abbrev pub match_of : Joined → PortMatch
match_of j = record {
  node_id = j.node_id;
  interface = j.name;
  description = j.row.description;
  access_vlan = j.row.access_vlan;
  access_vlan_name = j.access_vlan_name;
  voice_vlan = j.row.voice_vlan;
  voice_vlan_name = j.voice_vlan_name;
}

module _ (less : Text → Text → Bool) where
  -- `ORDER BY i.node_id, i.name`
  abbrev pub port_before : Joined → Joined → Bool
  port_before i j = less i.node_id j.node_id || (text_eq i.node_id j.node_id && less i.name j.name)

module _ (ilike less : Text → Text → Bool) where
  -- `d ILIKE ANY(patterns)`, which is not true of NULL
  abbrev pub ilike_any : Option Text → List Text → Bool
  ilike_any none patterns = false
  ilike_any (some d) patterns = any (λ p. ilike d p) patterns

  -- The WHERE clause.
  abbrev pub is_wanted : Text → List Text → Text × Text → InterfaceRow → Bool
  is_wanted switch_pattern patterns k r =
      ilike k.0 switch_pattern && ilike_any r.description patterns

  -- The result of `lookupSQL`.
  unfoldable pub lookup_sql : VlanTable → InterfaceTable → Text → List Text → List Joined
  lookup_sql vlans ports switch_pattern patterns =
      sort (port_before less) (join_where (is_wanted switch_pattern patterns) vlans ports)

  abbrev pub query : Text → List Text → Option (VlanTable × InterfaceTable) → Response
  query switch_pattern patterns none = database_error
  query switch_pattern patterns (some (vlans, ports)) =
      answer (map match_of (lookup_sql vlans ports switch_pattern patterns))

  abbrev pub lookup_descriptions : Text → List Text → Option (VlanTable × InterfaceTable) → Response
  lookup_descriptions switch [] db = descriptions_required
  lookup_descriptions switch (d ∷ ds) db = query (pattern_of switch) (map pattern_of (d ∷ ds)) db

  abbrev pub lookup_decoded : Option LookupRequest → Option (VlanTable × InterfaceTable) → Response
  lookup_decoded none db = bad_request
  lookup_decoded (some req) db =
      if is_empty req.switch
      then switch_required
      else lookup_descriptions req.switch req.descriptions db

  unfoldable pub lookup_handler :
      Bool → Option LookupRequest → Option (VlanTable × InterfaceTable) → Response
  lookup_handler is_post body db = if is_post then lookup_decoded body db else method_not_allowed
