-- ===== src/Webapp/Ports/Join.antt =====
-- The two LEFT JOINs of interface_table with vlan_table that portSQL and lookupSQL share.
use cisco_netconf_mac_db.Common.{
  ℕ, ◌==◌, Bool, false, ◌&&◌, Option, none, some, List, [], ◌∷◌, ◌++◌, Text, text_eq, if◌then◌else◌,
}
use cisco_netconf_mac_db.Consumer.Interface.{InterfaceRow, InterfaceTable}
use cisco_netconf_mac_db.Consumer.Vlan.{VlanTable}

-- A port with the names of its VLANs.
pub record Joined : Type 0 where
  pub node_id : Text
  pub name : Text
  pub row : InterfaceRow
  pub access_vlan_name : Option Text
  pub voice_vlan_name : Option Text

-- `i.node_id = v.node_id AND vlan = v.vlan_id`, which is not true of NULL
abbrev pub on_vlan : Text → Option ℕ → Text × ℕ → Bool
on_vlan node none k = false
on_vlan node (some vlan) (n, v) = text_eq n node && v == vlan

-- The names of the rows that a LEFT JOIN finds.
unfoldable pub joined_names : Text → Option ℕ → VlanTable → List (Option Text)
joined_names node vlan [] = []
joined_names node vlan ((k, r) ∷ vlans) =
    let rest = joined_names node vlan vlans in if on_vlan node vlan k then r.name ∷ rest else rest

-- Where it finds none, it puts NULL.
abbrev pub or_null : List (Option Text) → List (Option Text)
or_null [] = none ∷ []
or_null (name ∷ names) = name ∷ names

abbrev pub with_voice : Text × Text → InterfaceRow → Option Text → List (Option Text) → List Joined
with_voice k r access [] = []
with_voice k r access (voice ∷ voices) =
    record {
      node_id = k.0;
      name = k.1;
      row = r;
      access_vlan_name = access;
      voice_vlan_name = voice;
    }
    ∷ with_voice k r access voices

abbrev pub with_names :
    Text × Text → InterfaceRow → List (Option Text) → List (Option Text) → List Joined
with_names k r [] voices = []
with_names k r (access ∷ accesses) voices =
    with_voice k r access voices ++ with_names k r accesses voices

-- A row of interface_table with all it is joined to.
unfoldable pub join_port : VlanTable → Text × Text → InterfaceRow → List Joined
join_port vlans k r =
    with_names k r (or_null (joined_names k.0 (some r.access_vlan) vlans))
      (or_null (joined_names k.0 r.voice_vlan vlans))

-- `FROM interface_table i LEFT JOIN ... LEFT JOIN ... WHERE ...`
unfoldable pub join_where :
    (Text × Text → InterfaceRow → Bool) → VlanTable → InterfaceTable → List Joined
join_where p vlans [] = []
join_where p vlans ((k, r) ∷ ports) =
    let rest = join_where p vlans ports in if p k r then join_port vlans k r ++ rest else rest
