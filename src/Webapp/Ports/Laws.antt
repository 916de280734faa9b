-- ===== src/Webapp/Ports/Laws.antt =====
-- The joins of Webapp/Ports/Join.antt over tables with unique keys.
use cisco_netconf_mac_db.Common.{
  ℕ, ◌≡◌, refl, sym, ap, ◌∙◌, Bool, Bool-cases, inl, inr, ◌&&◌, Option, none, some, [], ◌∷◌, Text,
  text_eq, lookup, Distinct, keep, map, text_ℕ_has_eq, text_ℕ_beq, text_ℕ_beq_iff, text_pair_has_eq,
  text_pair_beq, text_pair_beq_iff, arith,
}
use cisco_netconf_mac_db.Consumer.Interface.{InterfaceRow, InterfaceTable}
use cisco_netconf_mac_db.Consumer.Vlan.{VlanRow, VlanTable}
use cisco_netconf_mac_db.Webapp.Ports.Join.{
  Joined, joined_names, or_null, join_port, join_where, with_names,
}

abbrev pub name_in : Option VlanRow → Option Text
name_in none = none
name_in (some r) = r.name

-- The stored name of a VLAN of a switch, if there is one.
abbrev pub vlan_name : VlanTable → Text → Option ℕ → Option Text
vlan_name vlans node none = none
vlan_name vlans node (some vlan) = name_in (lookup (node, vlan) vlans)

-- A port with the names of its VLANs.
abbrev pub joined : VlanTable → (Text × Text) × InterfaceRow → Joined
joined vlans (k, r) = record {
  node_id = k.0;
  name = k.1;
  row = r;
  access_vlan_name = vlan_name vlans k.0 (some r.access_vlan);
  voice_vlan_name = vlan_name vlans k.0 r.voice_vlan;
}

joined_names-null : (node : Text) (vlans : VlanTable) → joined_names node none vlans ≡ []
unfolding joined_names
joined_names-null node [] = refl
joined_names-null node (v ∷ vlans) = joined_names-null node vlans

joined_names-absent :
    (node : Text) (vlan : ℕ) (vlans : VlanTable)
    → lookup (node, vlan) vlans ≡ none
    → joined_names node (some vlan) vlans ≡ []
unfolding joined_names lookup
joined_names-absent node vlan [] h = refl
joined_names-absent node vlan (((n, v), r) ∷ vlans) h =
    ground (arith, joined_names-absent node vlan vlans)

joined_names_unique :
    (node : Text) (vlan : ℕ) (vlans : VlanTable)
    → Distinct vlans
    → or_null (joined_names node (some vlan) vlans) ≡ vlan_name vlans node (some vlan) ∷ []
unfolding joined_names lookup
joined_names_unique node vlan [] d = refl
joined_names_unique node vlan (((n, v), r) ∷ vlans) (fresh, d) =
    elim (Bool-cases (text_ℕ_beq (n, v) (node, vlan))) [
      | inl t ↦
          let same : (n, v) ≡ (node, vlan) = (text_ℕ_beq_iff (n, v) (node, vlan)).0 t in
          let gone : joined_names node (some vlan) vlans ≡ [] =
            joined_names-absent node vlan vlans (ap (λ k. lookup k vlans) (sym same) ∙ fresh) in
          rw (t, gone) refl
      | inr f ↦ rw f (joined_names_unique node vlan vlans d)
    ]

or_null-joined_names :
    (node : Text) (vlan : Option ℕ) (vlans : VlanTable)
    → Distinct vlans
    → or_null (joined_names node vlan vlans) ≡ vlan_name vlans node vlan ∷ []
or_null-joined_names node none vlans d = ap or_null (joined_names-null node vlans)
or_null-joined_names node (some vlan) vlans d = joined_names_unique node vlan vlans d

-- Each port is joined to just one row.
join_port_lem :
    (vlans : VlanTable) (k : Text × Text) (r : InterfaceRow)
    → Distinct vlans
    → join_port vlans k r ≡ joined vlans (k, r) ∷ []
unfolding join_port
join_port_lem vlans k r d =
    ap (λ names. with_names k r names (or_null (joined_names k.0 r.voice_vlan vlans)))
      (or_null-joined_names k.0 (some r.access_vlan) vlans d)
    ∙ ap (with_names k r (vlan_name vlans k.0 (some r.access_vlan) ∷ []))
        (or_null-joined_names k.0 r.voice_vlan vlans d)

pub join_where_lem :
    (p : Text × Text → InterfaceRow → Bool) (vlans : VlanTable) (ports : InterfaceTable)
    → Distinct vlans
    → join_where p vlans ports ≡ map (joined vlans) (keep (λ port. p port.0 port.1) ports)
unfolding join_where
join_where_lem p vlans [] d = refl
join_where_lem p vlans ((k, r) ∷ ports) d = elim (Bool-cases (p k r)) [
  | inl t ↦ rw t (
      rw (join_port_lem vlans k r d)
        (ap (λ rest. joined vlans (k, r) ∷ rest) (join_where_lem p vlans ports d)))
  | inr f ↦ rw f (join_where_lem p vlans ports d)
]

-- The port with a key, if there is one.
abbrev pub port_at : Text × Text → Option InterfaceRow → InterfaceTable
port_at k none = []
port_at k (some r) = (k, r) ∷ []

keep-absent :
    (node name : Text) (ports : InterfaceTable)
    → lookup (node, name) ports ≡ none
    → keep (λ port. text_eq port.0.0 node && text_eq port.0.1 name) ports ≡ []
unfolding lookup
keep-absent node name [] h = refl
keep-absent node name (((n, m), r) ∷ ports) h = ground (arith, keep-absent node name ports)

pub keep-key :
    (node name : Text) (ports : InterfaceTable)
    → Distinct ports
    → keep (λ port. text_eq port.0.0 node && text_eq port.0.1 name) ports
      ≡ port_at (node, name) (lookup (node, name) ports)
unfolding lookup
keep-key node name [] d = refl
keep-key node name (((n, m), r) ∷ ports) (fresh, d) =
    elim (Bool-cases (text_pair_beq (n, m) (node, name))) [
      | inl t ↦
          let same : (n, m) ≡ (node, name) = (text_pair_beq_iff (n, m) (node, name)).0 t in
          let gone = keep-absent node name ports (ap (λ k. lookup k ports) (sym same) ∙ fresh) in
          rw (t, gone) (ap (λ k. (k, r) ∷ []) same)
      | inr f ↦ rw f (keep-key node name ports d)
    ]
