-- ===== src/Webapp/Ports/Tests.antt =====
-- The lookups of ports and VLANs on small tables.
use mathlib.Core.List.{Permᴰ, Memᴰ}
use cisco_netconf_mac_db.Common.{
  ℕ, pos, ltb, ◌==◌, ◌&&◌, ◌≡◌, refl, ◌↔◌, Bool, true, false, Option, none, some, ◌<|>◌, List, [],
  ◌∷◌, Text, Time, codes, text_eq, is_empty, lookup, Distinct, map, keep, IsSorted,
  text_pair_has_eq, text_ℕ_has_eq, arith, if◌then◌else◌, sort, insert_sorted,
}
use cisco_netconf_mac_db.Payload.{VlanEntry}
use cisco_netconf_mac_db.Consumer.Entries.{IfEntry}
use cisco_netconf_mac_db.Consumer.Interface.{
  InterfaceRow, InterfaceTable, interface_key, handle_interface,
}
use cisco_netconf_mac_db.Consumer.Vlan.{VlanRow, VlanTable, handle_vlan}
use cisco_netconf_mac_db.Webapp.DbView.Select.{pattern_of}
use cisco_netconf_mac_db.Webapp.Ports.Join.{Joined}
use cisco_netconf_mac_db.Webapp.Ports.Info.{PortResult, port_handler}
use cisco_netconf_mac_db.Webapp.Ports.Info
use cisco_netconf_mac_db.Webapp.Ports.Match.{match_of, is_wanted, port_before, lookup_handler}
use cisco_netconf_mac_db.Webapp.Ports.Match
use cisco_netconf_mac_db.Webapp.Ports.Vlans.{VlanRecord, vlans_of, vlans_sql, vlans_handler}
use cisco_netconf_mac_db.Webapp.Ports.Vlans
use cisco_netconf_mac_db.Webapp.Ports.Rdns.{hostname, trim_dot, rdns_handler}
use cisco_netconf_mac_db.Webapp.Ports.Laws.{joined, vlan_name}
use cisco_netconf_mac_db.Webapp.Ports.Matches.{lookup_handler_lem}
use cisco_netconf_mac_db.Webapp.Ports.Listed.{IsStored, vlans_handler_lem}
use cisco_netconf_mac_db.Webapp.Ports.Stored.{IsCurrent, IsShown, stored_port-IsShown}
use cisco_netconf_mac_db.Webapp.Ports.Named.{IsCurrentVlan, stored_vlan_is_named}
use cisco_netconf_mac_db.Webapp.Search.Patterns.{octets, ip_re}

abbrev port_row : Option Text → ℕ → ℕ → InterfaceRow
port_row description vlan time = record {
  description = description;
  shutdown = false;
  ip_address = none;
  prefix_len = none;
  vrf = none;
  mtu = none;
  access_vlan = vlan;
  voice_vlan = some 9;
  collected_at = pos time;
}

abbrev ports : InterfaceTable
ports =
    ((codes "sw1", codes "Gi2"), port_row (some (codes "desk")) 7 5)
    ∷ ((codes "sw1", codes "Gi1"), port_row (some (codes "lab")) 8 5)
    ∷ []

abbrev vlan_row : Text → VlanRow
vlan_row name = record { name = some name; status = none; collected_at = pos 5 }

abbrev vlans : VlanTable
vlans =
    ((codes "sw1", 8), vlan_row (codes "labs"))
    ∷ ((codes "sw1", 7), vlan_row (codes "office"))
    ∷ ((codes "sw2", 7), vlan_row (codes "else"))
    ∷ []

ports-Distinct : Distinct ports
unfolding lookup codes text_eq
ports-Distinct = (refl, (refl, tt))

vlans-Distinct : Distinct vlans
unfolding lookup codes text_eq
vlans-Distinct = (refl, (refl, (refl, tt)))

sw1_is_text : is_empty (codes "sw1") ≡ false
unfolding codes
sw1_is_text = refl

gi2_is_text : is_empty (codes "Gi2") ≡ false
unfolding codes
gi2_is_text = refl

abbrev show_time : Time → Text
show_time t = codes "then"

-- A message about Gi2 at 7 ms, which keeps the VLAN.
abbrev change : IfEntry
change = record {
  timestamp = pos 7;
  node_id = codes "sw1";
  name = codes "Gi2";
  description = some (codes "hall");
  shutdown = some true;
  ip_address = none;
  prefix_len = none;
  vrf = none;
  mtu = none;
  access_vlan = none;
  voice_vlan = none;
}

abbrev read_change : Text → Option IfEntry
read_change b = some change

change_is_ok : (handle_interface read_change (λ e t. true) [] ports).0 ≡ none
unfolding handle_interface
change_is_ok = refl

change-IsCurrent : IsCurrent change ports
unfolding lookup codes text_eq
change-IsCurrent old h = ground (arith, h)

stored_port-IsShown_example :
    (res : PortResult) × (port_handler show_time true
        (codes "sw1")
        (codes "Gi2")
        (some (vlans, (handle_interface read_change (λ e t. true) [] ports).1))
      ≡ Info.answer res)
    × IsShown show_time vlans change (lookup (interface_key change) ports) res
stored_port-IsShown_example =
    stored_port-IsShown read_change (λ e t. true) show_time [] change vlans ports refl change_is_ok
      change-IsCurrent vlans-Distinct ports-Distinct sw1_is_text gi2_is_text

-- A message about VLAN 7 of sw1 at 7 ms.
abbrev renamed : VlanEntry
renamed = record {
  timestamp = pos 7;
  node_id = codes "sw1";
  vlan_id = 7;
  name = some (codes "guests");
  status = [];
}

abbrev read_renamed : Text → Option VlanEntry
read_renamed b = some renamed

renamed_is_ok : (handle_vlan read_renamed (λ e t. true) [] vlans).0 ≡ none
unfolding handle_vlan
renamed_is_ok = refl

renamed-IsCurrent : IsCurrentVlan renamed vlans
unfolding lookup codes text_eq
renamed-IsCurrent old h = ground (arith, h)

gi2-stored : lookup (codes "sw1", codes "Gi2") ports ≡ some (port_row (some (codes "desk")) 7 5)
unfolding lookup codes text_eq
gi2-stored = refl

stored_vlan_is_named_example :
    (res : PortResult) × (port_handler show_time true
        (codes "sw1")
        (codes "Gi2")
        (some ((handle_vlan read_renamed (λ e t. true) [] vlans).1, ports))
      ≡ Info.answer res)
    × (res.access_vlan_name ≡ some (codes "guests") <|> vlan_name vlans (codes "sw1") (some 7))
stored_vlan_is_named_example =
    stored_vlan_is_named read_renamed (λ e t. true) show_time [] (codes "Gi2") renamed vlans ports
      (port_row (some (codes "desk")) 7 5) refl renamed_is_ok renamed-IsCurrent vlans-Distinct
      ports-Distinct sw1_is_text gi2_is_text gi2-stored refl

-- The order of texts by their bytes.
unfoldable text_less : Text → Text → Bool
text_less s [] = false
text_less [] (b ∷ t) = true
text_less (a ∷ s) (b ∷ t) = let rest = text_less s t in if ltb a b then true else a == b && rest

less_asymm : (s t : Text) → text_less s t ≡ true → text_less t s ≡ false
unfolding text_less
less_asymm s [] h = absurd (ground arith)
less_asymm [] (b ∷ t) h = refl
less_asymm (a ∷ s) (b ∷ t) h = ground (arith, less_asymm s t)

less_trans : (s t u : Text) → text_less s t ≡ true → text_less t u ≡ true → text_less s u ≡ true
unfolding text_less
less_trans s [] u h k = absurd (ground arith)
less_trans s (b ∷ t) [] h k = absurd (ground arith)
less_trans [] (b ∷ t) (c ∷ u) h k = refl
less_trans (a ∷ s) (b ∷ t) (c ∷ u) h k = ground (arith, less_trans s t u)

less_total : (s t : Text) → text_less s t ≡ false → text_less t s ≡ false → s ≡ t
unfolding text_less
less_total [] [] h k = refl
less_total [] (b ∷ t) h k = absurd (ground arith)
less_total (a ∷ s) [] h k = absurd (ground arith)
less_total (a ∷ s) (b ∷ t) h k = ground (arith, less_total s t)

-- A pattern that matches what is equal to the text between its signs.
abbrev exactly : Text → Text → Bool
exactly s pattern = text_eq (pattern_of s) pattern

abbrev wanted : List Text
wanted = codes "lab" ∷ codes "desk" ∷ []

lookup_handler_lem_example :
    (results : List Joined) × (lookup_handler exactly text_less true
        (some (record { switch = codes "sw1"; descriptions = wanted }))
        (some (vlans, ports))
      ≡ Match.answer (map match_of results))
    × Permᴰ results (
        map (joined vlans) (
          keep
            (λ port.
              is_wanted exactly text_less
                (pattern_of (codes "sw1"))
                (map pattern_of wanted)
                port.0
                port.1)
            ports))
    × IsSorted (port_before text_less) results
lookup_handler_lem_example =
    lookup_handler_lem exactly text_less less_asymm less_trans less_total (codes "sw1")
      (codes "lab") (codes "desk" ∷ []) vlans ports sw1_is_text vlans-Distinct

vlans_handler_lem_example :
    (results : List VlanRecord) × (vlans_handler true (codes "sw1") (some vlans)
      ≡ Vlans.answer results)
    × ((v : VlanRecord) → Memᴰ v results ↔ IsStored (codes "sw1") vlans v)
    × IsSorted (λ (a b : VlanRecord). ltb a.vlan_id b.vlan_id) results
vlans_handler_lem_example = vlans_handler_lem (codes "sw1") vlans sw1_is_text vlans-Distinct

vlans-sw1 :
    vlans_sql (codes "sw1") vlans
    ≡ record { vlan_id = 7; name = some (codes "office") }
      ∷ record { vlan_id = 8; name = some (codes "labs") }
      ∷ []
unfolding vlans_sql vlans_of sort insert_sorted text_eq codes
vlans-sw1 = refl

rdns-trims :
    rdns_handler (λ ip. some (codes "pc.example." ∷ [])) true (codes "10.0.0.203")
    ≡ hostname (some (codes "pc.example"))
unfolding rdns_handler ip_re octets trim_dot codes
rdns-trims = refl
