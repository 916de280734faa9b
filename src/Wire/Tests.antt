-- ===== src/Wire/Tests.antt =====
-- The JSON of some entries.
use mathlib.Core.Option
use cisco_netconf_mac_db.Common.{
  pos, ◌≡◌, refl, true, false, Option, none, some, [], ◌∷◌, Text, Time, codes, text_eq, lookup,
  after, has_prefix, text_pair_has_eq, arith,
}
use cisco_netconf_mac_db.Payload.{MacEntry, ArpEntry, VlanEntry}
use cisco_netconf_mac_db.Collector.Entries as Sent
use cisco_netconf_mac_db.Consumer.Interface.{InterfaceRow, InterfaceTable, handle_interface}
use cisco_netconf_mac_db.Wire.Json.{Object, fraction, string, fold_name, decode_members}
use cisco_netconf_mac_db.Wire.Encode.{
  encode_mac, encode_arp, encode_vlan, encode_iface, encode_all, iface_object,
}
use cisco_netconf_mac_db.Wire.Decode.{
  decode_mac, decode_arp, decode_vlan, decode_iface, decode_all, set_iface, set_vlan,
}
use cisco_netconf_mac_db.Wire.Decode
use cisco_netconf_mac_db.Wire.Arrays.{entries_round_trip}
use cisco_netconf_mac_db.Wire.Laws.{vlan_round_trip}
use cisco_netconf_mac_db.Wire.Arrives.{IsWritten, unmarshal, sent_iface_arrives}

-- The text of the one instant that occurs here.
abbrev format : Time → Option Text
format t = some (codes "1970-01-01T00:00:00.007Z")

abbrev parse_time : Text → Option Time
parse_time s = some (pos 7)

readable : Option.bind (format (pos 7)) parse_time ≡ some (pos 7)
unfolding Option.bind
readable = refl

abbrev vlan : VlanEntry
vlan = record { timestamp = pos 7; node_id = codes "sw1"; vlan_id = 7; name = some []; status = [] }

vlan_round_trip_example : Option.bind (encode_vlan format vlan) (decode_vlan parse_time) ≡ some vlan
vlan_round_trip_example = vlan_round_trip format parse_time vlan readable (omega arith)

abbrev mac : MacEntry
mac = record {
  timestamp = pos 7;
  node_id = codes "sw1";
  mac_address = codes "00aa";
  interface = codes "Gi1";
  vlan = 7;
  type = codes "dynamic";
}

abbrev arp : ArpEntry
arp = record {
  timestamp = pos 7;
  node_id = codes "sw1";
  ip_address = codes "10.0.0.1";
  mac_address = codes "00aa";
  interface = codes "Gi1";
  age = 3;
}

entries_round_trip_example :
    (Option.bind
        (encode_all (encode_mac format) (mac ∷ mac ∷ []))
        (decode_all (decode_mac parse_time))
      ≡ some (mac ∷ mac ∷ []))
    × (Option.bind (encode_all (encode_arp format) (arp ∷ [])) (decode_all (decode_arp parse_time))
        ≡ some (arp ∷ []))
entries_round_trip_example =
    entries_round_trip format parse_time (mac ∷ mac ∷ []) (arp ∷ [])
      ((readable, omega arith), ((readable, omega arith), tt)) ((readable, omega arith), tt)

-- An interface with an empty description, no VRF and no access VLAN, over a row that has all three.
abbrev iface : Sent.IfEntry
iface = record {
  timestamp = pos 7;
  node_id = codes "sw1";
  name = codes "Gi1";
  description = some [];
  shutdown = true;
  ip_address = none;
  prefix_len = some 24;
  vrf = [];
  mtu = 0;
  access_vlan = none;
  voice_vlan = some 9;
}

abbrev old_row : InterfaceRow
old_row = record {
  description = some (codes "desk");
  shutdown = false;
  ip_address = none;
  prefix_len = none;
  vrf = some (codes "blue");
  mtu = some 1500;
  access_vlan = 7;
  voice_vlan = none;
  collected_at = pos 5;
}

abbrev ports : InterfaceTable
ports = ((codes "sw1", codes "Gi1"), old_row) ∷ []

abbrev iface_json : Object
iface_json = iface_object iface (codes "1970-01-01T00:00:00.007Z")

-- A text of that object.
abbrev print : Object → Text
print o = codes "{}"

abbrev parse : Text → Option Object
parse b = some iface_json

reads_iface : (o : Object) → encode_iface format iface ≡ some o → parse (print o) ≡ some o
reads_iface o h = h

ports-current :
    (old : InterfaceRow)
    → lookup (codes "sw1", codes "Gi1") ports ≡ some old
    → after old.collected_at (pos 7) ≡ false
unfolding lookup codes text_eq
ports-current old h = ground (arith, h)

sent_iface_arrives_example :
    let (err, stored) =
      handle_interface
        (unmarshal format parse_time print parse (λ e t. true))
        (λ e t. true)
        (codes "{}")
        ports in
    (err ≡ none)
    × (row : InterfaceRow) × (lookup (codes "sw1", codes "Gi1") stored ≡ some row)
    × IsWritten iface (lookup (codes "sw1", codes "Gi1") ports) row
sent_iface_arrives_example =
    sent_iface_arrives format parse_time print parse (λ e t. true) iface (codes "{}") ports readable
      (omega arith, tt, omega arith, omega arith) reads_iface refl refl ports-current

-- Names of members are matched without case, and a number with a fraction is refused.
decode_folded_name :
    decode_vlan parse_time ((codes "NAME", string (codes "lab")) ∷ [])
    ≡ some (record Decode.zero_vlan { name = some (codes "lab") })
unfolding decode_members set_vlan fold_name text_eq codes has_prefix Option.bind
decode_folded_name = refl

decode-fraction : decode_iface parse_time ((codes "mtu", fraction (codes "1.5")) ∷ []) ≡ none
unfolding decode_members set_iface fold_name text_eq codes has_prefix Option.bind
decode-fraction = refl
