-- ===== src/Wire/Decode.antt =====
-- `json.Unmarshal` into the consumer's payloads. A member of another name is passed over.
use mathlib.Core.Option
use cisco_netconf_mac_db.Common.{
  negsuc, Option, none, some, List, [], ◌∷◌, Text, Time, codes, text_eq, ◌-◌, if◌then◌else◌,
}
use cisco_netconf_mac_db.Payload.{MacEntry, ArpEntry, VlanEntry}
use cisco_netconf_mac_db.Consumer.Entries.{IfEntry}
use cisco_netconf_mac_db.Wire.Json.{
  Value, Object, fold_name, read_text, read_text_pointer, read_bool_pointer, read_uint,
  read_uint_pointer, read_int_pointer, read_time, decode_members,
}

-- `time.Time{}`: the first instant of the year 1
abbrev pub zero_time : Time
zero_time = negsuc (62135596800000 - 1)

abbrev pub zero_mac : MacEntry
zero_mac = record {
  timestamp = zero_time;
  node_id = [];
  mac_address = [];
  interface = [];
  vlan = 0;
  type = [];
}

abbrev pub zero_arp : ArpEntry
zero_arp = record {
  timestamp = zero_time;
  node_id = [];
  ip_address = [];
  mac_address = [];
  interface = [];
  age = 0;
}

abbrev pub zero_vlan : VlanEntry
zero_vlan = record { timestamp = zero_time; node_id = []; vlan_id = 0; name = none; status = [] }

abbrev pub zero_iface : IfEntry
zero_iface = record {
  timestamp = zero_time;
  node_id = [];
  name = [];
  description = none;
  shutdown = none;
  ip_address = none;
  prefix_len = none;
  vrf = none;
  mtu = none;
  access_vlan = none;
  voice_vlan = none;
}

module _ (parse_time : Text → Option Time) where
  unfoldable pub set_mac : MacEntry → Text → Value → Option MacEntry
  set_mac e name v =
      let n = fold_name name in
      if text_eq n (codes "timestamp")
      then Option.map (λ x. record e { timestamp = x }) (read_time parse_time e.timestamp v)
      else if text_eq n (codes "node_id")
      then Option.map (λ x. record e { node_id = x }) (read_text e.node_id v)
      else if text_eq n (codes "mac_address")
      then Option.map (λ x. record e { mac_address = x }) (read_text e.mac_address v)
      else if text_eq n (codes "interface")
      then Option.map (λ x. record e { interface = x }) (read_text e.interface v)
      else if text_eq n (codes "vlan")
      then Option.map (λ x. record e { vlan = x }) (read_uint 32 e.vlan v)
      else if text_eq n (codes "type")
      then Option.map (λ x. record e { type = x }) (read_text e.type v)
      else some e

  abbrev pub decode_mac : Object → Option MacEntry
  decode_mac o = decode_members set_mac zero_mac o

  unfoldable pub set_arp : ArpEntry → Text → Value → Option ArpEntry
  set_arp e name v =
      let n = fold_name name in
      if text_eq n (codes "timestamp")
      then Option.map (λ x. record e { timestamp = x }) (read_time parse_time e.timestamp v)
      else if text_eq n (codes "node_id")
      then Option.map (λ x. record e { node_id = x }) (read_text e.node_id v)
      else if text_eq n (codes "ip_address")
      then Option.map (λ x. record e { ip_address = x }) (read_text e.ip_address v)
      else if text_eq n (codes "mac_address")
      then Option.map (λ x. record e { mac_address = x }) (read_text e.mac_address v)
      else if text_eq n (codes "interface")
      then Option.map (λ x. record e { interface = x }) (read_text e.interface v)
      else if text_eq n (codes "age")
      then Option.map (λ x. record e { age = x }) (read_uint 32 e.age v)
      else some e

  abbrev pub decode_arp : Object → Option ArpEntry
  decode_arp o = decode_members set_arp zero_arp o

  unfoldable pub set_vlan : VlanEntry → Text → Value → Option VlanEntry
  set_vlan e name v =
      let n = fold_name name in
      if text_eq n (codes "timestamp")
      then Option.map (λ x. record e { timestamp = x }) (read_time parse_time e.timestamp v)
      else if text_eq n (codes "node_id")
      then Option.map (λ x. record e { node_id = x }) (read_text e.node_id v)
      else if text_eq n (codes "vlan_id")
      then Option.map (λ x. record e { vlan_id = x }) (read_uint 32 e.vlan_id v)
      else if text_eq n (codes "name")
      then Option.map (λ x. record e { name = x }) (read_text_pointer v)
      else if text_eq n (codes "status")
      then Option.map (λ x. record e { status = x }) (read_text e.status v)
      else some e

  abbrev pub decode_vlan : Object → Option VlanEntry
  decode_vlan o = decode_members set_vlan zero_vlan o

  unfoldable pub set_iface : IfEntry → Text → Value → Option IfEntry
  set_iface e name v =
      let n = fold_name name in
      if text_eq n (codes "timestamp")
      then Option.map (λ x. record e { timestamp = x }) (read_time parse_time e.timestamp v)
      else if text_eq n (codes "node_id")
      then Option.map (λ x. record e { node_id = x }) (read_text e.node_id v)
      else if text_eq n (codes "name")
      then Option.map (λ x. record e { name = x }) (read_text e.name v)
      else if text_eq n (codes "description")
      then Option.map (λ x. record e { description = x }) (read_text_pointer v)
      else if text_eq n (codes "shutdown")
      then Option.map (λ x. record e { shutdown = x }) (read_bool_pointer v)
      else if text_eq n (codes "ip_address")
      then Option.map (λ x. record e { ip_address = x }) (read_text_pointer v)
      else if text_eq n (codes "prefix_len")
      then Option.map (λ x. record e { prefix_len = x }) (read_int_pointer v)
      else if text_eq n (codes "vrf")
      then Option.map (λ x. record e { vrf = x }) (read_text_pointer v)
      else if text_eq n (codes "mtu")
      then Option.map (λ x. record e { mtu = x }) (read_uint_pointer 32 v)
      else if text_eq n (codes "access_vlan")
      then Option.map (λ x. record e { access_vlan = x }) (read_uint_pointer 16 v)
      else if text_eq n (codes "voice_vlan")
      then Option.map (λ x. record e { voice_vlan = x }) (read_uint_pointer 16 v)
      else some e

  abbrev pub decode_iface : Object → Option IfEntry
  decode_iface o = decode_members set_iface zero_iface o

abbrev pub decode_all : {E : Type 0} → (Object → Option E) → List Object → Option (List E)
decode_all decode [] = some []
decode_all decode (o ∷ os) =
    Option.bind (decode o) (λ e. Option.map (λ es. e ∷ es) (decode_all decode os))
