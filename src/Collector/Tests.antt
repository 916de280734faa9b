-- ===== src/Collector/Tests.antt =====
-- collector/main.go on concrete messages.
use mathlib.Core.List.{Memᴰ}
use cisco_netconf_mac_db.Common.{
  ℕ, pos, int64, ◌≡◌, refl, ◌↔◌, Bool, true, false, Option, none, some, ◌<|>◌, List, [], ◌∷◌, ◌++◌,
  map, keep, Text, codes, lookup, text_eq, text_has_eq, ◌==◌, if◌then◌else◌,
}
use cisco_netconf_mac_db.Proto.{
  string_value, uint32_value, Field, field, of_list, size, name, children, Telemetry,
  get_string_value, get_uint32_value,
}
use cisco_netconf_mac_db.Payload.{MacEntry, ArpEntry, VlanEntry}
use cisco_netconf_mac_db.Collector.Entries.{IfEntry}
use cisco_netconf_mac_db.Collector.Publish.{Message, publish}
use cisco_netconf_mac_db.Collector.Publish.Laws.{IsPrefixSent}
use cisco_netconf_mac_db.Collector.IfName.{expand_if_name}
use cisco_netconf_mac_db.Collector.Nested.{find_nested_field, find_match, local_name}
use cisco_netconf_mac_db.Collector.Mask.Laws.{mask_of}
use cisco_netconf_mac_db.Collector.Walk.{is_iface_node, collect_interfaces}
use cisco_netconf_mac_db.Collector.Walk.Laws.{visit_all, collect_interfaces-eq-visit}
use cisco_netconf_mac_db.Collector.Walk.Reaches.{Reaches, collect_interfaces_iff}
use cisco_netconf_mac_db.Collector.Fallback.{last_some, first_some, value_or}
use cisco_netconf_mac_db.Collector.Leaves.{walk_row}
use cisco_netconf_mac_db.Common.{take}
use cisco_netconf_mac_db.Collector.ConnLog.{
  max_dump, log_read, log_reads, logged, received, max_dump_logged,
}
use cisco_netconf_mac_db.Collector.Mac
use cisco_netconf_mac_db.Collector.Mac.Laws as MacLaws
use cisco_netconf_mac_db.Collector.Vlan.{apply_keys, apply_content, apply_vlan, vlan_of_row}
use cisco_netconf_mac_db.Collector.Vlan.Laws.{direct_name, state_name, key_id, vlan_of_row_lem}
use cisco_netconf_mac_db.Collector.Iface.{iface_entry, publish_interface}
use cisco_netconf_mac_db.Collector.Iface.Entry.{
  says_access, says_bare_access, says_voice, says_bare_voice, says_description, says_address,
  says_prefix_len, says_name, iface_entry_vlans, iface_entry_config,
}
use cisco_netconf_mac_db.Collector.Iface.Laws.{all_ifaces, iface_messages, publish_interface_prefix}
use cisco_netconf_mac_db.Collector.Stream.{
  Env, recv_error, unavailable, Session, dispatch, mdt_dialout,
}
use cisco_netconf_mac_db.Collector.Stream.Topics.{routes, IsSentTo, dispatch_topics}
use cisco_netconf_mac_db.Collector.Stream.Laws.{Round, received_in, session_after, mdt_dialout_lem}

expand_if_name-tests :
    (expand_if_name (codes "Gi1/0/1") ≡ codes "GigabitEthernet1/0/1")
    × (expand_if_name (codes "Twe1/0/1") ≡ codes "TwentyFiveGigE1/0/1")
    × (expand_if_name (codes "Gigabit") ≡ codes "Gigabit")
unfolding expand_if_name codes
expand_if_name-tests = (refl, refl, refl)

-- Fields of a telemetry tree.
abbrev text_leaf : Text → Text → Field
text_leaf n s = field 0 n (some (string_value s)) (of_list [])

abbrev number_leaf : Text → ℕ → Field
number_leaf n v = field 0 n (some (uint32_value v)) (of_list [])

abbrev container : Text → List Field → Field
container n fs = field 0 n none (of_list fs)

abbrev telemetry : Text → List Field → Telemetry
telemetry path rows = record {
  node_id_str = codes "sw1";
  subscription_id_str = codes "500";
  encoding_path = path;
  collection_id = 1;
  collection_start_time = 0;
  msg_timestamp = 1700000000000;
  data_gpbkv = rows;
}

-- The Kafka client takes two messages.
abbrev accepts : List Message → Message → Bool
accepts [] m = true
accepts (_ ∷ []) m = true
accepts (_ ∷ _ ∷ _) m = false

abbrev vlan_leaf : Text → ℕ → List Field
vlan_leaf k v = container k (container (codes "vlan") (number_leaf (codes "vlan") v ∷ []) ∷ []) ∷ []

-- An interface with a `switchport-config`, a bare `switchport`, and a nested interface.
abbrev iface_2 : Field
iface_2 = container (codes "Vlan") (number_leaf (codes "name") 7 ∷ [])

abbrev iface_1 : Field
iface_1 = container (codes "GigabitEthernet") (
    text_leaf (codes "name") (codes "1/0/1")
    ∷ text_leaf (codes "description") []
    ∷ container (codes "switchport") (vlan_leaf (codes "access") 9)
    ∷ container (codes "switchport-config")
        (container (codes "switchport") (vlan_leaf (codes "access") 20) ∷ [])
    ∷ iface_2
    ∷ [])

abbrev content : Field
content = container (codes "content") (iface_1 ∷ [])

abbrev iface_telemetry : Telemetry
iface_telemetry =
    telemetry (codes "Cisco-IOS-XE-native:native/interface") (container [] (content ∷ []) ∷ [])

collect-content : collect_interfaces content ≡ iface_1 ∷ iface_2 ∷ []
unfolding collect_interfaces is_iface_node codes size text_eq local_name
collect-content = refl

collect_interfaces_iff_example :
    Memᴰ iface_2 (collect_interfaces content)
    ↔ ((c : Field) × Memᴰ c (children content) × Reaches c iface_2 × (is_iface_node iface_2 ≡ true))
collect_interfaces_iff_example = collect_interfaces_iff content iface_2

collect_interfaces-eq-visit_example :
    collect_interfaces content ≡ visit_all (of_list (iface_1 ∷ []))
collect_interfaces-eq-visit_example =
    collect_interfaces-eq-visit 0 (codes "content") none (of_list (iface_1 ∷ []))

-- A parser that reads every text as 255.255.254.0.
abbrev parse_ip4 : Text → Option (List ℕ)
parse_ip4 s = some (mask_of 23)

iface_entry_vlans_example :
    ((iface_entry parse_ip4 iface_telemetry iface_1).access_vlan
      ≡ last_some says_access (children iface_1) <|> first_some says_bare_access (children iface_1))
    × ((iface_entry parse_ip4 iface_telemetry iface_1).voice_vlan
        ≡ last_some says_voice (children iface_1) <|> first_some says_bare_voice (children iface_1))
iface_entry_vlans_example = iface_entry_vlans parse_ip4 iface_telemetry iface_1

iface_entry_config_example :
    let entry = iface_entry parse_ip4 iface_telemetry iface_1 in
    (entry.description ≡ last_some says_description (children iface_1))
    × (entry.ip_address ≡ last_some says_address (children iface_1))
    × (entry.prefix_len ≡ last_some (says_prefix_len parse_ip4) (children iface_1))
    × (entry.name ≡ value_or [] (last_some (says_name (name iface_1)) (children iface_1)))
    × (entry.node_id ≡ iface_telemetry.node_id_str)
    × (entry.timestamp ≡ int64 iface_telemetry.msg_timestamp)
iface_entry_config_example = iface_entry_config parse_ip4 iface_telemetry iface_1

abbrev show_iface : IfEntry → Option Text
show_iface e = some e.name

publish_interface_prefix_example :
    IsPrefixSent
      (iface_messages show_iface parse_ip4 iface_telemetry (all_ifaces iface_telemetry.data_gpbkv))
      []
      (publish_interface accepts show_iface parse_ip4 iface_telemetry [])
publish_interface_prefix_example =
    publish_interface_prefix accepts show_iface parse_ip4 iface_telemetry []

-- A MAC table with a row that has no address.
abbrev mac_telemetry : Telemetry
mac_telemetry =
    telemetry (codes "Cisco-IOS-XE-matm-oper:matm-oper-data/matm-table/matm-mac-entry") (
      container [] (
        container (codes "keys")
          (text_leaf (codes "mac") (codes "00aa") ∷ number_leaf (codes "vlan-id-number") 20 ∷ [])
        ∷ container (codes "content") (text_leaf (codes "port") (codes "Gi1/0/1") ∷ [])
        ∷ [])
      ∷ container []
          (container (codes "content") (text_leaf (codes "port") (codes "Gi1/0/2") ∷ []) ∷ [])
      ∷ [])

abbrev show_macs : List MacEntry → Option Text
show_macs [] = none
show_macs (e ∷ es) = some e.interface

publish_mac-mac_telemetry : Mac.publish_mac accepts show_macs mac_telemetry [] ≡ (
  none,
  record { topic = codes "mac-table"; key = codes "sw1"; value = codes "GigabitEthernet1/0/1" }
      ∷ [],
)
unfolding Mac.publish_mac codes walk_row Mac.apply_mac Mac.mac_leaf text_eq get_string_value publish
    expand_if_name
publish_mac-mac_telemetry = refl

publish_mac-eq-described_example :
    Mac.publish_mac accepts show_macs mac_telemetry []
    ≡ Mac.publish_entries accepts show_macs mac_telemetry
        (keep MacLaws.has_address (map (MacLaws.described mac_telemetry) mac_telemetry.data_gpbkv))
        []
publish_mac-eq-described_example =
    MacLaws.publish_mac-eq-described accepts show_macs mac_telemetry []

abbrev arp_telemetry : Telemetry
arp_telemetry = telemetry (codes "Cisco-IOS-XE-arp-oper:arp-data/arp-vrf/arp-entry") (
    container [] (
      text_leaf (codes "address") (codes "10.0.0.9")
      ∷ text_leaf (codes "hardware") (codes "00aa")
      ∷ [])
    ∷ [])

abbrev show_arps : List ArpEntry → Option Text
show_arps [] = none
show_arps (e ∷ es) = some e.ip_address

-- A VLAN row whose name stands under `state` only.
abbrev vlan_row : Field
vlan_row = container [] (
    container (codes "keys") (number_leaf (codes "vlan-id") 7 ∷ [])
    ∷ container (codes "content")
        (container (codes "state") (text_leaf (codes "name") (codes "office") ∷ []) ∷ [])
    ∷ [])

abbrev vlan_telemetry : Telemetry
vlan_telemetry = telemetry (codes "openconfig-vlan:vlans/vlan") (vlan_row ∷ [])

vlan_of_row-vlan_row : vlan_of_row vlan_telemetry vlan_row ≡ record {
  timestamp = pos 1700000000000;
  node_id = codes "sw1";
  vlan_id = 7;
  name = some (codes "office");
  status = [];
}
unfolding vlan_of_row codes apply_vlan text_eq apply_content apply_keys find_nested_field find_match
    local_name get_string_value get_uint32_value
vlan_of_row-vlan_row = refl

vlan_of_row_lem_example :
    ((vlan_of_row vlan_telemetry vlan_row).name
      ≡ last_some direct_name (children vlan_row) <|> first_some state_name (children vlan_row))
    × ((vlan_of_row vlan_telemetry vlan_row).vlan_id
        ≡ value_or 0 (last_some key_id (children vlan_row)))
    × ((vlan_of_row vlan_telemetry vlan_row).node_id ≡ vlan_telemetry.node_id_str)
    × ((vlan_of_row vlan_telemetry vlan_row).timestamp ≡ int64 vlan_telemetry.msg_timestamp)
vlan_of_row_lem_example = vlan_of_row_lem vlan_telemetry vlan_row

abbrev show_vlan : VlanEntry → Option Text
show_vlan e = e.name

-- A decoder for streams: 1, 2 and 3 for three of the messages above.
abbrev decode : List ℕ → Option Telemetry
decode [] = none
decode (b ∷ _) =
    if b == 1
    then some mac_telemetry
    else if b == 2
    then some iface_telemetry
    else if b == 3
    then some vlan_telemetry
    else none

abbrev env : Env
env = record {
  accepts = accepts;
  marshal_macs = show_macs;
  marshal_arps = show_arps;
  marshal_iface = show_iface;
  marshal_vlan = show_vlan;
  parse_ip4 = parse_ip4;
  unmarshal = decode;
}

dispatch_topics_example :
    IsSentTo (lookup mac_telemetry.encoding_path routes) [] (dispatch env mac_telemetry [])
dispatch_topics_example = dispatch_topics env mac_telemetry []

-- Empty data, data that do not decode, and two messages; the response to the last one cannot be sent.
abbrev rounds : List Round
rounds = (1 ∷ [], true) ∷ ([], true) ∷ (9 ∷ [], true) ∷ (3 ∷ [], false) ∷ []

abbrev quiet : Session
quiet = record { log = []; acks = 0 }

mdt_dialout_lem_example :
    (mdt_dialout env (received_in rounds) quiet ≡ (none, session_after env rounds quiet))
    × (mdt_dialout env (received_in rounds ++ recv_error ∷ recv_error ∷ []) quiet
        ≡ (some unavailable, session_after env rounds quiet))
mdt_dialout_lem_example = mdt_dialout_lem env rounds (recv_error ∷ []) quiet

abbrev reads : List (List ℕ)
reads = codes "PRI * HTTP/2.0" ∷ [] ∷ codes "SM" ∷ []

max_dump_logged_example : logged (log_reads max_dump 0 reads) ≡ take max_dump (received reads)
max_dump_logged_example = max_dump_logged reads

logged-small_dump :
    logged (log_reads 16 0 (codes "PRI * HTTP/2.0" ∷ codes "SM" ∷ codes "tail" ∷ []))
    ≡ codes "PRI * HTTP/2.0SM"
unfolding log_reads log_read codes
logged-small_dump = refl
