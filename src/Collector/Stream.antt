-- ===== src/Collector/Stream.antt =====
-- `dispatch` and `MdtDialout` of collector/main.go, with the tests on the encoding path. A stream is
-- the list of what `Recv` has returned so far; each message comes with the outcome of the `Send` that
-- answers it. The logging is left out.
pub mod Topics
pub mod Laws
use cisco_netconf_mac_db.Common.{
  ℕ, suc, Bool, true, false, ◌||◌, Option, none, some, List, [], ◌∷◌, Text, codes, text_eq,
  if◌then◌else◌,
}
use cisco_netconf_mac_db.Proto.{Telemetry}
use cisco_netconf_mac_db.Payload.{MacEntry, ArpEntry, VlanEntry}
use cisco_netconf_mac_db.Collector.Entries.{IfEntry}
use cisco_netconf_mac_db.Collector.Publish.{Message, Action}
use cisco_netconf_mac_db.Collector.Mac.{publish_mac}
use cisco_netconf_mac_db.Collector.Arp.{publish_arp}
use cisco_netconf_mac_db.Collector.Iface.{publish_interface}
use cisco_netconf_mac_db.Collector.Vlan.{publish_vlan}

unfoldable pub is_mac : Text → Bool
is_mac path = text_eq path (codes "Cisco-IOS-XE-matm-oper:matm-oper-data/matm-table/matm-mac-entry")

unfoldable pub is_arp : Text → Bool
is_arp path =
    text_eq path (codes "Cisco-IOS-XE-arp-oper:arp-data/arp-vrf/arp-entry")
    || text_eq path (codes "arp-ios-xe-oper:arp-data/arp-vrf/arp-entry")

unfoldable pub is_interface : Text → Bool
is_interface path = text_eq path (codes "Cisco-IOS-XE-native:native/interface")

unfoldable pub is_vlan : Text → Bool
is_vlan path =
    text_eq path (codes "openconfig-vlan:vlans/vlan")
    || text_eq path (codes "Cisco-IOS-XE-vlan-oper:vlans/vlan")

-- What the collector takes from libraries: the Kafka client, `json.Marshal` at each payload type,
-- `net.ParseIP(…).To4()` and `proto.Unmarshal`.
pub record Env : Type 0 where
  pub accepts : List Message → Message → Bool
  pub marshal_macs : List MacEntry → Option Text
  pub marshal_arps : List ArpEntry → Option Text
  pub marshal_iface : IfEntry → Option Text
  pub marshal_vlan : VlanEntry → Option Text
  pub parse_ip4 : Text → Option (List ℕ)
  pub unmarshal : List ℕ → Option Telemetry

-- What `stream.Recv` returns: the data of a message, with whether the response to it can be sent, or
-- an error.
pub data Recv : Type 0 where
  args : List ℕ → Bool → Recv
  recv_error : Recv

-- The codes of the status with which an RPC ends; a handler that returns nil ends with OK.
pub data Status : Type 0 where
  ok unavailable : Status

-- The acknowledged Kafka messages, and the number of responses that were sent to the switch.
pub record Session : Type 0 where
  pub log : List Message
  pub acks : ℕ

-- `stream.Send`, which may fail
abbrev pub send : Bool → ℕ → ℕ
send true acks = suc acks
send false acks = acks

module _ (env : Env) where
  unfoldable pub dispatch : Telemetry → Action
  dispatch t log =
      if is_mac t.encoding_path
      then publish_mac env.accepts env.marshal_macs t log
      else if is_arp t.encoding_path
      then publish_arp env.accepts env.marshal_arps t log
      else if is_interface t.encoding_path
      then publish_interface env.accepts env.marshal_iface env.parse_ip4 t log
      else if is_vlan t.encoding_path
      then publish_vlan env.accepts env.marshal_vlan t log
      else (none, log)

  -- An error of `dispatch` is logged, and the response is sent all the same; an error of sending the
  -- response is logged too, and the loop goes on.
  abbrev pub handle : Option Telemetry → Bool → Session → Session
  handle none send_ok s = s
  handle (some t) send_ok s = record { log = (dispatch t s.log).1; acks = send send_ok s.acks }

  -- one round of the loop: empty data and data that do not decode are skipped
  unfoldable pub receive : List ℕ → Bool → Session → Session
  receive [] send_ok s = s
  receive (b ∷ bs) send_ok s = handle (env.unmarshal (b ∷ bs)) send_ok s

  -- The loop over what `Recv` has returned so far, with no status while it waits for more.
  unfoldable pub mdt_dialout : List Recv → Session → Option Status × Session
  mdt_dialout [] s = (none, s)
  mdt_dialout (recv_error ∷ stream) s = (some unavailable, s)
  mdt_dialout (args data_bytes send_ok ∷ stream) s =
      mdt_dialout stream (receive data_bytes send_ok s)
