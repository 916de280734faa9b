-- ===== src/Consumer/Dynamic.antt =====
-- `consumeMACBatch` and `consumeARPBatch` of consumer/main.go: the batching loop at the two tables
-- that the network fills by itself. `json.Unmarshal` is a parameter.
use cisco_netconf_mac_db.Common.{ℕ, Option, List, Text, Time, ℤ, int32, text_pair_has_eq}
use cisco_netconf_mac_db.Payload.{MacEntry, ArpEntry}
use cisco_netconf_mac_db.Consumer.Batch.{Event, State, run}

abbrev pub mac_batch_size : ℕ
mac_batch_size = 500

abbrev pub arp_batch_size : ℕ
arp_batch_size = 500

-- The columns of mac_table and arp_table besides the key (node_id, mac_address) or (node_id,
-- ip_address).
pub record MacRow : Type 0 where
  pub interface : Text
  pub vlan : ℤ
  pub mac_type : Text
  pub collected_at : Time

pub record ArpRow : Type 0 where
  pub mac_address : Text
  pub interface : Text
  pub age_seconds : ℤ
  pub collected_at : Time

abbrev pub MacKey : Type 0
MacKey = Text × Text

abbrev pub ArpKey : Type 0
ArpKey = Text × Text

abbrev pub mac_key : MacEntry → MacKey
mac_key e = (e.node_id, e.mac_address)

abbrev pub arp_key : ArpEntry → ArpKey
arp_key e = (e.node_id, e.ip_address)

abbrev pub mac_row : MacEntry → MacRow
mac_row e = record {
  interface = e.interface;
  vlan = int32 e.vlan;
  mac_type = e.type;
  collected_at = e.timestamp;
}

abbrev pub arp_row : ArpEntry → ArpRow
arp_row e = record {
  mac_address = e.mac_address;
  interface = e.interface;
  age_seconds = int32 e.age;
  collected_at = e.timestamp;
}

unfoldable pub consume_mac_batch :
    (Text → Option (List MacEntry))
    → State MacKey MacEntry MacRow
    → List Event
    → State MacKey MacEntry MacRow
unfolding run
consume_mac_batch unmarshal = run mac_key (λ e. e.timestamp) mac_row mac_batch_size unmarshal

unfoldable pub consume_arp_batch :
    (Text → Option (List ArpEntry))
    → State ArpKey ArpEntry ArpRow
    → List Event
    → State ArpKey ArpEntry ArpRow
unfolding run
consume_arp_batch unmarshal = run arp_key (λ e. e.timestamp) arp_row arp_batch_size unmarshal
