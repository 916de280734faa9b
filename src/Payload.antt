-- ===== src/Payload.antt =====
-- The payload structs of collector/main.go (lines 38 to 67) and consumer/main.go (lines 18 to 44):
-- the two programs declare the MAC, ARP and VLAN entries alike. A pointer field is an `Option`.
use cisco_netconf_mac_db.Common.{ℕ, Option, Text, Time}

pub record MacEntry : Type 0 where
  pub timestamp : Time
  pub node_id : Text
  pub mac_address : Text
  pub interface : Text
  pub vlan : ℕ
  pub type : Text

pub record ArpEntry : Type 0 where
  pub timestamp : Time
  pub node_id : Text
  pub ip_address : Text
  pub mac_address : Text
  pub interface : Text
  pub age : ℕ

pub record VlanEntry : Type 0 where
  pub timestamp : Time
  pub node_id : Text
  pub vlan_id : ℕ
  pub name : Option Text
  pub status : Text
