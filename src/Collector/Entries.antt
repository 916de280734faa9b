-- ===== src/Collector/Entries.antt =====
-- The interface payload of collector/main.go, which differs from the consumer's.
use cisco_netconf_mac_db.Common.{ℕ, Bool, Option, Text, Time}

pub record IfEntry : Type 0 where
  pub timestamp : Time
  pub node_id : Text
  pub name : Text
  pub description : Option Text
  pub shutdown : Bool
  pub ip_address : Option Text
  pub prefix_len : Option ℕ
  pub vrf : Text
  pub mtu : ℕ
  pub access_vlan : Option ℕ
  pub voice_vlan : Option ℕ
