-- ===== src/Consumer/Entries.antt =====
-- The interface payload of consumer/main.go, and the error of a message handler.
use cisco_netconf_mac_db.Common.{ℕ, ℤ, Bool, Option, Text, Time}

pub record IfEntry : Type 0 where
  pub timestamp : Time
  pub node_id : Text
  pub name : Text
  pub description : Option Text
  pub shutdown : Option Bool
  pub ip_address : Option Text
  pub prefix_len : Option ℤ
  pub vrf : Option Text
  pub mtu : Option ℕ
  pub access_vlan : Option ℕ
  pub voice_vlan : Option ℕ

pub data Error : Type 0 where
  bad_json db_error : Error
