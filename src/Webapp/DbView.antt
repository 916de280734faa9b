-- ===== src/Webapp/DbView.antt =====
-- webapp/internal/dbview: the table browser. A statement sees the rows of its table at the time when it
-- runs, or fails; two statements of one request may see different rows. `ILIKE` of PostgreSQL is a
-- parameter. Scanning a row does not fail: the fields have the types of the columns.
pub mod Query
pub mod Select
pub mod Table
pub mod Inspect
pub mod Pages
pub mod Laws
pub mod Tests
use cisco_netconf_mac_db.Common.{ℕ, ℤ, Bool, Option, Text, Time}

pub record MacRow : Type 0 where
  pub id : ℕ
  pub node_id : Text
  pub mac_address : Text
  pub interface : Option Text
  pub vlan : Option ℤ
  pub mac_type : Option Text
  pub collected_at : Time

pub record ArpRow : Type 0 where
  pub id : ℕ
  pub node_id : Text
  pub ip_address : Text
  pub mac_address : Option Text
  pub interface : Option Text
  pub age_seconds : Option ℤ
  pub collected_at : Time

pub record InterfaceRow : Type 0 where
  pub id : ℕ
  pub node_id : Text
  pub name : Text
  pub description : Option Text
  pub shutdown : Bool
  pub ip_address : Option Text
  pub prefix_len : Option ℤ
  pub vrf : Option Text
  pub mtu : Option ℤ
  pub access_vlan : Option ℤ
  pub voice_vlan : Option ℤ
  pub collected_at : Time

pub record VlanRow : Type 0 where
  pub id : ℕ
  pub node_id : Text
  pub vlan_id : ℤ
  pub name : Option Text
  pub status : Option Text
  pub collected_at : Time
