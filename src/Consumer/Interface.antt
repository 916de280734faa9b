-- ===== src/Consumer/Interface.antt =====
-- `handleInterface` of consumer/main.go: the upsert into interface_table, whose key is (node_id, name).
-- `json.Unmarshal` is a parameter, and so is `accepts`, which says whether the driver and the server
-- take the values (their ranges) and run the statement; each handling of a message has its own. A
-- statement that fails changes nothing. The
-- column `shutdown` is NOT NULL, so a row with no value for it is refused.
pub mod Laws
pub mod Messages
use cisco_netconf_mac_db.Common.{
  ℕ, ℤ, Bool, Option, none, some, List, ◌<|>◌, Text, Time, not_before, lookup, insert,
  text_pair_has_eq, if◌then◌else◌,
}
use cisco_netconf_mac_db.Consumer.Entries.{IfEntry, Error, bad_json, db_error}

pub record InterfaceRow : Type 0 where
  pub description : Option Text
  pub shutdown : Bool
  pub ip_address : Option Text
  pub prefix_len : Option ℤ
  pub vrf : Option Text
  pub mtu : Option ℕ
  pub access_vlan : ℕ
  pub voice_vlan : Option ℕ
  pub collected_at : Time

abbrev pub InterfaceTable : Type 0
InterfaceTable = List ((Text × Text) × InterfaceRow)

abbrev pub interface_key : IfEntry → Text × Text
interface_key e = (e.node_id, e.name)

-- `COALESCE(o, d)` for a column that is not null
abbrev pub coalesce {ℓ} : {A : Type ℓ} → Option A → A → A
coalesce none d = d
coalesce (some a) d = a

-- The row of the VALUES line, EXCLUDED in the rest of the statement.
abbrev pub excluded : IfEntry → Bool → InterfaceRow
excluded e shutdown = record {
  description = e.description;
  shutdown = shutdown;
  ip_address = e.ip_address;
  prefix_len = e.prefix_len;
  vrf = e.vrf;
  mtu = e.mtu;
  access_vlan = coalesce e.access_vlan 1;
  voice_vlan = e.voice_vlan;
  collected_at = e.timestamp;
}

-- The SET list of DO UPDATE, over the stored row. The access VLAN is the parameter $9 and not that of
-- EXCLUDED.
abbrev pub updated : IfEntry → InterfaceRow → InterfaceRow → InterfaceRow
updated e new old = record {
  description = new.description <|> old.description;
  shutdown = new.shutdown;
  ip_address = new.ip_address <|> old.ip_address;
  prefix_len = new.prefix_len <|> old.prefix_len;
  vrf = new.vrf <|> old.vrf;
  mtu = new.mtu <|> old.mtu;
  access_vlan = coalesce e.access_vlan old.access_vlan;
  voice_vlan = e.voice_vlan <|> old.voice_vlan;
  collected_at = new.collected_at;
}

-- Insert, or update if the stored row is not newer.
abbrev pub upsert_at :
    IfEntry → InterfaceRow → Option InterfaceRow → InterfaceTable → InterfaceTable
upsert_at e new none table = insert (interface_key e) new table
upsert_at e new (some old) table =
    if not_before new.collected_at old.collected_at
    then insert (interface_key e) (updated e new old) table
    else table

unfoldable pub upsert_interface : IfEntry → Bool → InterfaceTable → InterfaceTable
upsert_interface e shutdown table =
    upsert_at e (excluded e shutdown) (lookup (interface_key e) table) table

module _ (unmarshal : Text → Option IfEntry) (accepts : IfEntry → InterfaceTable → Bool) where
  abbrev pub exec : IfEntry → Option Bool → InterfaceTable → Option Error × InterfaceTable
  exec e none table = (some db_error, table)
  exec e (some shutdown) table =
      if accepts e table then (none, upsert_interface e shutdown table) else (some db_error, table)

  abbrev pub handle_decoded : Option IfEntry → InterfaceTable → Option Error × InterfaceTable
  handle_decoded none table = (some bad_json, table)
  handle_decoded (some e) table = exec e e.shutdown table

  unfoldable pub handle_interface : Text → InterfaceTable → Option Error × InterfaceTable
  handle_interface b table = handle_decoded (unmarshal b) table
