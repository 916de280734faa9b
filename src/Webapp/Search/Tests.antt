-- ===== src/Webapp/Search/Tests.antt =====
-- The query of webapp/internal/search on small tables.
use mathlib.Core.List.{Memᴰ}
use mathlib.Core.Option
use cisco_netconf_mac_db.Common.{
  pos, ℕ, ◌≡◌, refl, Bool, false, none, some, [], ◌∷◌, Text, codes, text_eq, is_empty,
  if◌then◌else◌, has_prefix, lookup, insert, sort, insert_sorted, group, All, text_has_eq,
  option_text_has_eq,
}
use cisco_netconf_mac_db.Webapp.DbView.{MacRow, ArpRow}
use cisco_netconf_mac_db.Webapp.Ports.Join.{joined_names}
use cisco_netconf_mac_db.Webapp.Search.Sql.{
  Tables, best_mac, latest_arp, mac_results, join_row, dedup, search_sql,
}
use cisco_netconf_mac_db.Webapp.Search.Found.{
  IsElse, IsKnownAt, IsPreferred, best_mac_lem, older_address_not_found,
}

abbrev mac : Text → Text → ℕ → MacRow
mac node interface time = record {
  id = 1;
  node_id = node;
  mac_address = codes "00aa";
  interface = some interface;
  vlan = none;
  mac_type = none;
  collected_at = pos time;
}

abbrev arp : Text → ℕ → ArpRow
arp ip time = record {
  id = 1;
  node_id = codes "sw1";
  ip_address = ip;
  mac_address = some (codes "00aa");
  interface = none;
  age_seconds = none;
  collected_at = pos time;
}

-- A MAC that is learned on an uplink of one switch and on a port of another, with two addresses.
abbrev tables : Tables
tables = record {
  macs = mac (codes "sw1") (codes "Port-channel1") 9 ∷ mac (codes "sw2") (codes "Gi1") 5 ∷ [];
  arps = arp (codes "10.0.0.1") 5 ∷ arp (codes "10.0.0.2") 7 ∷ [];
  ports = [];
  vlans = [];
}

-- `x%` matches what starts with `x`.
abbrev front : Text → Text
front [] = []
front (c ∷ s) = if is_empty s then [] else c ∷ front s

abbrev starts : Text → Text → Bool
starts s pattern = has_prefix s (front pattern)

best_mac_lem_example :
    ((n : MacRow)
      → Memᴰ n tables.macs
      → (m : MacRow) × Memᴰ m (best_mac starts tables.macs) × (m.mac_address ≡ n.mac_address))
    × ((m : MacRow) → Memᴰ m (best_mac starts tables.macs) → All (IsPreferred starts m) tables.macs)
    × ((m m' : MacRow)
        → Memᴰ m (best_mac starts tables.macs)
        → Memᴰ m' (best_mac starts tables.macs)
        → m.mac_address ≡ m'.mac_address
        → m ≡ m')
best_mac_lem_example = best_mac_lem starts tables.macs

best_mac-tables : best_mac starts tables.macs ≡ mac (codes "sw2") (codes "Gi1") 5 ∷ []
unfolding group lookup insert codes text_eq has_prefix
best_mac-tables = refl

older-IsElse : All (IsElse (codes "10.0.0.1")) (latest_arp tables.arps)
unfolding group lookup insert codes text_eq
older-IsElse = (refl, tt)

older-IsKnownAt : All (IsKnownAt tables.macs (codes "10.0.0.1")) tables.arps
unfolding codes text_eq
older-IsKnownAt = (λ h. refl, (λ h. refl, tt))

older_address_not_found_example :
    search_sql starts (λ s t. false) tables [] (codes "10.0.0.1" ∷ []) ≡ []
older_address_not_found_example =
    older_address_not_found starts (λ s t. false) tables (codes "10.0.0.1") older-IsElse
      older-IsKnownAt

search_sql-newer :
    search_sql starts (λ s t. false) tables [] (codes "10.0.0.2" ∷ [])
    ≡ record {
      node_id = codes "sw2";
      mac_address = codes "00aa";
      ip_address = some (codes "10.0.0.2");
      interface = some (codes "Gi1");
      interface_description = none;
      access_vlan = none;
      access_vlan_name = none;
      voice_vlan = none;
      voice_vlan_name = none;
    }
      ∷ []
unfolding search_sql mac_results join_row dedup sort insert_sorted group lookup insert codes text_eq
    has_prefix Option.bind joined_names
search_sql-newer = refl
