-- ===== src/Webapp/Search/Sql.antt =====
-- `searchSQL` of webapp/internal/search/sql.go over the four tables. `ILIKE` and the order of texts under the
-- collation are parameters; `lower` is that of ASCII letters.
use mathlib.Core.Option
use cisco_netconf_mac_db.Common.{
  ℕ, ltb, ◌==◌, ℤ, pos, negsuc, Bool, true, false, ◌&&◌, ◌||◌, Option, none, some, List, [], ◌∷◌,
  ◌++◌, Text, after, codes, text_eq, map, keep, any, sort, flat_map, distinct_on, text_has_eq,
  option_text_beq, option_text_has_eq, to_lower, if◌then◌else◌,
}
use cisco_netconf_mac_db.Consumer.Interface.{InterfaceRow, InterfaceTable}
use cisco_netconf_mac_db.Consumer.Vlan.{VlanTable}
use cisco_netconf_mac_db.Webapp.DbView.{MacRow, ArpRow}
use cisco_netconf_mac_db.Webapp.DbView.Select.{or_empty}
use cisco_netconf_mac_db.Webapp.Ports.Join.{joined_names, or_null}
use cisco_netconf_mac_db.Webapp.Search.{Result, has}

pub record Tables : Type 0 where
  pub macs : List MacRow
  pub arps : List ArpRow
  pub ports : InterfaceTable
  pub vlans : VlanTable

-- `ORDER BY ..., collected_at DESC`
abbrev pub newer_arp : ArpRow → ArpRow → Bool
newer_arp a b = after a.collected_at b.collected_at

-- `latest_arp`
abbrev pub latest_arp : List ArpRow → List ArpRow
latest_arp arps = distinct_on (λ (a : ArpRow). a.mac_address) newer_arp arps

module _ (ilike : Text → Text → Bool) where
  abbrev pub rank_of : Text → ℕ
  rank_of interface =
      if ilike interface (codes "Vlan%")
      then 3
      else if ilike interface (codes "Loopback%")
      then 3
      else if ilike interface (codes "Tunnel%")
      then 3
      else if ilike interface (codes "Port-channel%")
      then 2
      else 1

  -- the CASE expression
  abbrev pub rank : Option Text → ℕ
  rank none = 1
  rank (some interface) = rank_of interface

  -- `ORDER BY mac_address, CASE ... END ASC, collected_at DESC`
  abbrev pub better_mac : MacRow → MacRow → Bool
  better_mac m n =
      ltb (rank m.interface) (rank n.interface)
      || (rank m.interface == rank n.interface && after m.collected_at n.collected_at)

  -- `best_mac`
  abbrev pub best_mac : List MacRow → List MacRow
  best_mac macs = distinct_on (λ (m : MacRow). m.mac_address) better_mac macs

-- A LEFT JOIN puts NULL where it finds no row.
abbrev pub or_missing : {A : Type 0} → List A → List (Option A)
or_missing [] = none ∷ []
or_missing (x ∷ xs) = map some (x ∷ xs)

-- `ON m.mac_address = a.mac_address`
abbrev pub arps_of : Text → List ArpRow → List (Option ArpRow)
arps_of mac arps = or_missing (keep (λ a. option_text_beq a.mac_address (some mac)) arps)

abbrev pub is_port : Text → Option Text → Text × Text → Bool
is_port node none k = false
is_port node (some interface) k = text_eq k.0 node && text_eq k.1 interface

-- `ON m.node_id = i.node_id AND m.interface = i.name`
abbrev pub ports_of : Text → Option Text → InterfaceTable → List (Option InterfaceRow)
ports_of node interface ports =
    or_missing (map (λ (k, r). r) (keep (λ (k, r). is_port node interface k) ports))

abbrev pub result_of :
    MacRow → Option ArpRow → Option InterfaceRow → Option Text → Option Text → Result
result_of m a i access voice = record {
  node_id = m.node_id;
  mac_address = m.mac_address;
  ip_address = Option.map (λ (a : ArpRow). a.ip_address) a;
  interface = m.interface;
  interface_description = Option.bind i (λ r. r.description);
  access_vlan = Option.map (λ (r : InterfaceRow). pos r.access_vlan) i;
  access_vlan_name = access;
  voice_vlan = Option.map pos (Option.bind i (λ r. r.voice_vlan));
  voice_vlan_name = voice;
}

abbrev pub vlan_names : Text → VlanTable → Option ℕ → List (Option Text)
vlan_names node vlans vlan = or_null (joined_names node vlan vlans)

abbrev pub is_address : List Text → Option ArpRow → Bool
is_address ips none = false
is_address ips (some a) = has a.ip_address ips

-- `WHERE lower(m.mac_address) = ANY($1) OR a.ip_address = ANY($2)`
abbrev pub is_wanted : List Text → List Text → MacRow → Option ArpRow → Bool
is_wanted macs ips m a = has (map to_lower m.mac_address) macs || is_address ips a

-- the row of a MAC and an ARP entry, joined to its port and to the names of its VLANs
unfoldable pub join_row : Tables → MacRow → Option ArpRow → List Result
join_row t m a =
    flat_map
      (λ (i : Option InterfaceRow).
        flat_map
          (λ access.
            map (λ voice. result_of m a i access voice)
              (vlan_names m.node_id t.vlans (Option.bind i (λ r. r.voice_vlan))))
          (vlan_names m.node_id t.vlans (Option.map (λ (r : InterfaceRow). r.access_vlan) i)))
      (ports_of m.node_id m.interface t.ports)

-- one MAC, in the first half of the UNION
unfoldable pub mac_results : Tables → List Text → List Text → MacRow → List Result
mac_results t macs ips m =
    flat_map (λ a. if is_wanted macs ips m a then join_row t m a else [])
      (arps_of m.mac_address (latest_arp t.arps))

-- `EXISTS (SELECT 1 FROM mac_table WHERE lower(mac_address) = lower(a.mac_address))`
abbrev pub is_known : List MacRow → Option Text → Bool
is_known macs none = false
is_known macs (some mac) =
    any (λ (m : MacRow). text_eq (map to_lower m.mac_address) (map to_lower mac)) macs

-- one ARP entry, in the second half of the UNION
abbrev pub arp_results : List MacRow → ArpRow → List Result
arp_results macs a =
    if is_known macs a.mac_address
    then []
    else record {
      node_id = a.node_id;
      mac_address = or_empty a.mac_address;
      ip_address = some a.ip_address;
      interface = none;
      interface_description = none;
      access_vlan = none;
      access_vlan_name = none;
      voice_vlan = none;
      voice_vlan_name = none;
    }
      ∷ []

abbrev pub option_int_eq : Option ℤ → Option ℤ → Bool
option_int_eq none none = true
option_int_eq (some (pos m)) (some (pos n)) = m == n
option_int_eq (some (negsuc m)) (some (negsuc n)) = m == n
option_int_eq _ _ = false

-- Rows that UNION takes for one.
abbrev pub result_eq : Result → Result → Bool
result_eq r s =
    text_eq r.node_id s.node_id
    && text_eq r.mac_address s.mac_address
    && option_text_beq r.ip_address s.ip_address
    && option_text_beq r.interface s.interface
    && option_text_beq r.interface_description s.interface_description
    && option_int_eq r.access_vlan s.access_vlan
    && option_text_beq r.access_vlan_name s.access_vlan_name
    && option_int_eq r.voice_vlan s.voice_vlan
    && option_text_beq r.voice_vlan_name s.voice_vlan_name

unfoldable pub dedup : List Result → List Result
dedup [] = []
dedup (r ∷ rs) = let rest = dedup rs in if any (λ s. result_eq r s) rest then rest else r ∷ rest

-- the subquery `a`
abbrev pub asked_arps : List Text → List ArpRow → List ArpRow
asked_arps ips arps =
    distinct_on (λ (a : ArpRow). a.ip_address) newer_arp
      (keep (λ (a : ArpRow). has a.ip_address ips) arps)

module _ (ilike less : Text → Text → Bool) where
  -- `ORDER BY node_id, mac_address`
  abbrev pub result_before : Result → Result → Bool
  result_before r s =
      less r.node_id s.node_id || (text_eq r.node_id s.node_id && less r.mac_address s.mac_address)

  unfoldable pub search_sql : Tables → List Text → List Text → List Result
  search_sql t macs ips = sort result_before (
      dedup (
        flat_map (mac_results t macs ips) (best_mac ilike t.macs)
        ++ flat_map (arp_results t.macs) (asked_arps ips t.arps)))
