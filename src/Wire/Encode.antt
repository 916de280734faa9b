-- ===== src/Wire/Encode.antt =====
-- `json.Marshal` of the collector's payloads, by their struct tags. A time outside the years 0 to 9999 has no text.
use mathlib.Core.Option
use cisco_netconf_mac_db.Common.{
  ℕ, ◌==◌, pos, Option, none, some, List, [], ◌∷◌, ◌++◌, Text, Time, codes, is_empty, if◌then◌else◌,
}
use cisco_netconf_mac_db.Payload.{MacEntry, ArpEntry, VlanEntry}
use cisco_netconf_mac_db.Collector.Entries.{IfEntry}
use cisco_netconf_mac_db.Wire.Json.{Value, null, boolean, number, string, Object}

-- a pointer without omitempty
abbrev pub text_or_null : Option Text → Value
text_or_null none = null
text_or_null (some s) = string s

abbrev pub number_or_null : Option ℕ → Value
number_or_null none = null
number_or_null (some n) = number (pos n)

-- the three kinds of `omitempty`
abbrev pub omit_nil : Text → Option Text → Object
omit_nil name none = []
omit_nil name (some s) = (name, string s) ∷ []

abbrev pub omit_empty : Text → Text → Object
omit_empty name s = if is_empty s then [] else (name, string s) ∷ []

abbrev pub omit_zero : Text → ℕ → Object
omit_zero name n = if n == 0 then [] else (name, number (pos n)) ∷ []

abbrev pub mac_object : MacEntry → Text → Object
mac_object e time =
    (codes "timestamp", string time)
    ∷ (codes "node_id", string e.node_id)
    ∷ (codes "mac_address", string e.mac_address)
    ∷ (codes "interface", string e.interface)
    ∷ (codes "vlan", number (pos e.vlan))
    ∷ (codes "type", string e.type)
    ∷ []

abbrev pub arp_object : ArpEntry → Text → Object
arp_object e time =
    (codes "timestamp", string time)
    ∷ (codes "node_id", string e.node_id)
    ∷ (codes "ip_address", string e.ip_address)
    ∷ (codes "mac_address", string e.mac_address)
    ∷ (codes "interface", string e.interface)
    ∷ (codes "age", number (pos e.age))
    ∷ []

abbrev pub vlan_object : VlanEntry → Text → Object
vlan_object e time =
    (codes "timestamp", string time)
      ∷ (codes "node_id", string e.node_id)
      ∷ (codes "vlan_id", number (pos e.vlan_id))
      ∷ omit_nil (codes "name") e.name
    ++ omit_empty (codes "status") e.status

abbrev pub iface_object : IfEntry → Text → Object
iface_object e time =
    (codes "timestamp", string time)
      ∷ (codes "node_id", string e.node_id)
      ∷ (codes "name", string e.name)
      ∷ (codes "description", text_or_null e.description)
      ∷ (codes "shutdown", boolean e.shutdown)
      ∷ (codes "ip_address", text_or_null e.ip_address)
      ∷ (codes "prefix_len", number_or_null e.prefix_len)
      ∷ omit_empty (codes "vrf") e.vrf
    ++ (omit_zero (codes "mtu") e.mtu
        ++ (codes "access_vlan", number_or_null e.access_vlan)
          ∷ (codes "voice_vlan", number_or_null e.voice_vlan)
          ∷ [])

module _ (format : Time → Option Text) where
  abbrev pub encode_mac : MacEntry → Option Object
  encode_mac e = Option.map (mac_object e) (format e.timestamp)

  abbrev pub encode_arp : ArpEntry → Option Object
  encode_arp e = Option.map (arp_object e) (format e.timestamp)

  abbrev pub encode_vlan : VlanEntry → Option Object
  encode_vlan e = Option.map (vlan_object e) (format e.timestamp)

  abbrev pub encode_iface : IfEntry → Option Object
  encode_iface e = Option.map (iface_object e) (format e.timestamp)

-- A JSON array of objects.
abbrev pub encode_all : {E : Type 0} → (E → Option Object) → List E → Option (List Object)
encode_all encode [] = some []
encode_all encode (e ∷ es) =
    Option.bind (encode e) (λ o. Option.map (λ os. o ∷ os) (encode_all encode es))
