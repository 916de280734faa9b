-- ===== src/Wire/Laws.antt =====
-- What the collector encodes, the consumer decodes.
use mathlib.Core.Option
use cisco_netconf_mac_db.Common.{
  ℕ, ◌^◌, ◌<◌, ◌==◌, ◌≡◌, refl, ap, ◌∙◌, pos, Bool-cases, inl, inr, Option, none, some, List, [],
  ◌∷◌, ◌++◌, map, Text, Time, codes, text_eq, has_prefix, arith, if◌then◌else◌,
}
use cisco_netconf_mac_db.Payload.{MacEntry, ArpEntry, VlanEntry}
use cisco_netconf_mac_db.Collector.Entries as Sent
use cisco_netconf_mac_db.Consumer.Entries as Received
use cisco_netconf_mac_db.Wire.Json.{
  Object, fold_name, decode_members, in_width, read_text_pointer, read_uint_pointer,
  read_int_pointer,
}
use cisco_netconf_mac_db.Wire.Encode.{
  encode_mac, encode_arp, encode_vlan, encode_iface, text_or_null, number_or_null, omit_nil,
  omit_empty, omit_zero,
}
use cisco_netconf_mac_db.Wire.Decode.{
  set_mac, set_arp, set_vlan, set_iface, decode_mac, decode_arp, decode_vlan, decode_iface,
}

in_width_lem : (w n : ℕ) → n < 2 ^ w → in_width w (pos n) ≡ some n
in_width_lem w n h = ground arith

-- What the consumer gets for an interface: an empty VRF and a zero MTU are absent.
abbrev pub non_empty : Text → Option Text
non_empty [] = none
non_empty (c ∷ s) = some (c ∷ s)

abbrev pub non_zero : ℕ → Option ℕ
non_zero n = if n == 0 then none else some n

abbrev pub received : Sent.IfEntry → Received.IfEntry
received e = record {
  timestamp = e.timestamp;
  node_id = e.node_id;
  name = e.name;
  description = e.description;
  shutdown = some e.shutdown;
  ip_address = e.ip_address;
  prefix_len = Option.map pos e.prefix_len;
  vrf = non_empty e.vrf;
  mtu = non_zero e.mtu;
  access_vlan = e.access_vlan;
  voice_vlan = e.voice_vlan;
}

-- A number of that width, or none.
abbrev pub IsBelow : ℕ → Option ℕ → Type 0
IsBelow w none = Unit
IsBelow w (some n) = n < 2 ^ w

-- The numbers have the widths of their Go types.
abbrev pub IsInRange : Sent.IfEntry → Type 0
IsInRange e =
    (e.mtu < 2 ^ 32) × IsBelow 16 e.access_vlan × IsBelow 16 e.voice_vlan × IsBelow 63 e.prefix_len

text_or_null_lem : (o : Option Text) → read_text_pointer (text_or_null o) ≡ some o
text_or_null_lem none = refl
text_or_null_lem (some s) = refl

uint_or_null_lem :
    (w : ℕ) (o : Option ℕ) → IsBelow w o → read_uint_pointer w (number_or_null o) ≡ some o
uint_or_null_lem w none h = refl
uint_or_null_lem w (some n) h = rw (in_width_lem w n h) refl

int_or_null_lem :
    (o : Option ℕ) → IsBelow 63 o → read_int_pointer (number_or_null o) ≡ some (Option.map pos o)
int_or_null_lem none h = refl
int_or_null_lem (some n) h = ground arith

pub map_id : {E : Type 0} (es : List E) → map (λ e. e) es ≡ es
map_id [] = refl
map_id (e ∷ es) = ap (λ xs. e ∷ xs) (map_id es)

pub bind_some :
    {A B : Type 0} (o : Option A) (f : A → Option B) (b : B)
    → Option.bind o f ≡ some b
    → (a : A) × (o ≡ some a) × (f a ≡ some b)
unfolding Option.bind
bind_some none f b h = absurd (grind (arith, h))
bind_some (some a) f b h = (a, refl, h)

module _ (format : Time → Option Text) (parse_time : Text → Option Time) where
  -- The text of a time is read as that time.
  abbrev pub IsReadable : Time → Type 0
  IsReadable t = Option.bind (format t) parse_time ≡ some t

  readable_text :
      (t : Time) → IsReadable t → (s : Text) × (format t ≡ some s) × (parse_time s ≡ some t)
  readable_text t h = bind_some (format t) parse_time t h

  pub mac_round_trip :
      (e : MacEntry)
      → IsReadable e.timestamp
      → e.vlan < 2 ^ 32
      → Option.bind (encode_mac format e) (decode_mac parse_time) ≡ some e
  unfolding decode_members set_mac fold_name text_eq codes has_prefix Option.bind
  mac_round_trip e t v =
      let (s, f, p) = readable_text e.timestamp t in
      let w = in_width_lem 32 e.vlan v in rw (f, p, w) refl

  pub arp_round_trip :
      (e : ArpEntry)
      → IsReadable e.timestamp
      → e.age < 2 ^ 32
      → Option.bind (encode_arp format e) (decode_arp parse_time) ≡ some e
  unfolding decode_members set_arp fold_name text_eq codes has_prefix Option.bind
  arp_round_trip e t v =
      let (s, f, p) = readable_text e.timestamp t in
      let w = in_width_lem 32 e.age v in rw (f, p, w) refl

  vlan_rest :
      (e : VlanEntry) (name : Option Text) (status : Text)
      → decode_members
          (set_vlan parse_time)
          (record e { name = none; status = [] })
          (omit_nil (codes "name") name ++ omit_empty (codes "status") status)
        ≡ some (record e { name = name; status = status })
  unfolding decode_members set_vlan fold_name text_eq codes has_prefix Option.bind
  vlan_rest e none [] = refl
  vlan_rest e none (c ∷ s) = refl
  vlan_rest e (some n) [] = refl
  vlan_rest e (some n) (c ∷ s) = refl

  -- A VLAN entry comes back as it was: an absent name stays absent, and an empty one stays empty. The text of its time
  -- is read as that time, and its number fits 32 bits.
  pub vlan_round_trip :
      (e : VlanEntry)
      → IsReadable e.timestamp
      → e.vlan_id < 2 ^ 32
      → Option.bind (encode_vlan format e) (decode_vlan parse_time) ≡ some e
  unfolding decode_members set_vlan fold_name text_eq codes has_prefix Option.bind
  vlan_round_trip e t v =
      let (s, f, p) = readable_text e.timestamp t in
      let w = in_width_lem 32 e.vlan_id v in
      rw (f, p, w) (vlan_rest (record e { name = none; status = [] }) e.name e.status)

  vrf_rest :
      (e : Received.IfEntry) (vrf : Text) (rest : Object)
      → decode_members
          (set_iface parse_time)
          (record e { vrf = none })
          (omit_empty (codes "vrf") vrf ++ rest)
        ≡ decode_members (set_iface parse_time) (record e { vrf = non_empty vrf }) rest
  unfolding decode_members set_iface fold_name text_eq codes has_prefix Option.bind
  vrf_rest e [] rest = refl
  vrf_rest e (c ∷ s) rest = refl

  mtu_rest :
      (e : Received.IfEntry) (mtu : ℕ) (rest : Object)
      → mtu < 2 ^ 32
      → decode_members
          (set_iface parse_time)
          (record e { mtu = none })
          (omit_zero (codes "mtu") mtu ++ rest)
        ≡ decode_members (set_iface parse_time) (record e { mtu = non_zero mtu }) rest
  unfolding decode_members set_iface fold_name text_eq codes has_prefix Option.bind
  mtu_rest e mtu rest h = elim (Bool-cases (mtu == 0)) [
    | inl t ↦ rw t refl
    | inr f ↦ rw (f, in_width_lem 32 mtu h) refl
  ]

  pub iface_round_trip :
      (e : Sent.IfEntry)
      → IsReadable e.timestamp
      → IsInRange e
      → Option.bind (encode_iface format e) (decode_iface parse_time) ≡ some (received e)
  unfolding decode_members set_iface fold_name text_eq codes has_prefix Option.bind
  iface_round_trip e t (m, a, v, l) =
      let (s, f, p) = readable_text e.timestamp t in
      rw
        (
          f,
          p,
          text_or_null_lem e.description,
          text_or_null_lem e.ip_address,
          int_or_null_lem e.prefix_len l,
        )
        (vrf_rest (record (received e) { mtu = none; access_vlan = none; voice_vlan = none }) e.vrf
            _
          ∙ mtu_rest (record (received e) { access_vlan = none; voice_vlan = none }) e.mtu _ m
          ∙ rw (uint_or_null_lem 16 e.access_vlan a, uint_or_null_lem 16 e.voice_vlan v) refl)
