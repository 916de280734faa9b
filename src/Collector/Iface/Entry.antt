-- ===== src/Collector/Iface/Entry.antt =====
-- The entry of one interface against a description by the last, or first, field that says something.
use mathlib.Core.Option
use cisco_netconf_mac_db.Common.{
  ℕ, ◌≡◌, refl, Option, none, some, List, [], ◌∷◌, Text, codes, int64, ◌<|>◌, arith, if◌then◌else◌,
}
use cisco_netconf_mac_db.Proto.{Field, name, children, get_string_value, Telemetry}
use cisco_netconf_mac_db.Collector.Entries.{IfEntry}
use cisco_netconf_mac_db.Collector.Nested.{find_nested_field}
use cisco_netconf_mac_db.Collector.Mask.{mask_to_prefix_len}
use cisco_netconf_mac_db.Collector.Walk.{is_iface_node}
use cisco_netconf_mac_db.Collector.Fallback.{
  last_some, first_some, fall_back, foldl-member, foldl-last_some, value_or, foldl-overwritten,
  foldl-kept,
}
use cisco_netconf_mac_db.Collector.Iface.{
  IfaceLeaf, named, description, mtu, vrf, ip, switchport_config, switchport, iface_leaf,
  iface_name, vlan_value, set_iface, apply_iface, new_iface, iface_entry,
}

-- What a field that is no interface node itself says under the leaf `k`.
abbrev says_at {ℓ} : {A : Type ℓ} → IfaceLeaf → IfaceLeaf → Option A → Option A
says_at named named o = o
says_at description description o = o
says_at vrf vrf o = o
says_at mtu mtu o = o
says_at ip ip o = o
says_at switchport_config switchport_config o = o
says_at switchport switchport o = o
says_at _ _ o = none

abbrev pub says {ℓ} : {A : Type ℓ} → IfaceLeaf → (Field → Option A) → Field → Option A
says k get f = if is_iface_node f then none else says_at k (iface_leaf (name f)) (get f)

-- What `get` reads off the field that a path leads to from a container.
abbrev pub at_path {ℓ} : {A : Type ℓ} → (Field → A) → List Text → Field → Option A
at_path get path f = Option.map get (find_nested_field (children f) path)

abbrev pub says_name : Text → Field → Option Text
says_name if_type = says named (λ f. some (iface_name if_type f))

abbrev pub says_description : Field → Option Text
says_description = says description (λ f. some (get_string_value f))

abbrev pub says_address : Field → Option Text
says_address =
    says ip (at_path get_string_value (codes "address" ∷ codes "primary" ∷ codes "address" ∷ []))

abbrev pub says_prefix_len : (Text → Option (List ℕ)) → Field → Option ℕ
says_prefix_len parse_ip4 = says ip (
    at_path (λ f. mask_to_prefix_len parse_ip4 (get_string_value f))
      (codes "address" ∷ codes "primary" ∷ codes "mask" ∷ []))

abbrev pub says_access : Field → Option ℕ
says_access =
    says switchport_config
      (at_path vlan_value (codes "switchport" ∷ codes "access" ∷ codes "vlan" ∷ codes "vlan" ∷ []))

abbrev pub says_bare_access : Field → Option ℕ
says_bare_access =
    says switchport (at_path vlan_value (codes "access" ∷ codes "vlan" ∷ codes "vlan" ∷ []))

abbrev pub says_voice : Field → Option ℕ
says_voice =
    says switchport_config
      (at_path vlan_value (codes "switchport" ∷ codes "voice" ∷ codes "vlan" ∷ codes "vlan" ∷ []))

abbrev pub says_bare_voice : Field → Option ℕ
says_bare_voice =
    says switchport (at_path vlan_value (codes "voice" ∷ codes "vlan" ∷ codes "vlan" ∷ []))

module _ (parse_ip4 : Text → Option (List ℕ)) (if_type : Text) (e : IfEntry) (f : Field) where
  abbrev next : IfEntry
  next = apply_iface parse_ip4 if_type e f

  access-apply_iface : next.access_vlan ≡ fall_back says_access says_bare_access e.access_vlan f
  unfolding apply_iface set_iface
  access-apply_iface = ground arith

  voice-apply_iface : next.voice_vlan ≡ fall_back says_voice says_bare_voice e.voice_vlan f
  unfolding apply_iface set_iface
  voice-apply_iface = ground arith

  name-apply_iface : next.name ≡ value_or e.name (says_name if_type f)
  unfolding apply_iface set_iface
  name-apply_iface = ground arith

  description-apply_iface : next.description ≡ says_description f <|> e.description
  unfolding apply_iface set_iface
  description-apply_iface = ground arith

  address-apply_iface : next.ip_address ≡ says_address f <|> e.ip_address
  unfolding apply_iface set_iface
  address-apply_iface = ground arith

  prefix_len-apply_iface : next.prefix_len ≡ says_prefix_len parse_ip4 f <|> e.prefix_len
  unfolding apply_iface set_iface
  prefix_len-apply_iface = ground arith

  origin-apply_iface : (next.node_id ≡ e.node_id) × (next.timestamp ≡ e.timestamp)
  unfolding apply_iface set_iface
  origin-apply_iface = ground arith

module _ (parse_ip4 : Text → Option (List ℕ)) (t : Telemetry) (iface : Field) where
  abbrev entry : IfEntry
  entry = iface_entry parse_ip4 t iface

  abbrev step : IfEntry → Field → IfEntry
  step = apply_iface parse_ip4 (name iface)

  abbrev start : IfEntry
  start = new_iface parse_ip4 t

  -- The access VLAN of an interface is the last one under its `switchport-config` fields, and only
  -- where they have none the first one under its bare `switchport` fields; the voice VLAN likewise.
  -- Fields that are interface nodes themselves say nothing.
  pub iface_entry_vlans :
      (entry.access_vlan
        ≡ last_some says_access (children iface) <|> first_some says_bare_access (children iface))
      × (entry.voice_vlan
          ≡ last_some says_voice (children iface) <|> first_some says_bare_voice (children iface))
  unfolding iface_entry new_iface
  iface_entry_vlans = (
    foldl-member step (λ e. e.access_vlan) says_access says_bare_access
        (access-apply_iface parse_ip4 (name iface)) start (children iface),
    foldl-member step (λ e. e.voice_vlan) says_voice says_bare_voice
        (voice-apply_iface parse_ip4 (name iface)) start (children iface),
  )

  -- Description, address and prefix length of an interface are those of the last field that has
  -- them, present even where empty, and absent exactly where no field has them; the name is made of
  -- the interface's type and its last `name` field; node and time are those of the message.
  pub iface_entry_config :
      (entry.description ≡ last_some says_description (children iface))
      × (entry.ip_address ≡ last_some says_address (children iface))
      × (entry.prefix_len ≡ last_some (says_prefix_len parse_ip4) (children iface))
      × (entry.name ≡ value_or [] (last_some (says_name (name iface)) (children iface)))
      × (entry.node_id ≡ t.node_id_str)
      × (entry.timestamp ≡ int64 t.msg_timestamp)
  unfolding iface_entry new_iface
  iface_entry_config = (
    foldl-last_some step (λ e. e.description) says_description
        (description-apply_iface parse_ip4 (name iface)) start (children iface) refl,
    foldl-last_some step (λ e. e.ip_address) says_address
        (address-apply_iface parse_ip4 (name iface)) start (children iface) refl,
    foldl-last_some step (λ e. e.prefix_len) (says_prefix_len parse_ip4)
        (prefix_len-apply_iface parse_ip4 (name iface)) start (children iface) refl,
    foldl-overwritten step (λ e. e.name) (says_name (name iface))
        (name-apply_iface parse_ip4 (name iface)) start (children iface),
    foldl-kept step (λ e. e.node_id) (λ e c. (origin-apply_iface parse_ip4 (name iface) e c).0)
        start (children iface),
    foldl-kept step (λ e. e.timestamp) (λ e c. (origin-apply_iface parse_ip4 (name iface) e c).1)
        start (children iface),
  )
