-- ===== src/Wire/Arrives.antt =====
-- An interface entry from the collector's encoder to the row of interface_table.
use mathlib.Core.Option
use cisco_netconf_mac_db.Common.{
  ◌≡◌, refl, sym, ap, ◌∙◌, pos, Bool, true, false, Option, none, some, ◌<|>◌, Text, Time, lookup,
  after, not_before, text_pair_has_eq, text_pair_beq_iff, arith,
}
use cisco_netconf_mac_db.Collector.Entries as Sent
use cisco_netconf_mac_db.Consumer.Entries as Received
use cisco_netconf_mac_db.Consumer.Interface.{
  InterfaceRow, InterfaceTable, coalesce, upsert_interface, handle_decoded, handle_interface,
}
use cisco_netconf_mac_db.Consumer.Interface.Laws.{merged, lookup-upsert, column, old_access_vlan}
use cisco_netconf_mac_db.Wire.Json.{Object}
use cisco_netconf_mac_db.Wire.Encode.{encode_iface}
use cisco_netconf_mac_db.Wire.Decode.{decode_iface}
use cisco_netconf_mac_db.Wire.Laws.{
  IsReadable, IsInRange, non_empty, non_zero, received, iface_round_trip, bind_some,
}

-- The row that an entry leaves over a stored one.
abbrev pub IsWritten : Sent.IfEntry → Option InterfaceRow → InterfaceRow → Type 0
IsWritten e o row =
    (row.description ≡ e.description <|> column (λ r. r.description) o)
    × (row.shutdown ≡ e.shutdown)
    × (row.ip_address ≡ e.ip_address <|> column (λ r. r.ip_address) o)
    × (row.prefix_len ≡ Option.map pos e.prefix_len <|> column (λ r. r.prefix_len) o)
    × (row.vrf ≡ non_empty e.vrf <|> column (λ r. r.vrf) o)
    × (row.mtu ≡ non_zero e.mtu <|> column (λ r. r.mtu) o)
    × (row.access_vlan ≡ coalesce e.access_vlan (old_access_vlan o))
    × (row.voice_vlan ≡ e.voice_vlan <|> column (λ r. r.voice_vlan) o)
    × (row.collected_at ≡ e.timestamp)

or_none : {A : Type 0} (o : Option A) → o ≡ o <|> none
or_none o = ground arith

merged-IsWritten :
    (e : Sent.IfEntry) (o : Option InterfaceRow)
    → ((old : InterfaceRow) → o ≡ some old → after old.collected_at e.timestamp ≡ false)
    → IsWritten e o (merged (received e) e.shutdown o)
merged-IsWritten e none current =
    (or_none _, refl, or_none _, or_none _, or_none _, or_none _, refl, or_none _, refl)
merged-IsWritten e (some old) current =
    let late = current old refl in
    let t : not_before e.timestamp old.collected_at ≡ true = ground arith in
    rw t (refl, refl, refl, refl, refl, refl, refl, refl, refl)

module _ (format : Time → Option Text) (parse_time : Text → Option Time) (print : Object → Text)
    (parse : Text → Option Object) (accepts : Received.IfEntry → InterfaceTable → Bool) where
  -- `json.Marshal` of the collector's entry, and `json.Unmarshal` into the consumer's.
  abbrev pub marshal : Sent.IfEntry → Option Text
  marshal e = Option.map print (encode_iface format e)

  abbrev pub unmarshal : Text → Option Received.IfEntry
  unmarshal b = Option.bind (parse b) (decode_iface parse_time)

  unmarshal-marshal :
      (e : Sent.IfEntry) (b : Text)
      → IsReadable format parse_time e.timestamp
      → IsInRange e
      → ((o : Object) → encode_iface format e ≡ some o → parse (print o) ≡ some o)
      → marshal e ≡ some b
      → unmarshal b ≡ some (received e)
  unfolding Option.bind
  unmarshal-marshal e b t r reads m =
      let (o, f, d) =
        bind_some (encode_iface format e) (decode_iface parse_time) (received e)
          (iface_round_trip format parse_time e t r) in
      let same : print o ≡ b = Option.some-injective _ _ (sym (ap (Option.map print) f) ∙ m) in
      ap (λ x. Option.bind (parse x) (decode_iface parse_time)) (sym same)
      ∙ ap (λ x. Option.bind x (decode_iface parse_time)) (reads o f)
      ∙ d

  -- What the collector sends about an interface is what the consumer stores, for each column: the entry's value, or
  -- the stored one where the entry has none. An empty VRF and an MTU of zero count as none, so they leave the stored
  -- ones, while an empty description or address and a VLAN of zero overwrite them. It needs that the time's text and
  -- the object's text are read back, that the statement is accepted, and that no newer row is stored.
  pub sent_iface_arrives :
      (e : Sent.IfEntry) (b : Text) (ports : InterfaceTable)
      → IsReadable format parse_time e.timestamp
      → IsInRange e
      → ((o : Object) → encode_iface format e ≡ some o → parse (print o) ≡ some o)
      → marshal e ≡ some b
      → accepts (received e) ports ≡ true
      → ((old : InterfaceRow)
          → lookup (e.node_id, e.name) ports ≡ some old
          → after old.collected_at e.timestamp ≡ false)
      → let (err, stored) = handle_interface unmarshal accepts b ports in
        (err ≡ none)
        × (row : InterfaceRow) × (lookup (e.node_id, e.name) stored ≡ some row)
        × IsWritten e (lookup (e.node_id, e.name) ports) row
  unfolding handle_interface
  sent_iface_arrives e b ports t r reads m ok current =
      let d = unmarshal-marshal e b t r reads m in
      let done : handle_decoded unmarshal accepts (unmarshal b) ports
          ≡ (none, upsert_interface (received e) e.shutdown ports) =
        ap (λ x. handle_decoded unmarshal accepts x ports) d ∙ rw ok refl in
      (
        ap (λ p. p.0) done,
        merged (received e) e.shutdown (lookup (e.node_id, e.name) ports),
        ap (λ p. lookup (e.node_id, e.name) p.1) done
            ∙ lookup-upsert (received e) e.shutdown ports (e.node_id, e.name)
            ∙ rw ((text_pair_beq_iff (e.node_id, e.name) (e.node_id, e.name)).1 refl) refl,
        merged-IsWritten e (lookup (e.node_id, e.name) ports) current,
      )
