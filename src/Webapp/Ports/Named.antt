-- ===== src/Webapp/Ports/Named.antt =====
-- From the VLAN messages that the consumer handles to the names in the answers of webapp/internal/portinfo.
use mathlib.Core.Option.{some-injective}
use cisco_netconf_mac_db.Common.{
  ◌≡◌, refl, sym, ap, ◌∙◌, Bool, true, false, Bool-cases, Option-cases, inl, inr, Option, none,
  some, ◌<|>◌, Text, Time, is_empty, lookup, after, not_before, Distinct, insert-Distinct,
  text_ℕ_has_eq, text_pair_has_eq, text_ℕ_beq_iff, arith,
}
use cisco_netconf_mac_db.Payload.{VlanEntry}
use cisco_netconf_mac_db.Consumer.Entries.{Error}
use cisco_netconf_mac_db.Consumer.Interface.{InterfaceRow, InterfaceTable}
use cisco_netconf_mac_db.Consumer.Vlan.{
  VlanRow, VlanTable, vlan_key, excluded, updated, upsert_vlan, handle_vlan,
}
use cisco_netconf_mac_db.Consumer.Vlan.Laws.{merged, lookup-upsert}
use cisco_netconf_mac_db.Consumer.Vlan.Messages.{handle_cases}
use cisco_netconf_mac_db.Webapp.Ports.Info.{PortResult, answer, result_of, port_handler}
use cisco_netconf_mac_db.Webapp.Ports.Laws.{vlan_name, name_in, joined}
use cisco_netconf_mac_db.Webapp.Ports.Answers.{port_handler_lem, shown}

upsert-Distinct :
    (e : VlanEntry) (vlans : VlanTable) → Distinct vlans → Distinct (upsert_vlan e vlans)
unfolding upsert_vlan
upsert-Distinct e vlans d = elim (Option-cases (lookup (vlan_key e) vlans)) [
  | inl h ↦ rw h (insert-Distinct (vlan_key e) (excluded e) vlans d)
  | inr (old, h) ↦ rw h (elim (Bool-cases (not_before e.timestamp old.collected_at)) [
    | inl t ↦ rw t (insert-Distinct (vlan_key e) (updated (excluded e) old) vlans d)
    | inr f ↦ rw f d
  ])
]

-- The stored row of the entry's key is not newer than the entry.
abbrev pub IsCurrentVlan : VlanEntry → VlanTable → Type 0
IsCurrentVlan e vlans =
    (old : VlanRow)
    → lookup (vlan_key e) vlans ≡ some old
    → after old.collected_at e.timestamp ≡ false

merged-name :
    (e : VlanEntry) (o : Option VlanRow)
    → ((old : VlanRow) → o ≡ some old → after old.collected_at e.timestamp ≡ false)
    → (merged e o).name ≡ e.name <|> name_in o
merged-name e none current = ground arith
merged-name e (some old) current =
    let late = current old refl in
    let t : not_before e.timestamp old.collected_at ≡ true = ground arith in rw t refl

module _ (unmarshal : Text → Option VlanEntry) (accepts : VlanEntry → VlanTable → Bool)
    (format : Time → Text) where
  stored_name :
      (b : Text) (e : VlanEntry) (vlans : VlanTable)
      → unmarshal b ≡ some e
      → (handle_vlan unmarshal accepts b vlans).0 ≡ none
      → (handle_vlan unmarshal accepts b vlans).1 ≡ upsert_vlan e vlans
  stored_name b e vlans d ok = elim (handle_cases unmarshal accepts b vlans) [
    | inl (x, r) ↦ absurd (grind (arith, ok, r))
    | inr (e', d', r) ↦
        ap (λ (p : Option Error × VlanTable). p.1) r
        ∙ ap (λ x. upsert_vlan x vlans) (some-injective _ _ (sym d' ∙ d))
  ]

  -- After a message about a VLAN was handled without error, with no newer row stored, each port of its switch with
  -- that access VLAN is answered with the name of the message, or the stored one where it has none.
  pub stored_vlan_is_named :
      (b port : Text) (e : VlanEntry) (vlans : VlanTable) (ports : InterfaceTable)
      (r : InterfaceRow)
      → unmarshal b ≡ some e
      → (handle_vlan unmarshal accepts b vlans).0 ≡ none
      → IsCurrentVlan e vlans
      → Distinct vlans
      → Distinct ports
      → is_empty e.node_id ≡ false
      → is_empty port ≡ false
      → lookup (e.node_id, port) ports ≡ some r
      → r.access_vlan ≡ e.vlan_id
      → (res : PortResult) × (port_handler format true e.node_id port
            (some ((handle_vlan unmarshal accepts b vlans).1, ports))
          ≡ answer res)
        × (res.access_vlan_name ≡ e.name <|> vlan_name vlans e.node_id (some e.vlan_id))
  stored_vlan_is_named b port e vlans ports r d ok current dv dp n m h at_vlan =
      let t = upsert_vlan e vlans in
      let stored : lookup (vlan_key e) t ≡ some (merged e (lookup (vlan_key e) vlans)) =
        lookup-upsert e vlans (vlan_key e)
        ∙ rw ((text_ℕ_beq_iff (vlan_key e) (vlan_key e)).1 refl) refl in
      (
        result_of format (joined t ((e.node_id, port), r)),
        ap (λ x. port_handler format true e.node_id port (some (x, ports)))
              (stored_name b e vlans d ok)
            ∙ port_handler_lem format t ports e.node_id port (upsert-Distinct e vlans dv) dp n m
            ∙ ap (shown format t (e.node_id, port)) h,
        ap (λ v. vlan_name t e.node_id (some v)) at_vlan
            ∙ ap name_in stored
            ∙ merged-name e (lookup (vlan_key e) vlans) current,
      )
