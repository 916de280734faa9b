-- ===== src/Webapp/Ports/Stored.antt =====
-- From the messages that the consumer handles to the answers of webapp/internal/portinfo.
use mathlib.Core.Option.{some-injective}
use cisco_netconf_mac_db.Common.{
  ◌≡◌, refl, sym, ap, ◌∙◌, Bool, true, false, inl, inr, Option, none, some, ◌<|>◌, Text, Time,
  is_empty, lookup, after, not_before, Distinct, text_ℕ_has_eq, text_pair_has_eq, text_pair_beq_iff,
  arith,
}
use cisco_netconf_mac_db.Consumer.Entries.{IfEntry, Error}
use cisco_netconf_mac_db.Consumer.Interface.{
  InterfaceRow, InterfaceTable, interface_key, coalesce, upsert_interface, handle_interface,
}
use cisco_netconf_mac_db.Consumer.Interface.Laws.{merged, lookup-upsert, column, old_access_vlan}
use cisco_netconf_mac_db.Consumer.Interface.Messages.{handle_cases}
use cisco_netconf_mac_db.Consumer.Vlan.{VlanTable}
use cisco_netconf_mac_db.Webapp.Ports.Info.{PortResult, answer, result_of, port_handler}
use cisco_netconf_mac_db.Webapp.Ports.Laws.{vlan_name, joined}
use cisco_netconf_mac_db.Webapp.Ports.Answers.{upsert-Distinct, port_handler_lem, shown}

-- The stored row of the entry's key is not newer than the entry.
abbrev pub IsCurrent : IfEntry → InterfaceTable → Type 0
IsCurrent e ports =
    (old : InterfaceRow)
    → lookup (interface_key e) ports ≡ some old
    → after old.collected_at e.timestamp ≡ false

-- What a port shows after an entry has come in over an old row.
abbrev pub IsShown : (Time → Text) → VlanTable → IfEntry → Option InterfaceRow → PortResult → Type 0
IsShown format vlans e o res =
    (res.description ≡ e.description <|> column (λ r. r.description) o)
    × (e.shutdown ≡ some res.shutdown)
    × (res.access_vlan ≡ coalesce e.access_vlan (old_access_vlan o))
    × (res.access_vlan_name ≡ vlan_name vlans e.node_id (some res.access_vlan))
    × (res.collected_at ≡ format e.timestamp)

merged-IsShown :
    (format : Time → Text) (vlans : VlanTable) (e : IfEntry) (shutdown : Bool)
    (o : Option InterfaceRow)
    → e.shutdown ≡ some shutdown
    → ((old : InterfaceRow) → o ≡ some old → after old.collected_at e.timestamp ≡ false)
    → IsShown format vlans e o
        (result_of format (joined vlans (interface_key e, merged e shutdown o)))
merged-IsShown format vlans e shutdown none s current = (ground arith, s, refl, refl, refl)
merged-IsShown format vlans e shutdown (some old) s current =
    let late = current old refl in
    let t : not_before e.timestamp old.collected_at ≡ true = ground arith in
    rw t (refl, s, refl, refl, refl)

module _ (unmarshal : Text → Option IfEntry) (accepts : IfEntry → InterfaceTable → Bool)
    (format : Time → Text) where
  -- After a message about an interface was handled without error, with no newer row stored, the port is answered with
  -- its description and its access VLAN, or the stored ones where it has none, with its shutdown flag and its time, and
  -- with the stored name of that VLAN.
  pub stored_port-IsShown :
      (b : Text) (e : IfEntry) (vlans : VlanTable) (ports : InterfaceTable)
      → unmarshal b ≡ some e
      → (handle_interface unmarshal accepts b ports).0 ≡ none
      → IsCurrent e ports
      → Distinct vlans
      → Distinct ports
      → is_empty e.node_id ≡ false
      → is_empty e.name ≡ false
      → (res : PortResult) × (port_handler format true e.node_id e.name
            (some (vlans, (handle_interface unmarshal accepts b ports).1))
          ≡ answer res)
        × IsShown format vlans e (lookup (interface_key e) ports) res
  stored_port-IsShown b e vlans ports d ok current dv dp n m =
      elim (handle_cases unmarshal accepts b ports) [
        | inl (x, r) ↦ absurd (grind (arith, ok, r))
        | inr (e', d', (shutdown, s, r)) ↦
            let same : e' ≡ e = some-injective _ _ (sym d' ∙ d) in
            let s' : e.shutdown ≡ some shutdown = ap (λ (x : IfEntry). x.shutdown) (sym same) ∙ s in
            let stored_ports : (handle_interface unmarshal accepts b ports).1
                ≡ upsert_interface e shutdown ports =
              ap (λ (p : Option Error × InterfaceTable). p.1) r
              ∙ ap (λ x. upsert_interface x shutdown ports) same in
            let row = merged e shutdown (lookup (interface_key e) ports) in
            let stored : lookup (interface_key e) (upsert_interface e shutdown ports) ≡ some row =
              lookup-upsert e shutdown ports (interface_key e)
              ∙ rw ((text_pair_beq_iff (interface_key e) (interface_key e)).1 refl) refl in
            (
              result_of format (joined vlans (interface_key e, row)),
              ap (λ t. port_handler format true e.node_id e.name (some (vlans, t))) stored_ports
                  ∙ port_handler_lem format vlans (upsert_interface e shutdown ports) e.node_id
                      e.name dv (upsert-Distinct e shutdown ports dp) n m
                  ∙ ap (shown format vlans (interface_key e)) stored,
              merged-IsShown format vlans e shutdown (lookup (interface_key e) ports) s' current,
            )
      ]
