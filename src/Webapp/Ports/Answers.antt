-- ===== src/Webapp/Ports/Answers.antt =====
-- The answers of webapp/internal/portinfo and portlookup about what the consumer stored.
use cisco_netconf_mac_db.Common.{
  ◌≡◌, refl, Bool, true, false, Bool-cases, Option-cases, inl, inr, ◌&&◌, Option, none, some, Text,
  Time, is_empty, text_eq, lookup, not_before, Distinct, insert-Distinct, map, take, text_ℕ_has_eq,
  text_pair_has_eq,
}
use cisco_netconf_mac_db.Consumer.Entries.{IfEntry}
use cisco_netconf_mac_db.Consumer.Interface.{
  InterfaceRow, InterfaceTable, interface_key, excluded, updated, upsert_interface,
}
use cisco_netconf_mac_db.Consumer.Vlan.{VlanTable}
use cisco_netconf_mac_db.Webapp.Ports.Info.{
  Response, not_found, answer, result_of, scan_row, port_sql, port_handler,
}
use cisco_netconf_mac_db.Webapp.Ports.Laws.{joined, join_where_lem, keep-key, port_at}

pub upsert-Distinct :
    (e : IfEntry) (shutdown : Bool) (ports : InterfaceTable)
    → Distinct ports
    → Distinct (upsert_interface e shutdown ports)
unfolding upsert_interface
upsert-Distinct e shutdown ports d = elim (Option-cases (lookup (interface_key e) ports)) [
  | inl h ↦ rw h (insert-Distinct (interface_key e) (excluded e shutdown) ports d)
  | inr (old, h) ↦ rw h (elim (Bool-cases (not_before e.timestamp old.collected_at)) [
    | inl t ↦ rw t (insert-Distinct (interface_key e) (updated e (excluded e shutdown) old) ports d)
    | inr f ↦ rw f d
  ])
]

module _ (format : Time → Text) where
  -- What a port lookup answers with about a stored row.
  abbrev pub shown : VlanTable → Text × Text → Option InterfaceRow → Response
  shown vlans k none = not_found
  shown vlans k (some r) = answer (result_of format (joined vlans (k, r)))

  scan-port_at :
      (vlans : VlanTable) (k : Text × Text) (o : Option InterfaceRow)
      → scan_row format (take 1 (map (joined vlans) (port_at k o))) ≡ shown vlans k o
  scan-port_at vlans k none = refl
  scan-port_at vlans k (some r) = refl

  -- The two joins and the LIMIT of the query come to two lookups by key.
  pub port_handler_lem :
      (vlans : VlanTable) (ports : InterfaceTable) (node port : Text)
      → Distinct vlans
      → Distinct ports
      → is_empty node ≡ false
      → is_empty port ≡ false
      → port_handler format true node port (some (vlans, ports))
        ≡ shown vlans (node, port) (lookup (node, port) ports)
  unfolding port_handler port_sql
  port_handler_lem vlans ports node port dv dp n p =
      rw (n, p)
        (rw (join_where_lem (λ k r. text_eq k.0 node && text_eq k.1 port) vlans ports dv) (
          rw (keep-key node port ports dp)
            (scan-port_at vlans (node, port) (lookup (node, port) ports))))
