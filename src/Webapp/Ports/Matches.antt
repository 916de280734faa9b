-- ===== src/Webapp/Ports/Matches.antt =====
-- Which ports webapp/internal/portlookup answers with, and in which order; and webapp/internal/vlans likewise.
use mathlib.Core.List.{Permᴰ}
use mathlib.Core.Path.{subst}
use cisco_netconf_mac_db.Common.{
  ◌≡◌, refl, Bool, true, false, some, List, ◌∷◌, Text, is_empty, text_eq_iff, Distinct, map, keep,
  sort, sort-Permᴰ, sort-IsSorted, IsSorted, text_ℕ_has_eq, arith,
}
use cisco_netconf_mac_db.Consumer.Interface.{InterfaceTable}
use cisco_netconf_mac_db.Consumer.Vlan.{VlanTable}
use cisco_netconf_mac_db.Webapp.DbView.Select.{pattern_of}
use cisco_netconf_mac_db.Webapp.Ports.Join.{Joined, join_where}
use cisco_netconf_mac_db.Webapp.Ports.Match.{
  answer, match_of, is_wanted, port_before, lookup_sql, lookup_handler,
}
use cisco_netconf_mac_db.Webapp.Ports.Laws.{joined, join_where_lem}

module _ (ilike less : Text → Text → Bool)
    (less_asymm : (a b : Text) → less a b ≡ true → less b a ≡ false)
    (less_trans : (a b c : Text) → less a b ≡ true → less b c ≡ true → less a c ≡ true)
    (less_total : (a b : Text) → less a b ≡ false → less b a ≡ false → a ≡ b) where
  before_asymm : (i j : Joined) → port_before less i j ≡ true → port_before less j i ≡ false
  before_asymm i j h = ground (
    arith,
    less_asymm i.node_id j.node_id,
    less_asymm i.name j.name,
    less_asymm i.node_id i.node_id,
    text_eq_iff i.node_id j.node_id,
    text_eq_iff j.node_id i.node_id,
  )

  not_less_trans : (a b c : Text) → less b a ≡ false → less c b ≡ false → less c a ≡ false
  not_less_trans a b c h g = ground (arith, less_total b c, less_trans b c a)

  before_trans :
      (i j k : Joined)
      → port_before less j i ≡ false
      → port_before less k j ≡ false
      → port_before less k i ≡ false
  before_trans i j k h g = ground (
    arith,
    not_less_trans i.node_id j.node_id k.node_id,
    not_less_trans i.name j.name k.name,
    less_total i.node_id j.node_id,
    less_total j.node_id k.node_id,
    less_total i.node_id k.node_id,
    text_eq_iff j.node_id i.node_id,
    text_eq_iff k.node_id j.node_id,
    text_eq_iff k.node_id i.node_id,
  )

  -- The ports that match the switch and one of the descriptions of a request are its answer, each of them once, with the
  -- stored names of its VLANs, in the order of switches and names. The collation is taken to be a strict total order.
  pub lookup_handler_lem :
      (switch d : Text) (ds : List Text) (vlans : VlanTable) (ports : InterfaceTable)
      → is_empty switch ≡ false
      → Distinct vlans
      → let patterns = map pattern_of (d ∷ ds) in
        (results : List Joined) × (lookup_handler ilike less true
            (some (record { switch = switch; descriptions = d ∷ ds }))
            (some (vlans, ports))
          ≡ answer (map match_of results))
        × Permᴰ results (
            map (joined vlans) (
              keep (λ port. is_wanted ilike less (pattern_of switch) patterns port.0 port.1) ports))
        × IsSorted (port_before less) results
  unfolding lookup_handler lookup_sql
  lookup_handler_lem switch d ds vlans ports s dv =
      let patterns = map pattern_of (d ∷ ds) in
      let wanted = is_wanted ilike less (pattern_of switch) patterns in
      let before = port_before less in
      (
        sort before (join_where wanted vlans ports),
        rw s refl,
        subst (λ rows. Permᴰ (sort before (join_where wanted vlans ports)) rows)
            (join_where_lem wanted vlans ports dv)
            (sort-Permᴰ before (join_where wanted vlans ports)),
        sort-IsSorted before before_asymm before_trans (join_where wanted vlans ports),
      )
