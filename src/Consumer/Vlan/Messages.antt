-- ===== src/Consumer/Vlan/Messages.antt =====
-- VLAN messages one after another: late, repeated, failing.
use mathlib.Core.Option.{some-injective}
use cisco_netconf_mac_db.Common.{
  ℕ, ◌≡◌, refl, sym, ap, ◌∙◌, Bool, true, Bool-cases, ◌⊎◌, inl, inr, Option, none, some, Text, ◌≤ℤ◌,
  after, lookup, text_ℕ_has_eq, arith,
}
use cisco_netconf_mac_db.Payload.{VlanEntry}
use cisco_netconf_mac_db.Consumer.Entries.{Error, bad_json, db_error}
use cisco_netconf_mac_db.Consumer.Vlan.{
  VlanRow, VlanTable, vlan_key, upsert_vlan, handle_decoded, handle_vlan,
}
use cisco_netconf_mac_db.Consumer.Vlan.Laws.{
  IsLate, upsert_late, upsert_twice, upsert_grows, upsert_fresh,
}

module _ (unmarshal : Text → Option VlanEntry) (accepts : VlanEntry → VlanTable → Bool) where
  abbrev pub table_after : Text → VlanTable → VlanTable
  table_after b table = (handle_vlan unmarshal accepts b table).1

  abbrev IsUpserted : VlanEntry → VlanTable → Option Error × VlanTable → Type 0
  IsUpserted e table r = r ≡ (none, upsert_vlan e table)

  abbrev IsRefused : VlanTable → Option Error × VlanTable → Type 0
  IsRefused table r = (x : Error) × (r ≡ (some x, table))

  decoded_cases :
      (o : Option VlanEntry) (table : VlanTable)
      → IsRefused table (handle_decoded unmarshal accepts o table)
        ⊎ ((e : VlanEntry) × (o ≡ some e)
            × IsUpserted e table (handle_decoded unmarshal accepts o table))
  decoded_cases none table = inl (bad_json, refl)
  decoded_cases (some e) table = elim (Bool-cases (accepts e table)) [
    | inl t ↦ inr (e, refl, rw t)
    | inr f ↦ inl (db_error, rw f)
  ]

  -- The handler either returns an error and changes nothing, or is the upsert of the decoded entry.
  pub handle_cases :
      (b : Text) (table : VlanTable)
      → IsRefused table (handle_vlan unmarshal accepts b table)
        ⊎ ((e : VlanEntry) × (unmarshal b ≡ some e)
            × IsUpserted e table (handle_vlan unmarshal accepts b table))
  unfolding handle_vlan
  handle_cases b table = decoded_cases (unmarshal b) table

  abbrev snd : Option Error × VlanTable → VlanTable
  snd r = r.1

  -- A message handled again, as after a redelivery, changes nothing more, whether its statement
  -- succeeds or fails the first or the second time.
  pub handle_vlan_repeat :
      (b : Text) (table : VlanTable) → table_after b (table_after b table) ≡ table_after b table
  handle_vlan_repeat b table = elim (handle_cases b table) [
    | inl (x, r) ↦ ap (table_after b) (ap snd r)
    | inr (e, d, r) ↦ elim (handle_cases b (table_after b table)) [
      | inl (x, r') ↦ ap snd r'
      | inr (e', d', r') ↦
          let same : e' ≡ e = some-injective _ _ (sym d' ∙ d) in
          ap snd r' ∙ cc (same, ap snd r, upsert_twice e table)
    ]
  ]

  -- A message that is older than the stored row of its VLAN changes nothing.
  pub handle_vlan_late :
      (b : Text) (e : VlanEntry) (table : VlanTable)
      → unmarshal b ≡ some e
      → IsLate e table
      → table_after b table ≡ table
  handle_vlan_late b e table d late = elim (handle_cases b table) [
    | inl (x, r) ↦ ap snd r
    | inr (e', d', r) ↦
        let same : e' ≡ e = some-injective _ _ (sym d' ∙ d) in
        ap snd r ∙ ap (λ x. upsert_vlan x table) same ∙ upsert_late e table late
  ]

  -- After a message that was handled without error, an older one for the same VLAN changes
  -- nothing: a snapshot that arrives late does not bring back what the newer one cleared.
  pub handle_vlan_ordered :
      (b b' : Text) (e e' : VlanEntry) (table : VlanTable)
      → unmarshal b ≡ some e
      → (handle_vlan unmarshal accepts b table).0 ≡ none
      → unmarshal b' ≡ some e'
      → vlan_key e' ≡ vlan_key e
      → after e.timestamp e'.timestamp ≡ true
      → table_after b' (table_after b table) ≡ table_after b table
  handle_vlan_ordered b b' e e' table d ok d' key older = elim (handle_cases b table) [
    | inl (x, r) ↦ cc (ap (λ (p : Option Error × VlanTable). p.0) r, ok)
    | inr (x, dx, r) ↦
        let same : x ≡ e = some-injective _ _ (sym dx ∙ d) in
        let (row, stored, fresh) = upsert_fresh e table in
        handle_vlan_late b' e' (table_after b table) d'
          (row, cc (key, same, ap snd r, stored), ground arith)
  ]

  -- Whatever a message is and whatever becomes of it, a stored row stays, and its time does not go
  -- back.
  pub handle_vlan_grows :
      (b : Text) (table : VlanTable) (j : Text × ℕ) (old : VlanRow)
      → lookup j table ≡ some old
      → (new : VlanRow) × (lookup j (table_after b table) ≡ some new)
        × (old.collected_at ≤ℤ new.collected_at)
  handle_vlan_grows b table j old h = elim (handle_cases b table) [
    | inl (x, r) ↦ (old, ap (lookup j) (ap snd r) ∙ h, omega arith)
    | inr (e, d, r) ↦
        let (new, stored, le) = upsert_grows e table j old h in
        (new, ap (lookup j) (ap snd r) ∙ stored, le)
  ]
