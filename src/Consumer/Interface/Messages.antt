-- ===== src/Consumer/Interface/Messages.antt =====
-- Interface messages one after another: late, repeated, failing.
use mathlib.Core.Option.{some-injective}
use cisco_netconf_mac_db.Common.{
  ◌≡◌, refl, sym, ap, ◌∙◌, Bool, true, ◌||◌, Bool-cases, ◌⊎◌, inl, inr, Option, none, some, Text,
  ◌≤ℤ◌, after, lookup, text_pair_has_eq, arith,
}
use cisco_netconf_mac_db.Consumer.Entries.{IfEntry, Error, bad_json, db_error}
use cisco_netconf_mac_db.Consumer.Interface.{
  InterfaceRow, InterfaceTable, interface_key, upsert_interface, exec, handle_decoded,
  handle_interface,
}
use cisco_netconf_mac_db.Consumer.Interface.Laws.{
  IsLate, upsert_late, upsert_twice, upsert_grows, upsert_fresh,
}

module _ (unmarshal : Text → Option IfEntry) (accepts : IfEntry → InterfaceTable → Bool) where
  abbrev pub table_after : Text → InterfaceTable → InterfaceTable
  table_after b table = (handle_interface unmarshal accepts b table).1

  abbrev IsUpserted : IfEntry → InterfaceTable → Option Error × InterfaceTable → Type 0
  IsUpserted e table r =
      (shutdown : Bool) × (e.shutdown ≡ some shutdown)
      × (r ≡ (none, upsert_interface e shutdown table))

  abbrev IsRefused : InterfaceTable → Option Error × InterfaceTable → Type 0
  IsRefused table r = (x : Error) × (r ≡ (some x, table))

  exec_cases :
      (e : IfEntry) (o : Option Bool) (table : InterfaceTable)
      → e.shutdown ≡ o
      → IsRefused table (exec unmarshal accepts e o table)
        ⊎ IsUpserted e table (exec unmarshal accepts e o table)
  exec_cases e none table h = inl (db_error, refl)
  exec_cases e (some shutdown) table h = elim (Bool-cases (accepts e table)) [
    | inl t ↦ inr (shutdown, h, rw t)
    | inr f ↦ inl (db_error, rw f)
  ]

  decoded_cases :
      (o : Option IfEntry) (table : InterfaceTable)
      → IsRefused table (handle_decoded unmarshal accepts o table)
        ⊎ ((e : IfEntry) × (o ≡ some e)
            × IsUpserted e table (handle_decoded unmarshal accepts o table))
  decoded_cases none table = inl (bad_json, refl)
  decoded_cases (some e) table = elim (exec_cases e e.shutdown table refl) [
    | inl r ↦ inl r
    | inr u ↦ inr (e, refl, u)
  ]

  -- The handler either returns an error and changes nothing, or is the upsert of the decoded entry.
  pub handle_cases :
      (b : Text) (table : InterfaceTable)
      → IsRefused table (handle_interface unmarshal accepts b table)
        ⊎ ((e : IfEntry) × (unmarshal b ≡ some e)
            × IsUpserted e table (handle_interface unmarshal accepts b table))
  unfolding handle_interface
  handle_cases b table = decoded_cases (unmarshal b) table

  abbrev snd : Option Error × InterfaceTable → InterfaceTable
  snd r = r.1

  -- A message that is older than the stored row of its interface changes nothing.
  pub handle_interface_late :
      (b : Text) (e : IfEntry) (table : InterfaceTable)
      → unmarshal b ≡ some e
      → IsLate e table
      → table_after b table ≡ table
  handle_interface_late b e table d late = elim (handle_cases b table) [
    | inl (x, r) ↦ ap snd r
    | inr (e', d', (shutdown, s, r)) ↦
        let same : e' ≡ e = some-injective _ _ (sym d' ∙ d) in
        ap snd r
        ∙ ap (λ x. upsert_interface x shutdown table) same
        ∙ upsert_late e shutdown table late
  ]

  -- After a message that was handled without error, an older one for the same interface changes
  -- nothing: a snapshot that arrives late does not bring back what the newer one cleared.
  pub handle_interface_ordered :
      (b b' : Text) (e e' : IfEntry) (table : InterfaceTable)
      → unmarshal b ≡ some e
      → (handle_interface unmarshal accepts b table).0 ≡ none
      → unmarshal b' ≡ some e'
      → interface_key e' ≡ interface_key e
      → after e.timestamp e'.timestamp ≡ true
      → table_after b' (table_after b table) ≡ table_after b table
  handle_interface_ordered b b' e e' table d ok d' key older = elim (handle_cases b table) [
    | inl (x, r) ↦ cc (ap (λ (p : Option Error × InterfaceTable). p.0) r, ok)
    | inr (x, dx, (shutdown, s, r)) ↦
        let same : x ≡ e = some-injective _ _ (sym dx ∙ d) in
        let (row, stored, fresh) = upsert_fresh e shutdown table in
        handle_interface_late b' e' (table_after b table) d'
          (row, cc (key, same, ap snd r, stored), ground arith)
  ]

  -- Whatever a message is and whatever becomes of it, a stored row stays, and its time does not go
  -- back.
  pub handle_interface_grows :
      (b : Text) (table : InterfaceTable) (j : Text × Text) (old : InterfaceRow)
      → lookup j table ≡ some old
      → (new : InterfaceRow) × (lookup j (table_after b table) ≡ some new)
        × (old.collected_at ≤ℤ new.collected_at)
  handle_interface_grows b table j old h = elim (handle_cases b table) [
    | inl (x, r) ↦ (old, ap (lookup j) (ap snd r) ∙ h, omega arith)
    | inr (e, d, (shutdown, s, r)) ↦
        let (new, stored, le) = upsert_grows e shutdown table j old h in
        (new, ap (lookup j) (ap snd r) ∙ stored, le)
  ]

module _ (unmarshal : Text → Option IfEntry) (first second : IfEntry → InterfaceTable → Bool) where
  -- The outcome of a statement that succeeds where the first or the second one does.
  abbrev pub one_of : IfEntry → InterfaceTable → Bool
  one_of e table = first e table || second e table

  exec-repeat :
      (e : IfEntry) (o : Option Bool) (table : InterfaceTable)
      → (exec unmarshal second e o (exec unmarshal first e o table).1).1
        ≡ (exec unmarshal one_of e o table).1
  exec-repeat e none table = refl
  exec-repeat e (some shutdown) table = elim (Bool-cases (first e table)) [
    | inr f ↦ rw f refl
    | inl t ↦ rw t (elim (Bool-cases (second e (upsert_interface e shutdown table))) [
      | inl t' ↦ rw t' (upsert_twice e shutdown table)
      | inr f' ↦ rw f' refl
    ])
  ]

  decoded-repeat :
      (o : Option IfEntry) (table : InterfaceTable)
      → (handle_decoded unmarshal second o (handle_decoded unmarshal first o table).1).1
        ≡ (handle_decoded unmarshal one_of o table).1
  decoded-repeat none table = refl
  decoded-repeat (some e) table = exec-repeat e e.shutdown table

  -- A message that is handled twice, as after a redelivery, leaves what handling it once leaves, with
  -- a statement that succeeds where the first or the second one does. The outcomes of the two statements
  -- are independent of each other: a statement that fails and then succeeds has its effect, one that
  -- has succeeded has no further effect, and two that fail have none.
  pub handle_interface_repeat :
      (b : Text) (table : InterfaceTable)
      → table_after unmarshal second b (table_after unmarshal first b table)
        ≡ table_after unmarshal one_of b table
  unfolding handle_interface
  handle_interface_repeat b table = decoded-repeat (unmarshal b) table
