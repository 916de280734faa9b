-- ===== src/Consumer/Interface/Laws.antt =====
-- What `handle_interface` does to the stored row: absent members are kept, present ones overwrite,
-- late messages change nothing, and a repeated message changes nothing more.
use cisco_netconf_mac_db.Common.{
  ℕ, ◌≡◌, refl, ap, ◌∙◌, Bool, true, false, Bool-cases, Option-cases, inl, inr, Option, none, some,
  Text, ◌≤ℤ◌, after, not_before, lookup, lookup-insert, insert_same, text_pair_has_eq,
  text_pair_beq, text_pair_beq_iff, arith, if◌then◌else◌,
}
use cisco_netconf_mac_db.Consumer.Entries.{IfEntry}
use cisco_netconf_mac_db.Consumer.Interface.{
  InterfaceRow, InterfaceTable, interface_key, excluded, updated, upsert_interface,
}

-- A column of the stored row, if there is one.
abbrev pub column : {A : Type 0} → (InterfaceRow → Option A) → Option InterfaceRow → Option A
column get none = none
column get (some old) = get old

-- A new row has the default VLAN.
abbrev pub old_access_vlan : Option InterfaceRow → ℕ
old_access_vlan none = 1
old_access_vlan (some old) = old.access_vlan

-- An entry that arrives late: the stored row of its key is newer.
abbrev pub IsLate : IfEntry → InterfaceTable → Type 0
IsLate e table =
    (old : InterfaceRow) × (lookup (interface_key e) table ≡ some old)
    × (after old.collected_at e.timestamp ≡ true)

pub upsert_late :
    (e : IfEntry) (shutdown : Bool) (table : InterfaceTable)
    → IsLate e table
    → upsert_interface e shutdown table ≡ table
unfolding upsert_interface
upsert_late e shutdown table (old, h, late) = rw h (ground arith)

-- The row after an upsert.
abbrev pub merged : IfEntry → Bool → Option InterfaceRow → InterfaceRow
merged e shutdown none = excluded e shutdown
merged e shutdown (some old) =
    if not_before e.timestamp old.collected_at then updated e (excluded e shutdown) old else old

pub lookup-upsert :
    (e : IfEntry) (shutdown : Bool) (table : InterfaceTable) (j : Text × Text)
    → lookup j (upsert_interface e shutdown table) ≡ (
        if text_pair_beq (interface_key e) j
        then some (merged e shutdown (lookup (interface_key e) table))
        else lookup j table)
unfolding upsert_interface
lookup-upsert e shutdown table j = elim (Option-cases (lookup (interface_key e) table)) [
  | inl h ↦ rw h (lookup-insert (interface_key e) j (excluded e shutdown) table)
  | inr (old, h) ↦ rw h (elim (Bool-cases (not_before e.timestamp old.collected_at)) [
    | inl t ↦ rw t (lookup-insert (interface_key e) j (updated e (excluded e shutdown) old) table)
    | inr f ↦ rw f (ground (arith, text_pair_beq_iff (interface_key e) j))
  ])
]

-- A row that the entry does not change.
upsert_settled :
    (e : IfEntry) (shutdown : Bool) (table : InterfaceTable) (r : InterfaceRow)
    → lookup (interface_key e) table ≡ some r
    → updated e (excluded e shutdown) r ≡ r
    → upsert_interface e shutdown table ≡ table
unfolding upsert_interface
upsert_settled e shutdown table r h same =
    rw h (elim (Bool-cases (not_before e.timestamp r.collected_at)) [
      | inl t ↦ rw t (rw same (insert_same (interface_key e) r table h))
      | inr f ↦ rw f refl
    ])

updated-excluded :
    (e : IfEntry) (shutdown : Bool)
    → updated e (excluded e shutdown) (excluded e shutdown) ≡ excluded e shutdown
updated-excluded e shutdown = ground arith

updated-updated :
    (e : IfEntry) (shutdown : Bool) (old : InterfaceRow)
    → updated e (excluded e shutdown) (updated e (excluded e shutdown) old)
      ≡ updated e (excluded e shutdown) old
updated-updated e shutdown old = ground arith

pub upsert_twice :
    (e : IfEntry) (shutdown : Bool) (table : InterfaceTable)
    → upsert_interface e shutdown (upsert_interface e shutdown table)
      ≡ upsert_interface e shutdown table
upsert_twice e shutdown table = elim (Option-cases (lookup (interface_key e) table)) [
  | inl h ↦ again (excluded e shutdown) (rw h) (updated-excluded e shutdown)
  | inr (old, h) ↦ elim (Bool-cases (not_before e.timestamp old.collected_at)) [
    | inl t ↦
        again (updated e (excluded e shutdown) old) (rw (h, t)) (updated-updated e shutdown old)
    | inr f ↦
        let same : upsert_interface e shutdown table ≡ table =
          upsert_late e shutdown table (old, h, ground arith) in
        rw same same
  ]
]
  where
    again :
        (r : InterfaceRow)
        → merged e shutdown (lookup (interface_key e) table) ≡ r
        → updated e (excluded e shutdown) r ≡ r
        → upsert_interface e shutdown (upsert_interface e shutdown table)
          ≡ upsert_interface e shutdown table
    again r m same =
        upsert_settled e shutdown (upsert_interface e shutdown table) r
          (lookup-upsert e shutdown table (interface_key e)
            ∙ rw ((text_pair_beq_iff (interface_key e) (interface_key e)).1 refl) (ap some m))
          same

-- Stored times do not go back.
pub upsert_grows :
    (e : IfEntry) (shutdown : Bool) (table : InterfaceTable) (j : Text × Text) (old : InterfaceRow)
    → lookup j table ≡ some old
    → (new : InterfaceRow) × (lookup j (upsert_interface e shutdown table) ≡ some new)
      × (old.collected_at ≤ℤ new.collected_at)
upsert_grows e shutdown table j old h = elim (Bool-cases (text_pair_beq (interface_key e) j)) [
  | inl t ↦
      let same : interface_key e ≡ j = (text_pair_beq_iff (interface_key e) j).0 t in
      (
        merged e shutdown (some old),
        lookup-upsert e shutdown table j ∙ rw t (rw same (rw h)),
        ground arith,
      )
  | inr f ↦ (old, lookup-upsert e shutdown table j ∙ rw f h, omega arith)
]

-- The stored row of an entry that was just upserted is at least as new as the entry.
pub upsert_fresh :
    (e : IfEntry) (shutdown : Bool) (table : InterfaceTable)
    → (r : InterfaceRow) × (lookup (interface_key e) (upsert_interface e shutdown table) ≡ some r)
      × (after e.timestamp r.collected_at ≡ false)
upsert_fresh e shutdown table = (
  merged e shutdown (lookup (interface_key e) table),
  lookup-upsert e shutdown table (interface_key e)
      ∙ rw ((text_pair_beq_iff (interface_key e) (interface_key e)).1 refl) refl,
  ground arith,
)
