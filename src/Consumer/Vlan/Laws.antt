-- ===== src/Consumer/Vlan/Laws.antt =====
-- What `handleVlan` of consumer/main.go does to the stored row of a VLAN.
use cisco_netconf_mac_db.Common.{
  ℕ, ◌≡◌, refl, ap, ◌∙◌, true, false, Bool-cases, Option-cases, inl, inr, Option, none, some, Text,
  ◌≤ℤ◌, after, not_before, lookup, lookup-insert, insert_same, text_ℕ_has_eq, text_ℕ_beq,
  text_ℕ_beq_iff, arith, if◌then◌else◌,
}
use cisco_netconf_mac_db.Payload.{VlanEntry}
use cisco_netconf_mac_db.Consumer.Vlan.{
  VlanRow, VlanTable, vlan_key, excluded, updated, upsert_vlan,
}

-- An entry that arrives late: the stored row of its key is newer.
abbrev pub IsLate : VlanEntry → VlanTable → Type 0
IsLate e table =
    (old : VlanRow) × (lookup (vlan_key e) table ≡ some old)
    × (after old.collected_at e.timestamp ≡ true)

pub upsert_late : (e : VlanEntry) (table : VlanTable) → IsLate e table → upsert_vlan e table ≡ table
unfolding upsert_vlan
upsert_late e table (old, h, late) = rw h (ground arith)

-- The row after an upsert.
abbrev pub merged : VlanEntry → Option VlanRow → VlanRow
merged e none = excluded e
merged e (some old) =
    if not_before e.timestamp old.collected_at then updated (excluded e) old else old

pub lookup-upsert :
    (e : VlanEntry) (table : VlanTable) (j : Text × ℕ)
    → lookup j (upsert_vlan e table) ≡ (
        if text_ℕ_beq (vlan_key e) j
        then some (merged e (lookup (vlan_key e) table))
        else lookup j table)
unfolding upsert_vlan
lookup-upsert e table j = elim (Option-cases (lookup (vlan_key e) table)) [
  | inl h ↦ rw h (lookup-insert (vlan_key e) j (excluded e) table)
  | inr (old, h) ↦ rw h (elim (Bool-cases (not_before e.timestamp old.collected_at)) [
    | inl t ↦ rw t (lookup-insert (vlan_key e) j (updated (excluded e) old) table)
    | inr f ↦ rw f (ground (arith, text_ℕ_beq_iff (vlan_key e) j))
  ])
]

-- A row that the entry does not change.
upsert_settled :
    (e : VlanEntry) (table : VlanTable) (r : VlanRow)
    → lookup (vlan_key e) table ≡ some r
    → updated (excluded e) r ≡ r
    → upsert_vlan e table ≡ table
unfolding upsert_vlan
upsert_settled e table r h same = rw h (elim (Bool-cases (not_before e.timestamp r.collected_at)) [
  | inl t ↦ rw t (rw same (insert_same (vlan_key e) r table h))
  | inr f ↦ rw f refl
])

updated-excluded : (e : VlanEntry) → updated (excluded e) (excluded e) ≡ excluded e
updated-excluded e = ground arith

updated-updated :
    (e : VlanEntry) (old : VlanRow)
    → updated (excluded e) (updated (excluded e) old) ≡ updated (excluded e) old
updated-updated e old = ground arith

pub upsert_twice :
    (e : VlanEntry) (table : VlanTable) → upsert_vlan e (upsert_vlan e table) ≡ upsert_vlan e table
upsert_twice e table = elim (Option-cases (lookup (vlan_key e) table)) [
  | inl h ↦ again (excluded e) (rw h refl) (updated-excluded e)
  | inr (old, h) ↦ elim (Bool-cases (not_before e.timestamp old.collected_at)) [
    | inl t ↦ again (updated (excluded e) old) (rw (h, t) refl) (updated-updated e old)
    | inr f ↦
        let same : upsert_vlan e table ≡ table = upsert_late e table (old, h, ground arith) in
        rw same same
  ]
]
  where
    again :
        (r : VlanRow)
        → merged e (lookup (vlan_key e) table) ≡ r
        → updated (excluded e) r ≡ r
        → upsert_vlan e (upsert_vlan e table) ≡ upsert_vlan e table
    again r m same =
        upsert_settled e (upsert_vlan e table) r
          (lookup-upsert e table (vlan_key e)
            ∙ rw ((text_ℕ_beq_iff (vlan_key e) (vlan_key e)).1 refl) (ap some m))
          same

-- Stored times do not go back.
pub upsert_grows :
    (e : VlanEntry) (table : VlanTable) (j : Text × ℕ) (old : VlanRow)
    → lookup j table ≡ some old
    → (new : VlanRow) × (lookup j (upsert_vlan e table) ≡ some new)
      × (old.collected_at ≤ℤ new.collected_at)
upsert_grows e table j old h = elim (Bool-cases (text_ℕ_beq (vlan_key e) j)) [
  | inl t ↦
      let same : vlan_key e ≡ j = (text_ℕ_beq_iff (vlan_key e) j).0 t in
      (merged e (some old), lookup-upsert e table j ∙ rw t (rw same (rw h refl)), ground arith)
  | inr f ↦ (old, lookup-upsert e table j ∙ rw f h, omega arith)
]

-- The stored row of an entry that was just upserted is at least as new as the entry.
pub upsert_fresh :
    (e : VlanEntry) (table : VlanTable)
    → (r : VlanRow) × (lookup (vlan_key e) (upsert_vlan e table) ≡ some r)
      × (after e.timestamp r.collected_at ≡ false)
upsert_fresh e table = (
  merged e (lookup (vlan_key e) table),
  lookup-upsert e table (vlan_key e) ∙ rw ((text_ℕ_beq_iff (vlan_key e) (vlan_key e)).1 refl) refl,
  ground arith,
)
