-- ===== src/Webapp/Ports/Listed.antt =====
-- The list of VLANs that webapp/internal/vlans answers with.
use mathlib.Core.List.{Memᴰ}
use mathlib.Core.List.Memᴰ
use mathlib.Core.Path.{subst}
use cisco_netconf_mac_db.Common.{
  ℕ, ltb, ◌≡◌, refl, sym, ap, ◌∙◌, ◌↔◌, true, false, Bool-cases, inl, inr, none, some, List, [],
  ◌∷◌, Text, is_empty, text_eq, lookup, Distinct, sort, mem-sort, sort-IsSorted, IsSorted,
  text_ℕ_has_eq, text_ℕ_beq, text_ℕ_beq_iff, arith, if◌then◌else◌,
}
use cisco_netconf_mac_db.Consumer.Vlan.{VlanRow, VlanTable}
use cisco_netconf_mac_db.Webapp.Ports.Vlans.{VlanRecord, answer, vlans_of, vlans_sql, vlans_handler}

-- The VLAN is stored for the switch under that name.
abbrev pub IsStored : Text → VlanTable → VlanRecord → Type 0
IsStored node vlans v =
    (r : VlanRow) × (lookup (node, v.vlan_id) vlans ≡ some r) × (r.name ≡ v.name)

-- A stored VLAN behind another one of unique keys.
IsStored-behind :
    (node n : Text) (i : ℕ) (r : VlanRow) (vlans : VlanTable) (v : VlanRecord)
    → lookup (n, i) vlans ≡ none
    → IsStored node vlans v
    → IsStored node (((n, i), r) ∷ vlans) v
unfolding lookup
IsStored-behind node n i r vlans v fresh (s, h, e) =
    elim (Bool-cases (text_ℕ_beq (n, i) (node, v.vlan_id))) [
      | inl t ↦
          let same : (n, i) ≡ (node, v.vlan_id) = (text_ℕ_beq_iff (n, i) (node, v.vlan_id)).0 t in
          let gone : lookup (node, v.vlan_id) vlans ≡ none =
            ap (λ k. lookup k vlans) (sym same) ∙ fresh in
          absurd (grind (arith, gone, h))
      | inr f ↦ (s, rw f h, e)
    ]

IsStored-first :
    (node n : Text) (i : ℕ) (r : VlanRow) (vlans : VlanTable) (v : VlanRecord)
    → text_eq n node ≡ true
    → v ≡ record { vlan_id = i; name = r.name }
    → IsStored node (((n, i), r) ∷ vlans) v
unfolding lookup
IsStored-first node n i r vlans v t e =
    let at_id : v.vlan_id ≡ i = ap (λ (x : VlanRecord). x.vlan_id) e in
    (r, ground (arith, t, at_id), sym (ap (λ (x : VlanRecord). x.name) e))

listed-IsStored :
    (node : Text) (vlans : VlanTable) (v : VlanRecord)
    → Distinct vlans
    → Memᴰ v (vlans_of node vlans)
    → IsStored node vlans v
unfolding vlans_of
listed-IsStored node [] v d m = absurd (Memᴰ.not-nil m)
listed-IsStored node (((n, i), r) ∷ vlans) v (fresh, d) m = elim (Bool-cases (text_eq n node)) [
  | inl t ↦
      elim (Memᴰ.cases_cons (
        subst
          (λ b. Memᴰ v (
            if b
            then record { vlan_id = i; name = r.name } ∷ vlans_of node vlans
            else vlans_of node vlans))
          t m)) [
            | inl e ↦ IsStored-first node n i r vlans v t e
            | inr k ↦ IsStored-behind node n i r vlans v fresh (listed-IsStored node vlans v d k)
          ]
  | inr f ↦ IsStored-behind node n i r vlans v fresh (
      listed-IsStored node vlans v d (
        subst
          (λ b. Memᴰ v (
            if b
            then record { vlan_id = i; name = r.name } ∷ vlans_of node vlans
            else vlans_of node vlans))
          f m))
]

IsStored-listed :
    (node : Text) (vlans : VlanTable) (i : ℕ) (r : VlanRow)
    → lookup (node, i) vlans ≡ some r
    → Memᴰ (record { vlan_id = i; name = r.name }) (vlans_of node vlans)
unfolding vlans_of lookup
IsStored-listed node [] i r h = absurd (ground arith)
IsStored-listed node (((n, j), s) ∷ vlans) i r h = elim (Bool-cases (text_ℕ_beq (n, j) (node, i))) [
  | inl t ↦
      let t' : text_eq n node ≡ true = ground arith in
      let at_id : i ≡ j = ground arith in
      let row : r ≡ s = ground arith in rw t' (Memᴰ.head (cc (at_id, row)))
  | inr f ↦
      let rest = IsStored-listed node vlans i r (ground arith) in
      elim (Bool-cases (text_eq n node)) [ inl t ↦ rw t (Memᴰ.tail rest) | inr g ↦ rw g rest ]
]

-- The answer about a switch holds just the VLANs that are stored for it, under their stored names, in ascending order.
pub vlans_handler_lem :
    (node : Text) (vlans : VlanTable)
    → is_empty node ≡ false
    → Distinct vlans
    → (results : List VlanRecord) × (vlans_handler true node (some vlans) ≡ answer results)
      × ((v : VlanRecord) → Memᴰ v results ↔ IsStored node vlans v)
      × IsSorted (λ (a b : VlanRecord). ltb a.vlan_id b.vlan_id) results
unfolding vlans_handler vlans_sql
vlans_handler_lem node vlans n d =
    let before = λ (a b : VlanRecord). ltb a.vlan_id b.vlan_id in
    (
      sort before (vlans_of node vlans),
      rw n refl,
      λ v. (
        λ m. listed-IsStored node vlans v d ((mem-sort before v (vlans_of node vlans)).0 m),
        λ (r, h, e). (mem-sort before v (vlans_of node vlans)).1 (
            Memᴰ.cast (ap (λ x. record { vlan_id = v.vlan_id; name = x }) (sym e))
              (IsStored-listed node vlans v.vlan_id r h)),
      ),
      sort-IsSorted before (λ a b h. ground arith) (λ a b c h k. ground arith)
          (vlans_of node vlans),
    )
