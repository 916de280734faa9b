-- ===== src/Collector/Walk/Reaches.antt =====
-- Which fields `collect_interfaces` returns, stated by reachability.
use mathlib.Core.List.{Memᴰ}
use mathlib.Core.List.Memᴰ
use mathlib.Core.Path.{subst}
use cisco_netconf_mac_db.Common.{
  ℕ, ◌≡◌, ◌↔◌, refl, sym, Bool, true, false, Bool-cases, ◌⊎◌, inl, inr, List, ◌∷◌, Option, Text,
}
use cisco_netconf_mac_db.Proto.{Value, Field, Fields, field, nil, cons, children, to_list}
use cisco_netconf_mac_db.Collector.Walk.{is_iface_node, collect_interfaces}
use cisco_netconf_mac_db.Collector.Walk.Laws.{
  visit, visit_all, visit_links, linked, visit-node, collect_interfaces-eq-visit,
}

-- `g` is met from `f`: from an interface node by children that are interface nodes (the chain), from
-- any other field by every child.
pub data Reaches : Field → Field → Type 0 where
  here : {f : Field} → Reaches f f
  down : {f c g : Field} → is_iface_node f ≡ false → Memᴰ c (children f) → Reaches c g → Reaches f g
  link :
      {f c g : Field}
      → is_iface_node f ≡ true
      → is_iface_node c ≡ true
      → Memᴰ c (children f)
      → Reaches c g
      → Reaches f g

abbrev pub IsMet : Field → Field → Type 0
IsMet f g = Reaches f g × (is_iface_node g ≡ true)

linked_cases :
    {g : Field} (b : Bool) (fs : List Field) → Memᴰ g (linked b fs) → (b ≡ true) × Memᴰ g fs
linked_cases true fs m = (refl, m)
linked_cases false fs m = elim m [ ]

node_cases :
    (t : ℕ) (n : Text) (v : Option Value) (fs : Fields) (g : Field)
    → Memᴰ g (visit (field t n v fs))
    → ((is_iface_node (field t n v fs) ≡ true) × Memᴰ g (field t n v fs ∷ visit_links fs))
      ⊎ ((is_iface_node (field t n v fs) ≡ false) × Memᴰ g (visit_all fs))
node_cases t n v fs g m = elim (Bool-cases (is_iface_node (field t n v fs))) [
  | inl e ↦ inl (e, subst (Memᴰ g) (visit-node t n v fs true e) m)
  | inr e ↦ inr (e, subst (Memᴰ g) (visit-node t n v fs false e) m)
]

mutual
  unfolding visit_all visit_links

  visit_sound : (f g : Field) → Memᴰ g (visit f) → IsMet f g
  visit_sound (field t n v fs) g m = elim (node_cases t n v fs g m) [
    | inl (e, m') ↦ elim (Memᴰ.cases_cons m') [
      | inl same ↦ (
        subst (λ x. Reaches (field t n v fs) x) (sym same) here,
        subst (λ x. is_iface_node x ≡ true) (sym same) e,
      )
      | inr later ↦ let (c, mc, ce, r, i) = visit_links_sound fs g later in (link e ce mc r, i)
    ]
    | inr (e, m') ↦ let (c, mc, r, i) = visit_all_sound fs g m' in (down e mc r, i)
  ]

  visit_all_sound :
      (fs : Fields) (g : Field)
      → Memᴰ g (visit_all fs)
      → (c : Field) × Memᴰ c (to_list fs) × Reaches c g × (is_iface_node g ≡ true)
  visit_all_sound nil g m = elim m [ ]
  visit_all_sound (cons f fs) g m = elim (Memᴰ.append_cases (visit_all fs) m) [
    | inl a ↦ let (c, mc, r, i) = visit_all_sound fs g a in (c, Memᴰ.tail mc, r, i)
    | inr b ↦ let (r, i) = visit_sound f g b in (f, Memᴰ.head refl, r, i)
  ]

  visit_links_sound :
      (fs : Fields) (g : Field)
      → Memᴰ g (visit_links fs)
      → (c : Field) × Memᴰ c (to_list fs)
        × (is_iface_node c ≡ true)
        × Reaches c g
        × (is_iface_node g ≡ true)
  visit_links_sound nil g m = elim m [ ]
  visit_links_sound (cons f fs) g m = elim (Memᴰ.append_cases (visit_links fs) m) [
    | inl a ↦ let (c, mc, ce, r, i) = visit_links_sound fs g a in (c, Memᴰ.tail mc, ce, r, i)
    | inr b ↦
        let (e, b') = linked_cases (is_iface_node f) (visit f) b in
        let (r, i) = visit_sound f g b' in (f, Memᴰ.head refl, e, r, i)
  ]

visit_all_complete :
    (c g : Field) (fs : Fields) → Memᴰ c (to_list fs) → Memᴰ g (visit c) → Memᴰ g (visit_all fs)
unfolding visit_all
visit_all_complete c g nil mc m = elim mc [ ]
visit_all_complete c g (cons f fs) mc m = elim (Memᴰ.cases_cons mc) [
  | inl same ↦ Memᴰ.append_right (visit_all fs) (subst (λ x. Memᴰ g (visit x)) same m)
  | inr later ↦ Memᴰ.append_left (visit f) (visit_all_complete c g fs later m)
]

visit_links_complete :
    (c g : Field) (fs : Fields)
    → Memᴰ c (to_list fs)
    → is_iface_node c ≡ true
    → Memᴰ g (visit c)
    → Memᴰ g (visit_links fs)
unfolding visit_links
visit_links_complete c g nil mc e m = elim mc [ ]
visit_links_complete c g (cons f fs) mc e m = elim (Memᴰ.cases_cons mc) [
  | inl same ↦ Memᴰ.append_right (visit_links fs) (
      subst (λ b. Memᴰ g (linked b (visit f))) (sym (subst (λ x. is_iface_node x ≡ true) same e))
        (subst (λ x. Memᴰ g (visit x)) same m))
  | inr later ↦
      Memᴰ.append_left (linked (is_iface_node f) (visit f)) (visit_links_complete c g fs later e m)
]

visit_here : (f : Field) → is_iface_node f ≡ true → Memᴰ f (visit f)
visit_here (field t n v fs) e =
    subst (Memᴰ (field t n v fs)) (sym (visit-node t n v fs true e)) (Memᴰ.head refl)

visit_down :
    (f c g : Field)
    → is_iface_node f ≡ false
    → Memᴰ c (children f)
    → Memᴰ g (visit c)
    → Memᴰ g (visit f)
visit_down (field t n v fs) c g e mc m =
    subst (Memᴰ g) (sym (visit-node t n v fs false e)) (visit_all_complete c g fs mc m)

visit_link :
    (f c g : Field)
    → is_iface_node f ≡ true
    → is_iface_node c ≡ true
    → Memᴰ c (children f)
    → Memᴰ g (visit c)
    → Memᴰ g (visit f)
visit_link (field t n v fs) c g e ce mc m =
    subst (Memᴰ g) (sym (visit-node t n v fs true e))
      (Memᴰ.tail (visit_links_complete c g fs mc ce m))

visit_complete : {f g : Field} → Reaches f g → is_iface_node g ≡ true → Memᴰ g (visit f)
visit_complete (here {f}) i = visit_here f i
visit_complete (down {f} {c} {g} e mc r) i = visit_down f c g e mc (visit_complete r i)
visit_complete (link {f} {c} {g} e ce mc r) i = visit_link f c g e ce mc (visit_complete r i)

-- The collected fields are exactly the interface nodes that are met from a field of the root, by
-- whatever nesting: siblings of the flat layout, and the links of a nested chain.
pub collect_interfaces_iff :
    (root g : Field)
    → Memᴰ g (collect_interfaces root)
      ↔ ((c : Field) × Memᴰ c (children root) × Reaches c g × (is_iface_node g ≡ true))
collect_interfaces_iff (field t n v fs) g = (
  λ m. visit_all_sound fs g (subst (Memᴰ g) (collect_interfaces-eq-visit t n v fs) m),
  λ (c, mc, r, i).
      subst (Memᴰ g) (sym (collect_interfaces-eq-visit t n v fs))
        (visit_all_complete c g fs mc (visit_complete r i)),
)
