-- ===== src/Collector/Walk/Laws.antt =====
-- The stack walk is a depth-first traversal from the last child to the first.
use mathlib.Core.List.{append_assoc, append-nil, reverse-append}
use cisco_netconf_mac_db.Common.{
  ℕ, zero, suc, ◌+◌, ◌≤◌, ◌≡◌, refl, sym, ap, ◌∙◌, Bool, true, false, Bool-cases, inl, inr, Option,
  Text, List, [], ◌∷◌, ◌++◌, reverse, keep, arith,
}
use cisco_netconf_mac_db.Proto.{Value, Field, Fields, field, nil, cons, to_list, size, sizes}
use cisco_netconf_mac_db.Collector.Walk.{is_iface_node, push, collect, collect_interfaces}

abbrev pub linked : Bool → List Field → List Field
linked true fs = fs
linked false fs = []

-- The interface nodes that are met from a field. From an interface node the traversal goes on to
-- the children that are interface nodes, from any other field to all children.
unfoldable mutual
  pub visit : Field → List Field
  visit (field t n v fs) = elim (is_iface_node (field t n v fs)) [
    | true ↦ field t n v fs ∷ visit_links fs
    | false ↦ visit_all fs
  ]

  pub visit_all : Fields → List Field
  visit_all nil = []
  visit_all (cons f fs) = visit_all fs ++ visit f

  pub visit_links : Fields → List Field
  visit_links nil = []
  visit_links (cons f fs) = visit_links fs ++ linked (is_iface_node f) (visit f)

visits : List Field → List Field
visits [] = []
visits (f ∷ fs) = visit f ++ visits fs

total : List Field → ℕ
total [] = 0
total (f ∷ fs) = size f + total fs

push-cons : (f : Field) (fs stack : List Field) → push (f ∷ fs) stack ≡ push fs (f ∷ stack)
push-cons f fs stack =
    ap (λ r. r ++ stack) (reverse-append (f ∷ []) fs) ∙ append_assoc (reverse fs) (f ∷ []) stack

visits-push :
    (fs : Fields) (stack : List Field)
    → visits (push (to_list fs) stack) ≡ visit_all fs ++ visits stack
unfolding visits visit_all
visits-push nil stack = refl
visits-push (cons f fs) stack =
    ap visits (push-cons f (to_list fs) stack)
    ∙ visits-push fs (f ∷ stack)
    ∙ sym (append_assoc (visit_all fs) (visit f) (visits stack))

visits-push_links :
    (fs : Fields) (stack : List Field)
    → visits (push (keep is_iface_node (to_list fs)) stack) ≡ visit_links fs ++ visits stack
unfolding visits visit_links
visits-push_links nil stack = refl
visits-push_links (cons f fs) stack = elim (Bool-cases (is_iface_node f)) [
  | inl e ↦ rw e (
      ap visits (push-cons f (keep is_iface_node (to_list fs)) stack)
      ∙ visits-push_links fs (f ∷ stack)
      ∙ sym (append_assoc (visit_links fs) (visit f) (visits stack)))
  | inr e ↦
      rw e (
        visits-push_links fs stack
        ∙ ap (λ r. r ++ visits stack) (sym (append-nil (visit_links fs))))
]

total-push :
    (fs : Fields) (stack : List Field) → total (push (to_list fs) stack) ≡ sizes fs + total stack
unfolding total size
total-push nil stack = omega arith
total-push (cons f fs) stack =
    ap total (push-cons f (to_list fs) stack) ∙ omega (arith, total-push fs (f ∷ stack))

total-push_links :
    (fs : Fields) (stack : List Field)
    → total (push (keep is_iface_node (to_list fs)) stack) ≤ sizes fs + total stack
unfolding total size
total-push_links nil stack = omega arith
total-push_links (cons f fs) stack = elim (Bool-cases (is_iface_node f)) [
  | inl e ↦ rw e (
      rw (push-cons f (keep is_iface_node (to_list fs)) stack)
        (omega (arith, total-push_links fs (f ∷ stack))))
  | inr e ↦ rw e (omega (arith, total-push_links fs stack))
]

module _ (t : ℕ) (n : Text) (v : Option Value) (fs : Fields) where
  abbrev pub node : Field
  node = field t n v fs

  pub visit-node :
      (b : Bool)
      → is_iface_node node ≡ b
      → visit node ≡ elim b [ true ↦ node ∷ visit_links fs | false ↦ visit_all fs ]
  unfolding visit
  visit-node b h =
      ap
        (λ (b : Bool). elim b as (λ _. List Field) [
          | true ↦ node ∷ visit_links fs
          | false ↦ visit_all fs
        ])
        h

  collect-node :
      (fuel : ℕ) (stack result : List Field) (b : Bool)
      → is_iface_node node ≡ b
      → collect (suc fuel) (node ∷ stack) result ≡ elim b [
        | true ↦ collect fuel (push (keep is_iface_node (to_list fs)) stack) (result ++ node ∷ [])
        | false ↦ collect fuel (push (to_list fs) stack) result
      ]
  unfolding collect
  collect-node fuel stack result b h =
      ap
        (λ (b : Bool). elim b as (λ _. List Field) [
          | true ↦ collect fuel (push (keep is_iface_node (to_list fs)) stack) (result ++ node ∷ [])
          | false ↦ collect fuel (push (to_list fs) stack) result
        ])
        h

collect-eq-visits :
    (fuel : ℕ) (stack result : List Field)
    → total stack ≤ fuel
    → collect fuel stack result ≡ result ++ visits stack
unfolding collect visits total size
collect-eq-visits zero [] result h = sym (append-nil result)
collect-eq-visits zero (field t n v fs ∷ stack) result h = absurd (omega arith)
collect-eq-visits (suc fuel) [] result h = sym (append-nil result)
collect-eq-visits (suc fuel) (field t n v fs ∷ stack) result h =
    elim (Bool-cases (is_iface_node (field t n v fs))) [
      | inl e ↦
          collect-node t n v fs fuel stack result true e
          ∙ collect-eq-visits fuel (push (keep is_iface_node (to_list fs)) stack)
              (result ++ field t n v fs ∷ []) (omega (arith, total-push_links fs stack))
          ∙ rw (visits-push_links fs stack, visit-node t n v fs true e)
              (append_assoc result (field t n v fs ∷ []) (visit_links fs ++ visits stack))
      | inr e ↦
          collect-node t n v fs fuel stack result false e
          ∙ collect-eq-visits fuel (push (to_list fs) stack) result
              (omega (arith, total-push fs stack))
          ∙ rw (visits-push fs stack, visit-node t n v fs false e) refl
    ]

-- The walk ends with the fuel that it has, and returns the interface nodes of the depth-first
-- traversal of the root's fields, from the last to the first.
pub collect_interfaces-eq-visit :
    (t : ℕ) (n : Text) (v : Option Value) (fs : Fields)
    → collect_interfaces (field t n v fs) ≡ visit_all fs
unfolding collect_interfaces size visits total
collect_interfaces-eq-visit t n v fs =
    collect-eq-visits (suc (sizes fs)) (push (to_list fs) []) [] (omega (arith, total-push fs []))
    ∙ visits-push fs []
    ∙ append-nil (visit_all fs)
