-- ===== src/Collector/Walk.antt =====
-- `isIfaceNode` and `collectInterfaces` of collector/main.go: an iterative walk with a stack. The
-- end of the Go slice is the head of the list here. Each round takes a field off the stack for good,
-- so the number of fields of the tree is fuel enough.
pub mod Laws
pub mod Reaches
use cisco_netconf_mac_db.Common.{
  ℕ, zero, suc, Bool, true, false, ◌&&◌, Option, none, some, List, [], ◌∷◌, ◌++◌, reverse, codes,
  text_eq, keep, any,
}
use cisco_netconf_mac_db.Proto.{Value, Field, name, children, value_by_type, size}
use cisco_netconf_mac_db.Collector.Nested.{local_name}

abbrev pub has_value : Option Value → Bool
has_value none = false
has_value (some v) = true

unfoldable pub is_iface_node : Field → Bool
is_iface_node f =
    any
      (λ child. text_eq (local_name (name child)) (codes "name") && has_value (value_by_type child))
      (children f)

-- `append(stack, fs...)`
abbrev pub push : List Field → List Field → List Field
push fs stack = reverse fs ++ stack

unfoldable pub collect : ℕ → List Field → List Field → List Field
collect zero stack result = result
collect (suc fuel) [] result = result
collect (suc fuel) (f ∷ stack) result = elim (is_iface_node f) [
  | true ↦ collect fuel (push (keep is_iface_node (children f)) stack) (result ++ f ∷ [])
  | false ↦ collect fuel (push (children f) stack) result
]

unfoldable pub collect_interfaces : Field → List Field
unfolding collect
collect_interfaces root = collect (size root) (push (children root) []) []
