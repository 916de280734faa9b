-- ===== src/Collector/Nested.antt =====
-- `findNestedField` of collector/main.go and the name matching that `isIfaceNode` shares with it.
pub mod Laws
use mathlib.Core.Option
use cisco_netconf_mac_db.Common.{
  ℕ, suc, ◌==◌, Bool, Option, none, some, List, [], ◌∷◌, ◌<|>◌, Text, text_eq, drop, if◌then◌else◌,
}
use cisco_netconf_mac_db.Proto.{Field, name, children}

-- `strings.LastIndex(s, b)` for a single byte
unfoldable pub last_index : Text → ℕ → Option ℕ
last_index [] b = none
last_index (c ∷ s) b = Option.map suc (last_index s b) <|> (if c == b then some 0 else none)

-- The part of a name behind its YANG module prefix.
unfoldable pub local_name : Text → Text
unfolding last_index
local_name s = elim (last_index s b':') [ none ↦ s | some idx ↦ drop (suc idx) s ]

-- the inner loop: the first field with that local name
unfoldable pub find_match : List Field → Text → Option Field
find_match [] n = none
find_match (f ∷ fs) n = if text_eq (local_name (name f)) n then some f else find_match fs n

unfoldable pub find_nested_field : List Field → List Text → Option Field
find_nested_field cur [] = none
find_nested_field cur (n ∷ []) = find_match cur n
find_nested_field cur (n ∷ m ∷ path) = elim (find_match cur n) [
  | none ↦ none
  | some f ↦ find_nested_field (children f) (m ∷ path)
]
