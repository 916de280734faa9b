-- ===== src/Webapp/Shell.antt =====
-- webapp/main.go, webapp/spec.go and webapp/internal/modtypes: how the features are put together. A route is its
-- pattern with the wrapper of its handler.
pub mod Modules
pub mod Main
pub mod Laws
pub mod Document
pub mod Tests
use cisco_netconf_mac_db.Common.{Bool, List, [], ◌∷◌, ◌++◌, Text, insert, text_has_eq, flat_map}

-- The wrappers: none, `protect`, `apiAuth` and `protectAdmin`.
pub data Guard : Type 0 where
  unguarded session api admin : Guard

pub record NavLink : Type 0 where
  pub label : Text
  pub href : Text
  pub admin_only : Bool
  pub new_tab : Bool
  pub header : Bool

pub record Fragment : Type 0 where
  pub paths : List (Text × Text)
  pub schemas : List (Text × Text)

abbrev pub no_fragment : Fragment
no_fragment = record { paths = []; schemas = [] }

pub record Module : Type 0 where
  pub routes : Guard → Guard → List (Text × Guard)
  pub nav_links : List NavLink
  pub fragment : Fragment

-- `for k, v := range from { to[k] = v }`
unfoldable pub copy_into : List (Text × Text) → List (Text × Text) → List (Text × Text)
copy_into [] to = to
copy_into ((k, v) ∷ from) to = copy_into from (insert k v to)

-- the loop of `buildOpenAPISpec`
unfoldable pub merge_fragments : List Module → Fragment → Fragment
merge_fragments [] spec = spec
merge_fragments (m ∷ ms) spec = merge_fragments ms (record {
  paths = copy_into m.fragment.paths spec.paths;
  schemas = copy_into m.fragment.schemas spec.schemas;
})
