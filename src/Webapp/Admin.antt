-- ===== src/Webapp/Admin.antt =====
-- `hasAdminRole` of webapp/saml.go, and `protectAdmin` of webapp/main.go behind the SAML check. The
-- attributes of the session are a function from claim names, and the session may have none.
pub mod Laws
use cisco_netconf_mac_db.Common.{
  codes, Bool, true, false, not, ◌||◌, Option, none, some, List, [], ◌∷◌, Text, text_eq, is_empty,
  any, if◌then◌else◌,
}

unfoldable pub has_role : List Text → (Text → List Text) → Text → Bool
has_role [] attrs role = false
has_role (name ∷ names) attrs role =
    any (λ v. text_eq v role) (attrs name) || has_role names attrs role

abbrev pub session_has_role : List Text → Option (Text → List Text) → Text → Bool
session_has_role names none role = false
session_has_role names (some attrs) role = has_role names attrs role

abbrev pub role_claim_names : List Text
role_claim_names =
    codes "http://schemas.microsoft.com/ws/2008/06/identity/claims/role"
    ∷ codes "roles"
    ∷ codes "role"
    ∷ []

unfoldable pub has_admin_role : Option (Text → List Text) → Bool → Text → Bool
has_admin_role session saml_enabled admin_role =
    if not saml_enabled || is_empty admin_role
    then true
    else session_has_role role_claim_names session admin_role

pub data Access : Type 0 where
  login forbidden served : Access

-- `RequireAccount` lets a request through that is logged in; with SAML disabled all are.
unfoldable pub protect : Bool → Bool → Access → Access
protect saml_enabled logged_in next =
    if not saml_enabled then next else if logged_in then next else login

unfoldable pub protect_admin : Bool → Bool → Option (Text → List Text) → Text → Access
protect_admin saml_enabled logged_in session admin_role =
    protect saml_enabled logged_in
      (if not (has_admin_role session saml_enabled admin_role) then forbidden else served)
