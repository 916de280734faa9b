-- ===== src/Webapp/Shell/Main.antt =====
-- `main` of webapp/main.go: the modules, their navigation links, and the routes of the mux.
use cisco_netconf_mac_db.Common.{
  Bool, not, ◌&&◌, Option, none, some, List, [], ◌∷◌, ◌++◌, Text, codes, lookup, text_has_eq,
  flat_map, if◌then◌else◌,
}
use cisco_netconf_mac_db.Webapp.Admin.{Access, served, has_admin_role, protect, protect_admin}
use cisco_netconf_mac_db.Webapp.Shell.{
  Guard, unguarded, session, api, admin, NavLink, Fragment, no_fragment, Module, merge_fragments,
}
use cisco_netconf_mac_db.Webapp.Shell.Modules.{
  search_module, port_info_module, port_lookup_module, vlans_module, rdns_module, db_view_module,
  tokens_module, swagger_module,
}

-- `DBVIEW_ENABLED` adds the table browser.
abbrev pub data_modules : Bool → List Module
data_modules db_view =
    search_module
    ∷ port_info_module
    ∷ port_lookup_module
    ∷ vlans_module
    ∷ rdns_module
    ∷ (if db_view then db_view_module ∷ [] else [])

abbrev pub infra_modules : List Module
infra_modules = tokens_module ∷ swagger_module ∷ []

-- `buildOpenAPISpec(dataModules)`
unfoldable pub build_spec : Bool → Fragment
build_spec db_view = merge_fragments (data_modules db_view) no_fragment

unfoldable pub all_nav_links : Bool → List NavLink
all_nav_links db_view =
    flat_map (λ (m : Module). m.nav_links) (data_modules db_view ++ infra_modules)

-- `mux.Handle`, in its order
unfoldable pub mux : Bool → Bool → List (Text × Guard)
mux saml_enabled db_view =
    (if saml_enabled then (codes "/saml/", unguarded) ∷ [] else [])
    ++ ((codes "/", session) ∷ (codes "/api/me", session) ∷ (codes "/logout", session) ∷ [])
    ++ flat_map (λ (m : Module). m.routes api admin) (data_modules db_view)
    ++ flat_map (λ (m : Module). m.routes session admin) infra_modules

-- The links of the header and of the menu.
unfoldable pub split_links : Bool → List NavLink → List NavLink × List NavLink
split_links is_admin [] = ([], [])
split_links is_admin (link ∷ links) =
    let rest = split_links is_admin links in
    if link.admin_only && not is_admin
    then rest
    else if link.header
    then (link ∷ rest.0, rest.1)
    else (rest.0, link ∷ rest.1)

-- A request of a browser: whether it is logged in, and the attributes of its session.
pub record Browser : Type 0 where
  pub logged_in : Bool
  pub attributes : Option (Text → List Text)

-- What becomes of it behind a wrapper. It has no bearer token, and `BearerOrSAML` then does as `protect`.
abbrev pub guarded : Bool → Text → Browser → Guard → Access
guarded saml_enabled admin_role b unguarded = served
guarded saml_enabled admin_role b session = protect saml_enabled b.logged_in served
guarded saml_enabled admin_role b api = protect saml_enabled b.logged_in served
guarded saml_enabled admin_role b admin =
    protect_admin saml_enabled b.logged_in b.attributes admin_role

-- The links that the index page shows.
unfoldable pub shown_links : Bool → Text → Bool → Browser → List NavLink × List NavLink
shown_links saml_enabled admin_role db_view b =
    split_links (has_admin_role b.attributes saml_enabled admin_role) (all_nav_links db_view)

-- A path that is no pattern belongs to `/`.
abbrev pub or_index : Option Guard → Guard
or_index none = session
or_index (some g) = g

-- What becomes of a request for a path.
unfoldable pub visit : Bool → Text → Bool → Browser → Text → Access
visit saml_enabled admin_role db_view b path =
    guarded saml_enabled admin_role b (or_index (lookup path (mux saml_enabled db_view)))
