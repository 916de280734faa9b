-- ===== src/Webapp/Shell/Tests.antt =====
-- The index page for a browser that is logged in without the administrator's role.
use mathlib.Core.List.{Memᴰ}
use cisco_netconf_mac_db.Common.{◌≡◌, ◌⊎◌, refl, true, false, some, [], ◌∷◌, codes, text_has_eq}
use cisco_netconf_mac_db.Webapp.Admin.{served, forbidden, protect}
use cisco_netconf_mac_db.Webapp.Shell.{NavLink}
use cisco_netconf_mac_db.Webapp.Shell.Main.{Browser, all_nav_links, shown_links, visit}
use cisco_netconf_mac_db.Webapp.Shell.Laws.{IsLinked, shown_links_lem}

abbrev browser : Browser
browser = record { logged_in = true; attributes = some (λ name. codes "reader" ∷ []) }

abbrev docs_link : NavLink
docs_link = record {
  label = codes "API Docs";
  href = codes "/swagger";
  admin_only = true;
  new_tab = true;
  header = false;
}

index_is_served : protect true true served ≡ served
unfolding protect
index_is_served = refl

shown_links_lem_example :
    let visited = visit true (codes "admin") true browser (codes "/swagger") in
    let links = shown_links true (codes "admin") true browser in
    (IsLinked docs_link links → visited ≡ served)
    × (Memᴰ docs_link (all_nav_links true) → IsLinked docs_link links ⊎ (visited ≡ forbidden))
shown_links_lem_example =
    shown_links_lem true (codes "admin") true browser index_is_served docs_link
