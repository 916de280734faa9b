-- ===== src/Webapp/Ports/Rdns.antt =====
-- webapp/internal/rdns: the host name of an address. The resolver is a parameter, which gives the names of an
-- address or fails; its pattern of an address is that of the search.
use cisco_netconf_mac_db.Common.{
  ◌==◌, Bool, not, ◌&&◌, ◌||◌, Option, none, some, List, [], ◌∷◌, Text, is_empty, if◌then◌else◌,
}
use cisco_netconf_mac_db.Webapp.Search.Patterns.{ip_re}

-- `strings.TrimSuffix(s, ".")`
unfoldable pub trim_dot : Text → Text
trim_dot [] = []
trim_dot (c ∷ s) = let rest = trim_dot s in if is_empty s && c == b'.' then [] else c ∷ rest

pub data Response : Type 0 where
  method_not_allowed bad_request : Response
  hostname : Option Text → Response

abbrev pub first_name : Option (List Text) → Response
first_name none = hostname none
first_name (some []) = hostname none
first_name (some (name ∷ _)) = hostname (some (trim_dot name))

unfoldable pub rdns_handler : (Text → Option (List Text)) → Bool → Text → Response
rdns_handler lookup_addr is_get ip =
    if is_get
    then if is_empty ip || not (ip_re ip) then bad_request else first_name (lookup_addr ip)
    else method_not_allowed
