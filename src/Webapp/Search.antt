-- ===== src/Webapp/Search.antt =====
-- webapp/internal/search: the handler of POST /api/search. The decoder of the request, the resolver
-- (`LookupHost`) and the answer of the database to the query are parameters. Case is folded in ASCII: lower
-- case is only taken of texts that are compared with MAC addresses.
pub mod Patterns
pub mod Laws
pub mod Sql
pub mod Found
pub mod Tests
use mathlib.Core.List.{foldl}
use cisco_netconf_mac_db.Common.{
  ℕ, ℤ, suc, ◌+◌, ◌==◌, leb, ltb, Bool, true, false, ◌&&◌, ◌||◌, not, Option, none, some, List, [],
  ◌∷◌, ◌++◌, map, Text, text_eq, is_empty, is_digit, length, take, drop, keep, any, lookup, insert,
  text_has_eq, if◌then◌else◌,
}
use cisco_netconf_mac_db.Webapp.Tokens.Trim.{trim_space}
use cisco_netconf_mac_db.Webapp.Search.Patterns.{mac_re, ip_re, host_re, is_lower_hex}
use cisco_netconf_mac_db.Common.{to_lower}

-- The lower-case hexadecimal digits of a text.
abbrev pub hex_of : Text → Text
hex_of s = keep is_lower_hex (map to_lower s)

-- `h[from:from+n]`
abbrev pub slice : ℕ → ℕ → Text → Text
slice from n h = take n (drop from h)

abbrev pub colon_form : Text → Text
colon_form h =
    slice 0 2 h
    ++ b':' ∷ slice 2 2 h
    ++ b':' ∷ slice 4 2 h
    ++ b':' ∷ slice 6 2 h
    ++ b':' ∷ slice 8 2 h
    ++ b':' ∷ slice 10 2 h

abbrev pub dot_form : Text → Text
dot_form h = slice 0 4 h ++ b'.' ∷ slice 4 4 h ++ b'.' ∷ slice 8 4 h

unfoldable pub normalize_mac : Text → List Text
normalize_mac s =
    if length (hex_of s) == 12
    then colon_form (hex_of s) ∷ dot_form (hex_of s) ∷ []
    else map to_lower s ∷ []

pub data Kind : Type 0 where
  mac ip hostname : Kind

pub record TermRecord : Type 0 where
  pub original : Text
  pub kind : Kind
  pub look_for : List Text

-- The variables of the handler that the loop over the terms fills.
pub record Terms : Type 0 where
  pub seen : List Text
  pub macs : List Text
  pub ips : List Text
  pub hostnames : List Text
  pub term_records : List TermRecord

abbrev pub no_terms : Terms
no_terms = record { seen = []; macs = []; ips = []; hostnames = []; term_records = [] }

abbrev pub has : Text → List Text → Bool
has t = any (λ s. text_eq s t)

abbrev pub add_mac : Terms → Text → Terms
add_mac s t = if has t s.seen then s else record s { seen = t ∷ s.seen; macs = s.macs ++ t ∷ [] }

abbrev pub add_ip : Terms → Text → Terms
add_ip s t = if has t s.seen then s else record s { seen = t ∷ s.seen; ips = s.ips ++ t ∷ [] }

abbrev pub add_hostname : Terms → Text → Terms
add_hostname s t =
    if has t s.seen then s else record s { seen = t ∷ s.seen; hostnames = s.hostnames ++ t ∷ [] }

abbrev pub note : Terms → TermRecord → Terms
note s r = record s { term_records = s.term_records ++ r ∷ [] }

-- one round of the loop, of a term with no space around it
unfoldable pub classify : Terms → Text → Terms
classify s t =
    if is_empty t
    then s
    else if mac_re t
    then note (foldl add_mac s (normalize_mac t))
        (record { original = t; kind = mac; look_for = normalize_mac t })
    else if ip_re t
    then note (add_ip s t) (record { original = t; kind = ip; look_for = t ∷ [] })
    else if host_re t
    then note (add_hostname s t) (record { original = t; kind = hostname; look_for = [] })
    else s

unfoldable pub classify_all : List Text → Terms
classify_all terms = foldl (λ s t. classify s (trim_space t)) no_terms terms

module _ (lookup_host : Text → Option (List Text)) where
  -- the addresses of one host name; the IPv4 ones are kept, and looked for unless seen
  abbrev pub resolve_one :
      Terms × List (Text × List Text) → Text → Option (List Text) → Terms × List (Text × List Text)
  resolve_one (s, hosts) h none = (s, hosts)
  resolve_one (s, hosts) h (some addrs) =
      (foldl add_ip s (keep ip_re addrs), insert h (keep ip_re addrs) hosts)

  unfoldable pub resolve :
      List Text → Terms × List (Text × List Text) → Terms × List (Text × List Text)
  resolve [] s = s
  resolve (h ∷ hs) s = resolve hs (resolve_one s h (lookup_host h))

abbrev pub or_none : Option (List Text) → List Text
or_none none = []
or_none (some addrs) = addrs

abbrev pub fill : List (Text × List Text) → TermRecord → Kind → TermRecord
fill hosts r hostname = record r { look_for = or_none (lookup r.original hosts) }
fill hosts r ip = r
fill hosts r mac = r

-- a row of the query
pub record Result : Type 0 where
  pub node_id : Text
  pub mac_address : Text
  pub ip_address : Option Text
  pub interface : Option Text
  pub interface_description : Option Text
  pub access_vlan : Option ℤ
  pub access_vlan_name : Option Text
  pub voice_vlan : Option ℤ
  pub voice_vlan_name : Option Text

pub data Response : Type 0 where
  method_not_allowed bad_request database_error : Response
  answer : List Result → List Text → Response

abbrev pub to_list : Option Text → List Text
to_list none = []
to_list (some t) = t ∷ []

unfoldable pub found_macs : List Result → List Text
found_macs [] = []
found_macs (r ∷ rs) = map to_lower r.mac_address ∷ found_macs rs

unfoldable pub found_ips : List Result → List Text
found_ips [] = []
found_ips (r ∷ rs) = to_list r.ip_address ++ found_ips rs

abbrev pub first_of : List Text → Text
first_of [] = []
first_of (t ∷ ts) = t

-- the switch that decides whether a term is matched
unfoldable pub matched : List Result → Kind → List Text → Bool
matched results mac look_for = any (λ t. has t (found_macs results)) look_for
matched results ip look_for = has (first_of look_for) (found_ips results)
matched results hostname look_for = any (λ t. has t (found_ips results)) look_for

abbrev pub originals : List TermRecord → List Text
originals rs = map (λ (r : TermRecord). r.original) rs

abbrev pub missed : List Result → List TermRecord → List Text
missed results rs =
    originals (keep (λ (r : TermRecord). not (matched results r.kind r.look_for)) rs)

abbrev pub respond : List TermRecord → Option (List Result) → Response
respond rs none = database_error
respond rs (some results) = answer results (missed results rs)

abbrev pub is_nil : List Text → Bool
is_nil [] = true
is_nil (t ∷ ts) = false

-- the rest of the handler, after the resolution; `query` answers for the MACs and the IPs
abbrev pub finish :
    (List Text → List Text → Option (List Result)) → Terms × List (Text × List Text) → Response
finish query (s, hosts) =
    let rs = map (λ (r : TermRecord). fill hosts r r.kind) s.term_records in
    if is_nil s.macs && is_nil s.ips
    then answer [] (originals rs)
    else respond rs (query s.macs s.ips)

abbrev pub search_terms :
    (Text → Option (List Text))
    → (List Text → List Text → Option (List Result))
    → Option (List Text)
    → Response
search_terms lookup_host query none = bad_request
search_terms lookup_host query (some terms) =
    let s = classify_all terms in finish query (resolve lookup_host s.hostnames (s, []))

unfoldable pub handler :
    (Text → Option (List Text))
    → (List Text → List Text → Option (List Result))
    → Bool
    → Option (List Text)
    → Response
handler lookup_host query is_post body =
    if is_post then search_terms lookup_host query body else method_not_allowed
