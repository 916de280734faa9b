-- ===== src/Collector/IfName.antt =====
-- `expandIfName` of collector/main.go.
pub mod Laws
use cisco_netconf_mac_db.Common.{
  ℕ, Bool, true, false, ◌&&◌, List, [], ◌∷◌, ◌++◌, Text, codes, has_prefix, is_digit, length, drop,
  if◌then◌else◌,
}

-- Full names with their abbreviations, in the order in which they are tried.
abbrev pub prefixes : List (Text × Text)
prefixes =
    (codes "GigabitEthernet", codes "Gi")
    ∷ (codes "FiveGigabitEthernet", codes "Fi")
    ∷ (codes "TenGigabitEthernet", codes "Te")
    ∷ (codes "FastEthernet", codes "Fa")
    ∷ (codes "HundredGigE", codes "Hu")
    ∷ (codes "TwentyFiveGigE", codes "Twe")
    ∷ (codes "FortyGigabitEthernet", codes "Fo")
    ∷ (codes "Port-channel", codes "Po")
    ∷ (codes "Loopback", codes "Lo")
    ∷ (codes "Vlan", codes "Vl")
    ∷ (codes "Tunnel", codes "Tu")
    ∷ []

-- `len(s) > n` and `s[n]` is a digit, read off what stands from index n on
abbrev pub starts_with_digit : Text → Bool
starts_with_digit [] = false
starts_with_digit (c ∷ _) = is_digit c

-- `len(s) > len(abbr) && s[:len(abbr)] == abbr && s[len(abbr)]` is a digit
unfoldable pub is_abbreviated : Text → Text → Bool
unfolding has_prefix
is_abbreviated abbr s = has_prefix s abbr && starts_with_digit (drop (length abbr) s)

-- the loop over the table
unfoldable pub expand_from : List (Text × Text) → Text → Text
expand_from [] s = s
expand_from ((full, abbr) ∷ ps) s =
    if is_abbreviated abbr s then full ++ drop (length abbr) s else expand_from ps s

unfoldable pub expand_if_name : Text → Text
unfolding expand_from is_abbreviated codes
expand_if_name s = expand_from prefixes s
