-- ===== src/Webapp/Search/Patterns.antt =====
-- The regular expressions of webapp/internal/search/sql.go. `\d` is an ASCII digit; without case, `k` and
-- `s` also match the Kelvin sign and the long s, here by their UTF-8 bytes.
use cisco_netconf_mac_db.Common.{to_lower}
use cisco_netconf_mac_db.Common.{
  ℕ, zero, suc, ◌-◌, ◌==◌, leb, ltb, Bool, true, false, ◌&&◌, ◌||◌, Option, none, some, List, [],
  ◌∷◌, ◌++◌, Text, is_digit, length, if◌then◌else◌,
}
use cisco_netconf_mac_db.Webapp.Tokens.Trim.{strip}

abbrev pub is_lower_hex : ℕ → Bool
is_lower_hex c = is_digit c || (leb b'a' c && leb c b'f')

abbrev pub is_hex : ℕ → Bool
is_hex c = is_lower_hex (to_lower c)

abbrev pub is_separator : ℕ → Bool
is_separator c = c == b':' || c == b'-'

abbrev pub is_dot : ℕ → Bool
is_dot c = c == b'.'

pub data Class : Type 0 where
  hex separator dot : Class

abbrev pub in_class : Class → ℕ → Bool
in_class hex c = is_hex c
in_class separator c = is_separator c
in_class dot c = is_dot c

-- A text with one byte of each class in turn.
unfoldable pub matches : List Class → Text → Bool
matches [] [] = true
matches [] (c ∷ s) = false
matches (p ∷ ps) [] = false
matches (p ∷ ps) (c ∷ s) = in_class p c && matches ps s

abbrev pub hex_pair : List Class
hex_pair = hex ∷ hex ∷ []

abbrev pub hex_quad : List Class
hex_quad = hex ∷ hex ∷ hex ∷ hex ∷ []

abbrev pub pair_more : List Class
pair_more = separator ∷ hex_pair

abbrev pub mac_pairs : List Class
mac_pairs = hex_pair ++ pair_more ++ pair_more ++ pair_more ++ pair_more ++ pair_more

abbrev pub quad_more : List Class
quad_more = dot ∷ hex_quad

abbrev pub mac_quads : List Class
mac_quads = hex_quad ++ quad_more ++ quad_more

abbrev pub mac_plain : List Class
mac_plain = hex_quad ++ hex_quad ++ hex_quad

unfoldable pub mac_re : Text → Bool
mac_re s = matches mac_pairs s || matches mac_quads s || matches mac_plain s

-- `groups` more groups of one to three digits, each behind a dot, after `digits` digits of this one
unfoldable pub octets : ℕ → ℕ → Text → Bool
octets groups digits [] = groups == 0 && leb 1 digits
octets groups digits (c ∷ s) =
    let d = is_digit c in
    let rest = octets (if d then groups else groups - 1) (if d then suc digits else 0) s in
    if d then ltb digits 3 && rest else is_dot c && leb 1 digits && leb 1 groups && rest

unfoldable pub ip_re : Text → Bool
ip_re s = octets 3 0 s

abbrev pub folded : List Text
folded = (0xc5 ∷ 0xbf ∷ []) ∷ (0xe2 ∷ 0x84 ∷ 0xaa ∷ []) ∷ []

-- The rest of a text behind a letter.
abbrev pub letter : Text → Option Text
letter [] = none
letter (c ∷ s) =
    let l = to_lower c in if leb b'a' l && leb l b'z' then some s else strip folded (c ∷ s)

-- The rest behind a letter, a digit, a dash or a dot.
abbrev pub host_char : Text → Option Text
host_char [] = none
host_char (c ∷ s) = if is_digit c || c == b'-' || is_dot c then some s else letter (c ∷ s)

-- each round takes at least one byte, so the length is fuel enough
unfoldable pub host_chars : ℕ → Text → Bool
host_chars zero s = true
host_chars (suc fuel) [] = true
host_chars (suc fuel) (c ∷ s) = elim (host_char (c ∷ s)) [
  | none ↦ false
  | some rest ↦ host_chars fuel rest
]

abbrev pub after_letter : ℕ → Option Text → Bool
after_letter fuel none = false
after_letter fuel (some rest) = host_chars fuel rest

unfoldable pub host_re : Text → Bool
host_re s = after_letter (length s) (letter s)
