-- ===== src/Wire/Json.antt =====
-- Flat JSON objects, and how `encoding/json` reads a value into a field of a Go type. A reader gets the value that the
-- field has before: `null` leaves a field alone that is no pointer, and sets a pointer to nil. A value of another
-- type is an error.
use mathlib.Core.Option
use cisco_netconf_mac_db.Common.{
  ℕ, ◌==◌, ltb, ◌&&◌, ℤ, pos, negsuc, Bool, Option, none, some, List, [], ◌∷◌, ◌^◌, Text, Time,
  has_prefix, drop, if◌then◌else◌,
}
use cisco_netconf_mac_db.Common.{to_lower}

pub data Value : Type 0 where
  null : Value
  boolean : Bool → Value
  number : ℤ → Value
  -- a number with a fraction or an exponent
  fraction : Text → Value
  string : Text → Value

abbrev pub Object : Type 0
Object = List (Text × Value)

-- The names of members are compared without case; the long s and the Kelvin sign are an s and a k there.
unfoldable pub fold_name : Text → Text
fold_name [] = []
fold_name (c ∷ s) =
    let rest = fold_name s in
    if c == 0xc5 && has_prefix s (0xbf ∷ [])
    then b's' ∷ drop 1 rest
    else if c == 0xe2 && has_prefix s (0x84 ∷ 0xaa ∷ [])
    then b'k' ∷ drop 2 rest
    else to_lower c ∷ rest

-- `string`
abbrev pub read_text : Text → Value → Option Text
read_text old null = some old
read_text old (string s) = some s
read_text old _ = none

-- `*string`
abbrev pub read_text_pointer : Value → Option (Option Text)
read_text_pointer null = some none
read_text_pointer (string s) = some (some s)
read_text_pointer _ = none

-- `*bool`
abbrev pub read_bool_pointer : Value → Option (Option Bool)
read_bool_pointer null = some none
read_bool_pointer (boolean b) = some (some b)
read_bool_pointer _ = none

-- a number of an unsigned type of that width
abbrev pub in_width : ℕ → ℤ → Option ℕ
in_width w (pos n) = if ltb n (2 ^ w) then some n else none
in_width w (negsuc n) = none

-- `uint32`
abbrev pub read_uint : ℕ → ℕ → Value → Option ℕ
read_uint w old null = some old
read_uint w old (number z) = in_width w z
read_uint w old _ = none

-- `*uint16`, `*uint32`
abbrev pub read_uint_pointer : ℕ → Value → Option (Option ℕ)
read_uint_pointer w null = some none
read_uint_pointer w (number z) = Option.map some (in_width w z)
read_uint_pointer w _ = none

-- a number of type int
abbrev pub in_int : ℤ → Option ℤ
in_int (pos n) = if ltb n (2 ^ 63) then some (pos n) else none
in_int (negsuc n) = if ltb n (2 ^ 63) then some (negsuc n) else none

-- `*int`
abbrev pub read_int_pointer : Value → Option (Option ℤ)
read_int_pointer null = some none
read_int_pointer (number z) = Option.map some (in_int z)
read_int_pointer _ = none

-- `time.Time`
abbrev pub read_time : (Text → Option Time) → Time → Value → Option Time
read_time parse_time old null = some old
read_time parse_time old (string s) = parse_time s
read_time parse_time old _ = none

-- The members one after another; a later one of the same name overwrites.
unfoldable pub decode_members : {E : Type 0} → (E → Text → Value → Option E) → E → Object → Option E
decode_members set e [] = some e
decode_members set e ((n, v) ∷ o) = Option.bind (set e n v) (λ e'. decode_members set e' o)
