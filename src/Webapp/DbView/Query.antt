-- ===== src/Webapp/DbView/Query.antt =====
-- The query parameters of `TableHandler` in webapp/internal/dbview, with `strconv.Atoi`. The error of `Atoi`
-- is ignored there: a text that is no number reads as 0, and one out of range as the nearest int.
use cisco_netconf_mac_db.Common.{
  ℕ, ℤ, pos, negsuc, int64, ◌+◌, ◌-◌, ◌*◌, ◌/◌, ◌^◌, ◌==◌, leb, ltb, ◌||◌, Option, none, some, [],
  ◌∷◌, Text, is_digit, if◌then◌else◌,
}

-- `ParseUint`: the first digit that leaves 64 bits ends it with the largest number.
unfoldable pub parse_uint : ℕ → Text → Option ℕ
parse_uint n [] = some n
parse_uint n (c ∷ s) =
    let next = n * 10 + (c - b'0') in
    let rest = parse_uint next s in
    if is_digit c then if leb (2 ^ 64) next then some (2 ^ 64 - 1) else rest else none

-- There has to be a digit.
abbrev pub parse_digits : Text → Option ℕ
parse_digits [] = none
parse_digits (c ∷ s) = parse_uint 0 (c ∷ s)

abbrev pub of_positive : Option ℕ → ℤ
of_positive none = pos 0
of_positive (some n) = if leb (2 ^ 63) n then pos (2 ^ 63 - 1) else pos n

abbrev pub of_negative : Option ℕ → ℤ
of_negative none = pos 0
of_negative (some n) =
    if ltb (2 ^ 63) n then negsuc (2 ^ 63 - 1) else if n == 0 then pos 0 else negsuc (n - 1)

-- the first result of `Atoi`
unfoldable pub atoi : Text → ℤ
atoi [] = pos 0
atoi (c ∷ s) =
    if c == b'-'
    then of_negative (parse_digits s)
    else of_positive (parse_digits (if c == b'+' then s else c ∷ s))

-- `if page < 1 { page = 1 }`
abbrev pub at_least_one : ℤ → ℕ
at_least_one (negsuc n) = 1
at_least_one (pos n) = if n == 0 then 1 else n

unfoldable pub page_of : Text → ℕ
page_of s = at_least_one (atoi s)

-- `if size < 1 || size > 1000 { size = 100 }`
abbrev pub size_in_range : ℤ → ℕ
size_in_range (negsuc n) = 100
size_in_range (pos n) = if n == 0 || ltb 1000 n then 100 else n

unfoldable pub size_of : Text → ℕ
size_of s = size_in_range (atoi s)

-- `(page - 1) * size`, in 64 bits
unfoldable pub offset_of : ℕ → ℕ → ℤ
offset_of page size = int64 ((page - 1) * size)

-- `(filtered + size - 1) / size`, at least 1
unfoldable pub pages_of : ℕ → ℕ → ℕ
pages_of filtered size =
    let pages = (filtered + size - 1) / size in if ltb pages 1 then 1 else pages
