-- ===== src/Webapp/DbView/Select.antt =====
-- The statements of webapp/internal/dbview over one table: COUNT, and SELECT with WHERE, ORDER BY id DESC,
-- LIMIT and OFFSET. PostgreSQL refuses a negative OFFSET.
use cisco_netconf_mac_db.Common.{sort}
use cisco_netconf_mac_db.Common.{
  ℕ, ℤ, pos, negsuc, suc, ltb, Bool, Option, none, some, List, [], ◌∷◌, ◌++◌, Text, keep, any, take,
  drop, decimal,
}

-- `COALESCE(s, '')`
abbrev pub or_empty : Option Text → Text
or_empty none = []
or_empty (some s) = s

-- `n::text`
abbrev pub int_text : ℤ → Text
int_text (pos n) = decimal n
int_text (negsuc n) = b'-' ∷ decimal (suc n)

abbrev pub int_or_empty : Option ℤ → Text
int_or_empty none = []
int_or_empty (some n) = int_text n

-- `"%" + q + "%"`
abbrev pub pattern_of : Text → Text
pattern_of q = b'%' ∷ q ++ b'%' ∷ []

module _ {R : Type 0} (id : R → ℕ) where
  -- `ORDER BY id DESC`
  abbrev pub newest_first : List R → List R
  newest_first rows = sort (λ r s. ltb (id s) (id r)) rows

  -- `LIMIT limit OFFSET offset`
  unfoldable pub select : ℕ → ℤ → List R → Option (List R)
  select limit (negsuc n) rows = none
  select limit (pos offset) rows = some (take limit (drop offset (newest_first rows)))

-- The WHERE clause: one of the columns matches the pattern.
unfoldable pub matching :
    (Text → Text → Bool) → {R : Type 0} → (R → List Text) → Text → List R → List R
matching ilike columns pattern rows = keep (λ r. any (λ c. ilike c pattern) (columns r)) rows
