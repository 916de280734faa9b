-- ===== src/Webapp/Tokens/Listing.antt =====
-- `ListHandler` of webapp/internal/tokens. Of rows that were created at the same time the first of
-- the table comes first, where the database may take any order.
use cisco_netconf_mac_db.Common.{
  ℕ, Bool, not, Option, none, some, List, [], ◌∷◌, Text, Time, text_eq, keep, map, after,
  if◌then◌else◌,
}
use cisco_netconf_mac_db.Webapp.Tokens.{Token, Table, is_null}

pub record TokenInfo : Type 0 where
  pub id : ℕ
  pub name : Text
  pub hint : Text
  pub created_at : Time
  pub expires_at : Option Time
  pub last_used_at : Option Time
  pub revoked : Bool

abbrev pub info_of : Token → TokenInfo
info_of row = record {
  id = row.id;
  name = row.name;
  hint = row.token_hint;
  created_at = row.created_at;
  expires_at = row.expires_at;
  last_used_at = row.last_used_at;
  revoked = not (is_null row.revoked_at);
}

-- `ORDER BY created_at DESC`
unfoldable pub insert_by_age : Token → List Token → List Token
insert_by_age row [] = row ∷ []
insert_by_age row (r ∷ rows) =
    let rest = insert_by_age row rows in
    if after r.created_at row.created_at then r ∷ rest else row ∷ r ∷ rows

unfoldable pub newest_first : List Token → List Token
newest_first [] = []
newest_first (row ∷ rows) = insert_by_age row (newest_first rows)

-- none where the query fails
unfoldable pub list_tokens : Text → Bool → Table → Option (List TokenInfo)
list_tokens user db_ok table =
    if db_ok
    then some
        (map info_of (newest_first (keep (λ (row : Token). text_eq row.user_id user) table.rows)))
    else none
