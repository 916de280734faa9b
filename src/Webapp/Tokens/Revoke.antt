-- ===== src/Webapp/Tokens/Revoke.antt =====
-- `RevokeHandler` of webapp/internal/tokens.
use cisco_netconf_mac_db.Common.{
  ℕ, ℤ, pos, negsuc, ◌==◌, Bool, false, ◌&&◌, Option, none, some, List, [], ◌∷◌, Text, Time,
  text_eq, any, if◌then◌else◌,
}
use cisco_netconf_mac_db.Webapp.Tokens.{
  Token, Table, is_null, Response, bad_request, db_failure, no_content, not_found,
}

abbrev pub is_id : ℤ → ℕ → Bool
is_id (pos n) id = n == id
is_id (negsuc n) id = false

-- the WHERE clause
abbrev pub is_revocable : ℤ → Text → Token → Bool
is_revocable id user row = is_id id row.id && text_eq row.user_id user && is_null row.revoked_at

unfoldable pub set_revoked : Time → ℤ → Text → List Token → List Token
set_revoked now id user [] = []
set_revoked now id user (row ∷ rows) =
    (if is_revocable id user row then record row { revoked_at = some now } else row)
    ∷ set_revoked now id user rows

abbrev pub revoke_parsed : Text → Option ℤ → Option Time → Table → Response × Table
revoke_parsed user none o table = (bad_request, table)
revoke_parsed user (some id) none table = (db_failure, table)
revoke_parsed user (some id) (some now) table = (
  if any (is_revocable id user) table.rows then no_content else not_found,
  record table { rows = set_revoked now id user table.rows },
)

unfoldable pub revoke : Text → Option ℤ → Option Time → Table → Response × Table
revoke user id o table = revoke_parsed user id o table
