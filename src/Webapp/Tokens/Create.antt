-- ===== src/Webapp/Tokens/Create.antt =====
-- `CreateHandler` and `generateToken` of webapp/internal/tokens.
use cisco_netconf_mac_db.Common.{
  ℕ, ℤ, ◌+◌, ◌||◌, pos, negsuc, suc, ◌==◌, leb, ltb, Bool, true, ◌&&◌, Option, none, some, List, [],
  ◌∷◌, ◌++◌, Text, Time, text_eq, is_empty, length, take, any, if◌then◌else◌,
}
use cisco_netconf_mac_db.Webapp.Tokens.Trim.{trim_space}
use cisco_netconf_mac_db.Webapp.Tokens.{
  api_token_prefix, max_active_tokens, max_token_name_len, default_expiry_days, max_expiry_days,
  Token, Table, is_active, Response, bad_request, bad_name, bad_days, db_failure, limit_reached,
  internal_error, created,
}

pub record CreateRequest : Type 0 where
  pub name : Text
  pub expires_days : Option ℤ

-- What the clock, the database and the random source answer in one call of CreateHandler.
pub record CreateOutcome : Type 0 where
  pub clock : Time
  pub count : Option Time
  pub random : Option (List ℕ)
  pub insert : Option Time

abbrev pub days_of : Option ℤ → ℤ
days_of none = default_expiry_days
days_of (some days) = days

abbrev pub bad_expiry : ℤ → Bool
bad_expiry (negsuc n) = true
bad_expiry (pos n) = ltb max_expiry_days n

-- the COUNT statement
unfoldable pub count_active : Text → Time → List Token → ℕ
count_active user now [] = 0
count_active user now (row ∷ rows) =
    let rest = count_active user now rows in
    if text_eq row.user_id user && is_active now row then suc rest else rest

abbrev pub hint_of : Text → Text
hint_of plaintext = take (length api_token_prefix + 4) plaintext ++ 0xe2 ∷ 0x80 ∷ 0xa6 ∷ []

module _ (sha256_hex : Text → Text) (base64 : List ℕ → Text) (add_days : Time → ℕ → Time) where
  abbrev pub expiry : Time → ℤ → Option Time
  expiry clock (negsuc n) = none
  expiry clock (pos n) = if n == 0 then none else some (add_days clock n)

  -- `generateToken`
  abbrev pub plaintext_of : List ℕ → Text
  plaintext_of raw = api_token_prefix ++ base64 raw

  -- the INSERT statement: the hash is UNIQUE
  unfoldable pub insert_token :
      Text → Text → Text → Option Time → Option Time → Table → Response × Table
  insert_token user name plaintext expires_at none table = (db_failure, table)
  insert_token user name plaintext expires_at (some now) table =
      if any (λ row. text_eq row.token_hash (sha256_hex plaintext)) table.rows
      then (db_failure, table)
      else (
        created table.next_id name plaintext (hint_of plaintext) now expires_at,
        record {
          next_id = suc table.next_id;
          rows =
              table.rows
              ++ (record {
                id = table.next_id;
                user_id = user;
                name = name;
                token_hash = sha256_hex plaintext;
                token_hint = hint_of plaintext;
                created_at = now;
                expires_at = expires_at;
                last_used_at = none;
                revoked_at = none;
              })
                ∷ [];
        },
      )

  abbrev pub generate :
      Text → Text → Option Time → CreateOutcome → Option (List ℕ) → Table → Response × Table
  generate user name expires_at o none table = (internal_error, table)
  generate user name expires_at o (some raw) table =
      insert_token user name (plaintext_of raw) expires_at o.insert table

  abbrev pub check_limit :
      Text → Text → Option Time → CreateOutcome → Option Time → Table → Response × Table
  check_limit user name expires_at o none table = (db_failure, table)
  check_limit user name expires_at o (some now) table =
      if leb max_active_tokens (count_active user now table.rows)
      then (limit_reached, table)
      else generate user name expires_at o o.random table

  abbrev pub create_decoded : Text → CreateOutcome → Option CreateRequest → Table → Response × Table
  create_decoded user o none table = (bad_request, table)
  create_decoded user o (some req) table =
      let name = trim_space req.name in
      if is_empty name || ltb max_token_name_len (length name)
      then (bad_name, table)
      else if bad_expiry (days_of req.expires_days)
      then (bad_days, table)
      else check_limit user name (expiry o.clock (days_of req.expires_days)) o o.count table

  unfoldable pub create : Text → Option CreateRequest → CreateOutcome → Table → Response × Table
  create user req o table = create_decoded user o req table
