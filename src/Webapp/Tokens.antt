-- ===== src/Webapp/Tokens.antt =====
-- webapp/internal/tokens: API tokens. The table api_tokens, LookupToken, SAMLUser and the decision of
-- BearerOrSAML; the handlers are in the child modules Create, Revoke and Listing. `sha256.Sum256` with
-- `hex.EncodeToString`, and the URL encoding of base64, are parameters, and so are the calendar
-- (`AddDate`), the decoders of requests and the user of the session. A statement of the database has an
-- outcome: none where it fails, else the time `now()` at which it runs. The update of last_used_at is a step
-- of its own, since it runs in a goroutine.
pub mod Trim
pub mod Create
pub mod Revoke
pub mod Listing
pub mod Laws
pub mod Opens
pub mod Limit
pub mod Race
use cisco_netconf_mac_db.Common.{
  ℕ, ℤ, ◌+◌, ◌||◌, pos, negsuc, suc, ◌==◌, leb, ltb, Bool, true, false, ◌&&◌, not, Option, none,
  some, List, [], ◌∷◌, ◌++◌, Text, Time, codes, text_eq, is_empty, has_prefix, length, take, drop,
  any, keep, map, after, if◌then◌else◌,
}
use cisco_netconf_mac_db.Webapp.Tokens.Trim.{trim_space}

abbrev pub api_token_prefix : Text
api_token_prefix = codes "pfk_"

abbrev pub max_active_tokens : ℕ
max_active_tokens = 10

abbrev pub max_token_name_len : ℕ
max_token_name_len = 100

abbrev pub default_expiry_days : ℤ
default_expiry_days = pos 90

abbrev pub max_expiry_days : ℕ
max_expiry_days = 730

-- a row of api_tokens
pub record Token : Type 0 where
  pub id : ℕ
  pub user_id : Text
  pub name : Text
  pub token_hash : Text
  pub token_hint : Text
  pub created_at : Time
  pub expires_at : Option Time
  pub last_used_at : Option Time
  pub revoked_at : Option Time

-- The table: its rows and the next value of the serial column.
pub record Table : Type 0 where
  pub next_id : ℕ
  pub rows : List Token

abbrev pub is_null : Option Time → Bool
is_null none = true
is_null (some t) = false

-- `expires_at IS NULL OR expires_at > now()`
abbrev pub is_unexpired : Time → Option Time → Bool
is_unexpired now none = true
is_unexpired now (some t) = after t now

abbrev pub is_active : Time → Token → Bool
is_active now row = is_null row.revoked_at && is_unexpired now row.expires_at

pub data LookupError : Type 0 where
  no_rows lookup_failed : LookupError

-- The owner of a token, with the id for the update of last_used_at.
pub data Lookup : Type 0 where
  found : ℕ → Text → Lookup
  missing : LookupError → Lookup

unfoldable pub find_active : Time → Text → List Token → Lookup
find_active now hash [] = missing no_rows
find_active now hash (row ∷ rows) =
    if text_eq row.token_hash hash && is_active now row
    then found row.id row.user_id
    else find_active now hash rows

-- `UPDATE api_tokens SET last_used_at = now() WHERE id = $1`
unfoldable pub touch : Time → ℕ → List Token → List Token
touch now id [] = []
touch now id (row ∷ rows) =
    (if row.id == id then record row { last_used_at = some now } else row) ∷ touch now id rows

module _ (sha256_hex : Text → Text) where
  unfoldable pub lookup_token : Option Time → Text → List Token → Lookup
  lookup_token none plaintext rows = missing lookup_failed
  lookup_token (some now) plaintext rows = find_active now (sha256_hex plaintext) rows

-- What becomes of a request: the next handler, an error, or the SAML check in front of the next.
pub data Decision : Type 0 where
  serve database_error unauthorized require_account : Decision

abbrev pub of_lookup : Lookup → Decision
of_lookup (found id user) = serve
of_lookup (missing no_rows) = unauthorized
of_lookup (missing lookup_failed) = database_error

-- the request without a bearer token of ours
abbrev pub fall_through : Bool → Decision
fall_through saml_enabled = if saml_enabled then require_account else serve

abbrev pub bearer_token : Text → Text
bearer_token auth = trim_space (drop (length (codes "Bearer ")) auth)

unfoldable pub bearer_or_saml : (Text → Text) → Bool → Text → Option Time → List Token → Decision
bearer_or_saml sha256_hex saml_enabled auth outcome rows =
    if has_prefix auth (codes "Bearer ") && has_prefix (bearer_token auth) api_token_prefix
    then of_lookup (lookup_token sha256_hex outcome (bearer_token auth) rows)
    else fall_through saml_enabled

-- `SAMLUser`: the first of these attributes that is not empty, the subject of the session, or "local". An
-- absent attribute reads as the empty text.
abbrev pub user_attributes : List Text
user_attributes =
    codes "http://schemas.xmlsoap.org/ws/2005/05/identity/claims/upn"
    ∷ codes "http://schemas.xmlsoap.org/ws/2005/05/identity/claims/name"
    ∷ codes "http://schemas.xmlsoap.org/ws/2005/05/identity/claims/emailaddress"
    ∷ codes "eduPersonPrincipalName"
    ∷ codes "urn:oid:1.3.6.1.4.1.5923.1.1.1.6"
    ∷ codes "mail"
    ∷ codes "urn:oid:0.9.2342.19200300.100.1.3"
    ∷ codes "email"
    ∷ codes "uid"
    ∷ []

abbrev pub subject_or_local : Option Text → Text
subject_or_local none = codes "local"
subject_or_local (some subject) = if is_empty subject then codes "local" else subject

unfoldable pub first_attribute : (Text → Text) → List Text → Option Text → Text
first_attribute attribute [] subject = subject_or_local subject
first_attribute attribute (attr ∷ attrs) subject =
    if is_empty (attribute attr) then first_attribute attribute attrs subject else attribute attr

unfoldable pub saml_user : (Text → Text) → Option Text → Text
saml_user attribute subject = first_attribute attribute user_attributes subject

-- The answers of the handlers.
pub data Response : Type 0 where
  bad_request bad_name bad_days db_failure limit_reached internal_error : Response
  created : ℕ → Text → Text → Text → Time → Option Time → Response
  no_content not_found : Response
