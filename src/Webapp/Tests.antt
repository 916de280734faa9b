-- ===== src/Webapp/Tests.antt =====
-- webapp/ on concrete requests.
use cisco_netconf_mac_db.Common.{
  ℕ, pos, suc, leb, ◌≤◌, ◌≡◌, refl, true, false, ◌&&◌, none, some, List, [], ◌∷◌, Text, Time, codes,
  text_eq, has_prefix, if◌then◌else◌,
}
use cisco_netconf_mac_db.Webapp.Tokens.Trim.{trim_space, strip, strip_all}
use cisco_netconf_mac_db.Webapp.Tokens.{
  Token, Table, lookup_token, find_active, found, bearer_or_saml, bearer_token, serve, unauthorized,
  api_token_prefix, created, max_active_tokens,
}
use cisco_netconf_mac_db.Webapp.Tokens.Create.{
  CreateRequest, CreateOutcome, insert_token, create, count_active, hint_of,
}
use cisco_netconf_mac_db.Webapp.Tokens.Revoke.{is_id, revoke}
use cisco_netconf_mac_db.Webapp.Tokens.Laws.{IsOpen, bearer_or_saml_serves, revoke_closes}
use cisco_netconf_mac_db.Webapp.Tokens.Opens.{create_opens}
use cisco_netconf_mac_db.Webapp.Tokens.Limit.{start, creates, reached-IsWithin}
use cisco_netconf_mac_db.Webapp.Tokens.Race.{racing_creates_exceed}
use cisco_netconf_mac_db.Webapp.Search.Patterns.{
  mac_re, ip_re, host_re, matches, octets, host_chars,
}
use cisco_netconf_mac_db.Webapp.Search.{classify_all}
use cisco_netconf_mac_db.Webapp.Search.Laws.{records_of, classify_all_records}
use cisco_netconf_mac_db.Webapp.Admin.{
  has_role, has_admin_role, protect, served, protect_admin, role_claim_names,
}
use cisco_netconf_mac_db.Webapp.Admin.Laws.{IsClaimed, protect_admin_serves}

-- A hash and an encoding that change nothing, and a calendar of days of ten milliseconds.
abbrev sha : Text → Text
sha s = s

abbrev encode : List ℕ → Text
encode raw = raw

abbrev later : Time → ℕ → Time
later t days = pos 1000

abbrev raw : List ℕ
raw = codes "abcdefgh"

abbrev outcome : CreateOutcome
outcome = record { clock = pos 5; count = some (pos 5); random = some raw; insert = some (pos 6) }

abbrev request : CreateRequest
request = record { name = codes " ci "; expires_days = some (pos 30) }

abbrev no_tokens : Table
no_tokens = record { next_id = 1; rows = [] }

abbrev token : Token
token = record {
  id = 1;
  user_id = codes "ann";
  name = codes "ci";
  token_hash = codes "pfk_abcdefgh";
  token_hint = hint_of (codes "pfk_abcdefgh");
  created_at = pos 6;
  expires_at = some (pos 1000);
  last_used_at = none;
  revoked_at = none;
}

abbrev one_token : Table
one_token = record { next_id = 2; rows = token ∷ [] }

create-token : create sha encode later (codes "ann") (some request) outcome no_tokens ≡ (
  created 1
      (codes "ci")
      (codes "pfk_abcdefgh")
      (hint_of (codes "pfk_abcdefgh"))
      (pos 6)
      (some (pos 1000)),
  one_token,
)
unfolding create insert_token count_active trim_space strip_all strip has_prefix codes
create-token = refl

create_opens_example :
    lookup_token sha
      (some (pos 7))
      (codes "pfk_abcdefgh")
      (create sha encode later (codes "ann") (some request) outcome no_tokens).1.rows
    ≡ found 1 (codes "ann")
create_opens_example =
    create_opens sha encode later (codes "ann") (some request) outcome no_tokens (pos 7) 1
      (codes "ci") (codes "pfk_abcdefgh") (hint_of (codes "pfk_abcdefgh")) (pos 6) (some (pos 1000))
      (λ i. (create-token i).0) refl

reached-IsWithin_example :
    count_active
      (codes "ann")
      (pos 5)
      (create sha encode later (codes "ann") (some request) outcome no_tokens).1.rows
    ≤ max_active_tokens
reached-IsWithin_example =
    reached-IsWithin sha encode later (pos 5)
      (create sha encode later (codes "ann") (some request) outcome no_tokens).1
      (creates (codes "ann") (some request) outcome (start (pos 5)) (λ now h. cc h)) (codes "ann")

abbrev auth : Text
auth = codes "Bearer pfk_abcdefgh"

bearer-serve : bearer_or_saml sha true auth (some (pos 7)) one_token.rows ≡ serve
unfolding bearer_or_saml lookup_token find_active trim_space strip_all strip has_prefix codes
    text_eq
bearer-serve = refl

bearer-expired : bearer_or_saml sha true auth (some (pos 1000)) one_token.rows ≡ unauthorized
unfolding bearer_or_saml lookup_token find_active trim_space strip_all strip has_prefix codes
    text_eq
bearer-expired = refl

bearer_or_saml_serves_example :
    (has_prefix auth (codes "Bearer ") ≡ true)
    × (has_prefix (bearer_token auth) api_token_prefix ≡ true)
    × ((row : Token) × (now : Time) × (some (pos 7) ≡ some now)
        × IsOpen now (sha (bearer_token auth)) row one_token.rows)
bearer_or_saml_serves_example =
    bearer_or_saml_serves sha auth (some (pos 7)) one_token.rows bearer-serve

revoke_closes_example :
    let after_it = (revoke (codes "ann") (some (pos 1)) (some (pos 8)) one_token).1 in
    (find_active (pos 9) (codes "pfk_abcdefgh") after_it.rows ≡ found 1 (codes "bob")
      → (is_id (pos 1) 1 && text_eq (codes "bob") (codes "ann")) ≡ false)
    × (text_eq (codes "bob") (codes "ann") ≡ false
        → find_active (pos 9) (codes "pfk_abcdefgh") one_token.rows ≡ found 1 (codes "bob")
        → find_active (pos 9) (codes "pfk_abcdefgh") after_it.rows ≡ found 1 (codes "bob"))
revoke_closes_example =
    revoke_closes (pos 8) (pos 9) (pos 1) (codes "ann") (codes "pfk_abcdefgh") one_token 1
      (codes "bob")

-- Nine tokens.
abbrev nine_tokens : Table
nine_tokens = record {
  next_id = 10;
  rows = token ∷ token ∷ token ∷ token ∷ token ∷ token ∷ token ∷ token ∷ token ∷ [];
}

nine-count_active : suc (count_active (codes "ann") (pos 7) nine_tokens.rows) ≡ max_active_tokens
unfolding count_active text_eq codes
nine-count_active = refl

abbrev add_one : Text → Table → Table
add_one p table =
    (insert_token sha encode later (codes "ann") (codes "ci") p none (some (pos 7)) table).1

racing_creates_exceed_example :
    (leb max_active_tokens (count_active (codes "ann") (pos 7) nine_tokens.rows) ≡ false)
    × (count_active
          (codes "ann")
          (pos 7)
          (add_one (codes "pfk_y") (add_one (codes "pfk_x") nine_tokens)).rows
        ≡ suc max_active_tokens)
unfolding codes text_eq
racing_creates_exceed_example =
    racing_creates_exceed sha encode later (codes "ann") (codes "ci") (codes "ci") (codes "pfk_x")
      (codes "pfk_y") none none (pos 7) (pos 7) (pos 7) nine_tokens nine-count_active refl refl refl
      refl refl

patterns-tests :
    (mac_re (codes "AA-bb:00:11:22:33") ≡ true)
    × (mac_re (codes "aabb.0011.223") ≡ false)
    × (ip_re (codes "10.0.0.203") ≡ true)
    × (ip_re (codes "10.0.0.2030") ≡ false)
    × (host_re (codes "pc-1.example.com") ≡ true)
    × (host_re (codes "1pc") ≡ false)
unfolding mac_re ip_re host_re matches octets host_chars strip has_prefix codes
patterns-tests = (refl, refl, refl, refl, refl, refl)

classify_all_records_example :
    (classify_all (codes "10.0.0.9" ∷ codes " 10.0.0.9" ∷ [])).term_records
    ≡ records_of (codes "10.0.0.9" ∷ codes " 10.0.0.9" ∷ [])
classify_all_records_example = classify_all_records (codes "10.0.0.9" ∷ codes " 10.0.0.9" ∷ [])

abbrev claims : Text → List Text
claims name = if text_eq name (codes "roles") then codes "viewer" ∷ codes "admin" ∷ [] else []

protect_admin-served : protect_admin true true (some claims) (codes "admin") ≡ served
unfolding protect_admin protect has_admin_role has_role codes text_eq
protect_admin-served = refl

protect_admin_serves_example :
    (true ≡ true)
    × ((attrs : Text → List Text) × (some claims ≡ some attrs)
        × IsClaimed role_claim_names attrs (codes "admin"))
unfolding codes
protect_admin_serves_example =
    protect_admin_serves true (some claims) (codes "admin") refl protect_admin-served
