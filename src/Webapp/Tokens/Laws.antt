-- ===== src/Webapp/Tokens/Laws.antt =====
-- What a token of webapp/internal/tokens opens, from its creation to its revocation.
use mathlib.Core.List.{Memᴰ}
use cisco_netconf_mac_db.Common.{
  ℕ, ℤ, ◌≡◌, refl, Bool, true, false, Bool-cases, ◌&&◌, inl, inr, Option, none, some, List, [], ◌∷◌,
  Text, Time, codes, text_eq, text_eq_iff, has_prefix, arith,
}
use cisco_netconf_mac_db.Webapp.Tokens.{
  Token, Table, is_active, no_rows, lookup_failed, Lookup, found, missing, find_active,
  lookup_token, serve, of_lookup, fall_through, bearer_token, bearer_or_saml, api_token_prefix,
}
use cisco_netconf_mac_db.Webapp.Tokens.Revoke.{is_id, set_revoked, revoke}

-- A row that lets a token in.
abbrev pub IsOpen : Time → Text → Token → List Token → Type 0
IsOpen now hash row rows = Memᴰ row rows × (row.token_hash ≡ hash) × (is_active now row ≡ true)

both : (a b : Bool) → (a && b) ≡ true → (a ≡ true) × (b ≡ true)
both a b h = ground arith

find_active_sound :
    (now : Time) (hash : Text) (rows : List Token) (id : ℕ) (user : Text)
    → find_active now hash rows ≡ found id user
    → (row : Token) × IsOpen now hash row rows × (row.user_id ≡ user) × (row.id ≡ id)
unfolding find_active
find_active_sound now hash [] id user h = cc h
find_active_sound now hash (row ∷ rows) id user h =
    elim (Bool-cases (text_eq row.token_hash hash && is_active now row)) [
      | inl t ↦
          let (same, active) = both (text_eq row.token_hash hash) (is_active now row) t in
          let e : found row.id row.user_id ≡ found id user = rw t at h in
          (row, (Memᴰ.head refl, (text_eq_iff row.token_hash hash).0 same, active), cc e, cc e)
      | inr f ↦
          let (r, (m, o, a), u, i) = find_active_sound now hash rows id user (rw f at h) in
          (r, (Memᴰ.tail m, o, a), u, i)
    ]

module _ (sha256_hex : Text → Text) where
  serve_sound :
      (outcome : Option Time) (plaintext : Text) (rows : List Token)
      → of_lookup (lookup_token sha256_hex outcome plaintext rows) ≡ serve
      → (row : Token) × (now : Time) × (outcome ≡ some now)
        × IsOpen now (sha256_hex plaintext) row rows
  unfolding lookup_token
  serve_sound none plaintext rows h = cc h
  serve_sound (some now) plaintext rows h =
      opened (find_active now (sha256_hex plaintext) rows) refl h
    where
      opened :
          (l : Lookup)
          → find_active now (sha256_hex plaintext) rows ≡ l
          → of_lookup l ≡ serve
          → (row : Token) × (t : Time) × (some now ≡ some t)
            × IsOpen t (sha256_hex plaintext) row rows
      opened (found id user) e h =
          let (row, o, u, i) = find_active_sound now (sha256_hex plaintext) rows id user e in
          (row, now, refl, o)
      opened (missing no_rows) e h = cc h
      opened (missing lookup_failed) e h = cc h

  -- Where SAML is enabled, a request is served without it only if it presents a bearer token with the
  -- prefix of the application whose hash stands in a row that is neither revoked nor expired at the time of
  -- the lookup.
  pub bearer_or_saml_serves :
      (auth : Text) (outcome : Option Time) (rows : List Token)
      → bearer_or_saml sha256_hex true auth outcome rows ≡ serve
      → (has_prefix auth (codes "Bearer ") ≡ true)
        × (has_prefix (bearer_token auth) api_token_prefix ≡ true)
        × ((row : Token) × (now : Time) × (outcome ≡ some now)
            × IsOpen now (sha256_hex (bearer_token auth)) row rows)
  unfolding bearer_or_saml
  bearer_or_saml_serves auth outcome rows h =
      elim (Bool-cases
        (has_prefix auth (codes "Bearer ") && has_prefix (bearer_token auth) api_token_prefix)) [
          | inl t ↦
              let (p, q) =
                both (has_prefix auth (codes "Bearer "))
                  (has_prefix (bearer_token auth) api_token_prefix) t in
              (p, q, serve_sound outcome (bearer_token auth) rows (rw t at h))
          | inr f ↦ let e : fall_through true ≡ serve = rw f at h in cc e
        ]

module _ (now t : Time) (id : ℤ) (user hash : Text) where
  closes :
      (rows : List Token) (i : ℕ) (u : Text)
      → find_active t hash (set_revoked now id user rows) ≡ found i u
      → (is_id id i && text_eq u user) ≡ false
  unfolding find_active set_revoked
  closes [] i u h = cc h
  closes (row ∷ rows) i u h = ground (arith, closes rows i u)

  keeps :
      (rows : List Token) (i : ℕ) (u : Text)
      → text_eq u user ≡ false
      → find_active t hash rows ≡ found i u
      → find_active t hash (set_revoked now id user rows) ≡ found i u
  unfolding find_active set_revoked
  keeps [] i u other h = h
  keeps (row ∷ rows) i u other h = ground (arith, keeps rows i u)

  -- After a user revokes a token, no lookup, at whatever time, finds it as theirs, and every lookup that
  -- found a token of another user finds the same as before.
  pub revoke_closes :
      (table : Table) (i : ℕ) (u : Text)
      → let after_it = (revoke user (some id) (some now) table).1 in
        (find_active t hash after_it.rows ≡ found i u → (is_id id i && text_eq u user) ≡ false)
        × (text_eq u user ≡ false
            → find_active t hash table.rows ≡ found i u
            → find_active t hash after_it.rows ≡ found i u)
  unfolding revoke
  revoke_closes table i u = (closes table.rows i u, keeps table.rows i u)
