-- ===== src/Webapp/Tokens/Opens.antt =====
-- What a call of CreateHandler in webapp/internal/tokens comes to, and what its token opens.
use cisco_netconf_mac_db.Common.{
  ℕ, suc, length, leb, ltb, ◌≡◌, refl, sym, ap, ◌∙◌, Bool, true, false, Bool-cases, ◌||◌, ◌⊎◌, inl,
  inr, Option, none, some, List, [], ◌∷◌, ◌++◌, Text, Time, text_eq, text_eq_refl, is_empty, any,
  arith,
}
use cisco_netconf_mac_db.Webapp.Tokens.Trim.{trim_space}
use cisco_netconf_mac_db.Webapp.Tokens.{
  bad_request, bad_name, bad_days, db_failure, limit_reached, internal_error, max_active_tokens,
  max_token_name_len, Token, Table, is_unexpired, is_active, found, find_active, lookup_token,
  Response, created,
}
use cisco_netconf_mac_db.Webapp.Tokens.Create.{
  CreateRequest, CreateOutcome, count_active, bad_expiry, days_of, expiry, plaintext_of, generate,
  check_limit, create, insert_token, hint_of,
}

abbrev pub is_created : Response → Bool
is_created (created id name plaintext hint created_at expires_at) = true
is_created _ = false

abbrev pub new_row : (Text → Text) → Text → Text → Text → Option Time → Time → Table → Token
new_row sha256_hex user name plaintext expires_at now table = record {
  id = table.next_id;
  user_id = user;
  name = name;
  token_hash = sha256_hex plaintext;
  token_hint = hint_of plaintext;
  created_at = now;
  expires_at = expires_at;
  last_used_at = none;
  revoked_at = none;
}

abbrev pub with_row : Table → Token → Table
with_row table row = record { next_id = suc table.next_id; rows = table.rows ++ row ∷ [] }

module _ (sha256_hex : Text → Text) (base64 : List ℕ → Text) (add_days : Time → ℕ → Time) where
  find_active-new :
      (t : Time) (hash : Text) (rows : List Token) (row : Token)
      → any (λ (r : Token). text_eq r.token_hash hash) rows ≡ false
      → row.token_hash ≡ hash
      → is_active t row ≡ true
      → find_active t hash (rows ++ row ∷ []) ≡ found row.id row.user_id
  unfolding find_active
  find_active-new t hash [] row fresh same active = rw (same, text_eq_refl hash, active) refl
  find_active-new t hash (r ∷ rows) row fresh same active =
      ground (arith, find_active-new t hash rows row)

  abbrev pub insert' : Text → Text → Text → Option Time → Option Time → Table → Response × Table
  insert' = insert_token sha256_hex base64 add_days

  -- The insertion: refused with nothing changed, or the new row at the end.
  pub insert_cases :
      (user name plaintext : Text) (expires_at : Option Time) (o : Option Time) (table : Table)
      → (insert' user name plaintext expires_at o table ≡ (db_failure, table))
        ⊎ ((now : Time) × (o ≡ some now)
            × (any (λ (r : Token). text_eq r.token_hash (sha256_hex plaintext)) table.rows ≡ false)
            × (insert' user name plaintext expires_at o table ≡ (
              created table.next_id name plaintext (hint_of plaintext) now expires_at,
              with_row table (new_row sha256_hex user name plaintext expires_at now table),
            )))
  unfolding insert_token
  insert_cases user name plaintext expires_at none table = inl refl
  insert_cases user name plaintext expires_at (some now) table =
      elim (Bool-cases
        (any (λ (r : Token). text_eq r.token_hash (sha256_hex plaintext)) table.rows)) [
          | inl dup ↦ inl (rw dup refl)
          | inr fresh ↦ inr (now, refl, fresh, rw fresh refl)
        ]

  -- What CreateHandler comes to: an error with nothing changed, or an insertion below the limit.
  pub data Comes (user : Text) (o : CreateOutcome) (table : Table) : Response × Table → Type 0 where
    refused : (x : Response) → is_created x ≡ false → Comes user o table (x, table)
    inserted :
        (name plaintext : Text) (expires_at : Option Time) (now : Time)
        → o.count ≡ some now
        → leb max_active_tokens (count_active user now table.rows) ≡ false
        → Comes user o table (insert' user name plaintext expires_at o.insert table)

  generate-Comes :
      (user name : Text) (expires_at : Option Time) (o : CreateOutcome) (random : Option (List ℕ))
      (table : Table) (now : Time)
      → o.count ≡ some now
      → leb max_active_tokens (count_active user now table.rows) ≡ false
      → Comes user o table (generate sha256_hex base64 add_days user name expires_at o random table)
  generate-Comes user name expires_at o none table now h l = refused internal_error refl
  generate-Comes user name expires_at o (some raw) table now h l =
      inserted name (plaintext_of sha256_hex base64 add_days raw) expires_at now h l

  limit-Comes :
      (user name : Text) (expires_at : Option Time) (o : CreateOutcome) (count : Option Time)
      (table : Table)
      → o.count ≡ count
      → Comes user o table
          (check_limit sha256_hex base64 add_days user name expires_at o count table)
  limit-Comes user name expires_at o none table h = refused db_failure refl
  limit-Comes user name expires_at o (some now) table h =
      elim (Bool-cases (leb max_active_tokens (count_active user now table.rows))) [
        | inl t ↦ rw t (refused limit_reached refl)
        | inr f ↦ rw f (generate-Comes user name expires_at o o.random table now h f)
      ]

  pub create-Comes :
      (user : Text) (req : Option CreateRequest) (o : CreateOutcome) (table : Table)
      → Comes user o table (create sha256_hex base64 add_days user req o table)
  unfolding create
  create-Comes user none o table = refused bad_request refl
  create-Comes user (some req) o table =
      elim (Bool-cases
        (is_empty (trim_space req.name) || ltb max_token_name_len (length (trim_space req.name)))) [
          | inl t ↦ rw t (refused bad_name refl)
          | inr f ↦ rw f (elim (Bool-cases (bad_expiry (days_of req.expires_days))) [
            | inl t ↦ rw t (refused bad_days refl)
            | inr g ↦ rw g (
                limit-Comes user (trim_space req.name)
                  (expiry sha256_hex base64 add_days o.clock (days_of req.expires_days)) o o.count
                  table refl)
          ])
        ]

  opens :
      (user : Text) (o : CreateOutcome) (table : Table) (r : Response × Table) (t : Time) (id : ℕ)
      (n p h : Text) (c : Time) (e : Option Time)
      → Comes user o table r
      → r.0 ≡ created id n p h c e
      → is_unexpired t e ≡ true
      → lookup_token sha256_hex (some t) p r.1.rows ≡ found id user
  unfolding lookup_token
  opens user o table r t id n p h c e (refused x wrong) made live = cc (wrong, ap is_created made)
  opens user o table r t id n p h c e (inserted name plaintext expires_at now k l) made live =
      elim (insert_cases user name plaintext expires_at o.insert table) [
        | inl q ↦ cc (ap (λ (x : Response × Table). x.0) q, made)
        | inr (at, i, fresh, q) ↦
            let row = new_row sha256_hex user name plaintext expires_at at table in
            let same : created table.next_id name plaintext (hint_of plaintext) at expires_at
                ≡ created id n p h c e =
              sym (ap (λ (x : Response × Table). x.0) q) ∙ made in
            let key : plaintext ≡ p = cc same in
            let number : table.next_id ≡ id = cc same in
            let until : expires_at ≡ e = cc same in
            ap (λ (x : Response × Table). find_active t (sha256_hex p) x.1.rows) q
            ∙ find_active-new t (sha256_hex p) table.rows row
                (ap (λ y. any (λ (r : Token). text_eq r.token_hash (sha256_hex y)) table.rows)
                    (sym key)
                  ∙ fresh)
                (ap sha256_hex key) (ap (is_unexpired t) until ∙ live)
            ∙ ap (λ k. found k user) number
      ]

  -- A token that CreateHandler returns lets its user in, under the id that it returns, at every time
  -- before the expiry that it returns.
  pub create_opens :
      (user : Text) (req : Option CreateRequest) (o : CreateOutcome) (table : Table) (t : Time)
      (id : ℕ) (name plaintext hint : Text) (created_at : Time) (expires_at : Option Time)
      → let r = create sha256_hex base64 add_days user req o table in
        r.0 ≡ created id name plaintext hint created_at expires_at
        → is_unexpired t expires_at ≡ true
        → lookup_token sha256_hex (some t) plaintext r.1.rows ≡ found id user
  create_opens user req o table t id name plaintext hint created_at expires_at made live =
      opens user o table (create sha256_hex base64 add_days user req o table) t id name plaintext
        hint created_at expires_at (create-Comes user req o table) made live
