-- ===== src/Webapp/Tokens/Limit.antt =====
-- The limit on active tokens of webapp/internal/tokens, when requests are handled one after another.
use cisco_netconf_mac_db.Common.{
  ℕ, ℤ, ◌+◌, ◌≤◌, ◌≤ℤ◌, leb, ◌≡◌, refl, sym, ap, ◌∙◌, false, Bool-cases, inl, inr, Option, none,
  some, List, [], ◌∷◌, ◌++◌, Text, Time, text_eq, text_eq_iff, arith, if◌then◌else◌,
}
use cisco_netconf_mac_db.Webapp.Tokens.{Token, Table, touch, Response, max_active_tokens}
use cisco_netconf_mac_db.Webapp.Tokens.Create.{CreateRequest, CreateOutcome, count_active, create}
use cisco_netconf_mac_db.Webapp.Tokens.Revoke.{set_revoked, revoke}
use cisco_netconf_mac_db.Webapp.Tokens.Opens.{
  new_row, insert_cases, Comes, refused, inserted, create-Comes,
}

-- Time only ends tokens.
count_later :
    (user : Text) (t t' : Time) (rows : List Token)
    → t ≤ℤ t'
    → count_active user t' rows ≤ count_active user t rows
unfolding count_active
count_later user t t' [] le = omega arith
count_later user t t' (row ∷ rows) le = ground (arith, count_later user t t' rows)

count_revoked :
    (user : Text) (t now : Time) (id : ℤ) (by : Text) (rows : List Token)
    → count_active user t (set_revoked now id by rows) ≤ count_active user t rows
unfolding count_active set_revoked
count_revoked user t now id by [] = omega arith
count_revoked user t now id by (row ∷ rows) = ground (arith, count_revoked user t now id by rows)

count_touched :
    (user : Text) (t now : Time) (id : ℕ) (rows : List Token)
    → count_active user t (touch now id rows) ≡ count_active user t rows
unfolding count_active touch
count_touched user t now id [] = refl
count_touched user t now id (row ∷ rows) = ground (arith, count_touched user t now id rows)

count_new :
    (user : Text) (t : Time) (rows : List Token) (row : Token)
    → count_active user t (rows ++ row ∷ [])
      ≤ count_active user t rows + (if text_eq row.user_id user then 1 else 0)
unfolding count_active
count_new user t [] row = ground arith
count_new user t (r ∷ rows) row = ground (arith, count_new user t rows row)

count_new_other :
    (user : Text) (t : Time) (rows : List Token) (row : Token)
    → text_eq row.user_id user ≡ false
    → count_active user t (rows ++ row ∷ []) ≤ count_active user t rows
count_new_other user t rows row h = let le = count_new user t rows row in ground arith

count_new_one :
    (user : Text) (t : Time) (rows : List Token) (row : Token)
    → count_active user t (rows ++ row ∷ []) ≤ count_active user t rows + 1
count_new_one user t rows row = ground (arith, count_new user t rows row)

module _ (sha256_hex : Text → Text) (base64 : List ℕ → Text) (add_days : Time → ℕ → Time) where
  abbrev pub empty : Table
  empty = record { next_id = 1; rows = [] }

  -- The tables that requests lead to from an empty one, with the time. Each request is handled whole before
  -- the next; the limit of a creation is counted at the time of the step. Other times, such as that of a
  -- revocation, may be any.
  pub data Reached : Time → Table → Type 0 where
    start : (t : Time) → Reached t empty
    wait : {t : Time} {table : Table} (t' : Time) → Reached t table → t ≤ℤ t' → Reached t' table
    creates :
        {t : Time} {table : Table} (user : Text) (req : Option CreateRequest) (o : CreateOutcome)
        → Reached t table
        → ((now : Time) → o.count ≡ some now → now ≡ t)
        → Reached t (create sha256_hex base64 add_days user req o table).1
    revokes :
        {t : Time} {table : Table} (user : Text) (id : Option ℤ) (o : Option Time)
        → Reached t table
        → Reached t (revoke user id o table).1
    touches :
        {t : Time} {table : Table} (now : Time) (id : ℕ)
        → Reached t table
        → Reached t (record table { rows = touch now id table.rows })

  abbrev pub IsWithin : Time → Table → Type 0
  IsWithin t table = (user : Text) → count_active user t table.rows ≤ max_active_tokens

  create-IsWithin :
      (user : Text) (o : CreateOutcome) (t : Time) (table : Table) (r : Response × Table)
      → ((now : Time) → o.count ≡ some now → now ≡ t)
      → Comes sha256_hex base64 add_days user o table r
      → IsWithin t table
      → (u : Text) → count_active u t r.1.rows ≤ max_active_tokens
  create-IsWithin user o t table r at (refused x wrong) w u = w u
  create-IsWithin user o t table r at (inserted name plaintext expires_at now k l) w u =
      elim (insert_cases sha256_hex base64 add_days user name plaintext expires_at o.insert table) [
        | inl q ↦ rw (ap (λ (x : Response × Table). x.1) q) (w u)
        | inr (now', i, fresh, q) ↦
            let row = new_row sha256_hex user name plaintext expires_at now' table in
            let below : leb max_active_tokens (count_active user t table.rows) ≡ false =
              ap (λ x. leb max_active_tokens (count_active user x table.rows)) (sym (at now k))
              ∙ l in
            rw (ap (λ (x : Response × Table). x.1) q) (elim (Bool-cases (text_eq user u)) [
              | inl same ↦
                  rw (← (text_eq_iff user u).0 same)
                    (ground (arith, count_new_one user t table.rows row))
              | inr other ↦ omega (arith, count_new_other u t table.rows row other, w u)
            ])
      ]

  revoke-IsWithin :
      (user : Text) (id : Option ℤ) (o : Option Time) (t : Time) (table : Table)
      → IsWithin t table
      → IsWithin t (revoke user id o table).1
  unfolding revoke
  revoke-IsWithin user none o t table w u = w u
  revoke-IsWithin user (some id) none t table w u = w u
  revoke-IsWithin user (some id) (some now) t table w u =
      omega (arith, w u, count_revoked u t now id user table.rows)

  -- While requests are handled one after another, no user ever has more active tokens than the limit.
  pub reached-IsWithin : (t : Time) (table : Table) → Reached t table → IsWithin t table
  unfolding count_active
  reached-IsWithin t table (start _) u = omega arith
  reached-IsWithin t table (wait {t = t0} _ r le) u =
      omega (arith, reached-IsWithin t0 table r u, count_later u t0 t table.rows le)
  reached-IsWithin t table (creates {table = before} user req o r at) u =
      create-IsWithin user o t before _ at
        (create-Comes sha256_hex base64 add_days user req o before) (reached-IsWithin t before r) u
  reached-IsWithin t table (revokes {table = before} user id o r) u =
      revoke-IsWithin user id o t before (reached-IsWithin t before r) u
  reached-IsWithin t table (touches {table = before} now id r) u =
      omega (arith, reached-IsWithin t before r u, count_touched u t now id before.rows)
