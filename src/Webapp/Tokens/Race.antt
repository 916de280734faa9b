-- ===== src/Webapp/Tokens/Race.antt =====
-- The limit on active tokens of webapp/internal/tokens, when two creations overlap: both count before
-- either inserts.
use cisco_netconf_mac_db.Common.{
  ℕ, suc, leb, ◌≡◌, refl, ap, ◌∙◌, Bool, true, false, Option, some, List, [], ◌∷◌, ◌++◌, Text, Time,
  text_eq, text_eq_refl, any, arith,
}
use cisco_netconf_mac_db.Webapp.Tokens.{Token, Table, is_unexpired, is_active, max_active_tokens}
use cisco_netconf_mac_db.Webapp.Tokens.Create.{count_active, insert_token}
use cisco_netconf_mac_db.Webapp.Tokens.Opens.{new_row, with_row}

count_new_active :
    (user : Text) (t : Time) (rows : List Token) (row : Token)
    → text_eq row.user_id user ≡ true
    → is_active t row ≡ true
    → count_active user t (rows ++ row ∷ []) ≡ suc (count_active user t rows)
unfolding count_active
count_new_active user t [] row same active = rw (same, active) refl
count_new_active user t (r ∷ rows) row same active =
    ground (arith, count_new_active user t rows row)

any-new :
    (p : Token → Bool) (rows : List Token) (row : Token)
    → any p rows ≡ false
    → p row ≡ false
    → any p (rows ++ row ∷ []) ≡ false
any-new p [] row h f = rw f refl
any-new p (r ∷ rows) row h f = ground (arith, any-new p rows row)

module _ (sha256_hex : Text → Text) (base64 : List ℕ → Text) (add_days : Time → ℕ → Time) where
  abbrev add : Text → Text → Text → Option Time → Time → Table → Table
  add user name plaintext expires_at now table =
      (insert_token sha256_hex base64 add_days user name plaintext expires_at (some now) table).1

  abbrev is_taken : Text → Table → Bool
  is_taken plaintext table =
      any (λ (row : Token). text_eq row.token_hash (sha256_hex plaintext)) table.rows

  add-eq :
      (user name plaintext : Text) (expires_at : Option Time) (now : Time) (table : Table)
      → is_taken plaintext table ≡ false
      → add user name plaintext expires_at now table
        ≡ with_row table (new_row sha256_hex user name plaintext expires_at now table)
  unfolding insert_token
  add-eq user name plaintext expires_at now table fresh = rw (fresh, add) refl

  -- The limit is no limit when two creations of a user overlap: with one token less than the limit, both of
  -- the counts let their creation through, and after both insertions the user has one token more than the
  -- limit.
  pub racing_creates_exceed :
      (user name name' p p' : Text) (e e' : Option Time) (now now' t : Time) (table : Table)
      → suc (count_active user t table.rows) ≡ max_active_tokens
      → is_taken p table ≡ false
      → is_taken p' table ≡ false
      → text_eq (sha256_hex p) (sha256_hex p') ≡ false
      → is_unexpired t e ≡ true
      → is_unexpired t e' ≡ true
      → (leb max_active_tokens (count_active user t table.rows) ≡ false)
        × (count_active user t (add user name' p' e' now' (add user name p e now table)).rows
            ≡ suc max_active_tokens)
  racing_creates_exceed user name name' p p' e e' now now' t table full free free' differ live
        live' =
      let row = new_row sha256_hex user name p e now table in
      let one : add user name p e now table ≡ with_row table row =
        add-eq user name p e now table free in
      let row' = new_row sha256_hex user name' p' e' now' (with_row table row) in
      let two : add user name' p' e' now' (with_row table row)
          ≡ with_row (with_row table row) row' =
        add-eq user name' p' e' now' (with_row table row) (
          any-new (λ (r : Token). text_eq r.token_hash (sha256_hex p')) table.rows row free'
            differ) in
      let first : count_active user t (table.rows ++ row ∷ [])
          ≡ suc (count_active user t table.rows) =
        count_new_active user t table.rows row (text_eq_refl user) live in
      let second : count_active user t (table.rows ++ row ∷ [] ++ row' ∷ [])
          ≡ suc (count_active user t (table.rows ++ row ∷ [])) =
        count_new_active user t (table.rows ++ row ∷ []) row' (text_eq_refl user) live' in
      (
        ground arith,
        ap (λ (x : Table). count_active user t (add user name' p' e' now' x).rows) one
            ∙ ap (λ (x : Table). count_active user t x.rows) two
            ∙ second
            ∙ ap suc first
            ∙ ap suc full,
      )
