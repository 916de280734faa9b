-- ===== src/Webapp/DbView/Pages.antt =====
-- The pages of a table in webapp/internal/dbview, one after another.
use mathlib.Core.List.{Permᴰ}
use mathlib.Core.Path.{subst}
use cisco_netconf_mac_db.Common.{
  ◌%◌, negsuc, ℕ, zero, suc, pos, int64, ◌+◌, ◌-◌, ◌*◌, ◌^◌, ◌≤◌, ◌<◌, ◌≡◌, refl, sym, ap, ◌∙◌,
  Bool, Bool-cases, leb, ◌⊎◌, inl, inr, some, List, [], ◌∷◌, ◌++◌, Text, is_empty, keep, take, drop,
  length, arith, if◌then◌else◌,
}
use cisco_netconf_mac_db.Webapp.DbView.Query.{pages_of, offset_of}
use cisco_netconf_mac_db.Webapp.DbView.Select.{newest_first, select, matching, pattern_of}
use cisco_netconf_mac_db.Webapp.DbView.Table.{
  Outcome, Response, method_not_allowed, invalid_table, database_error, answer, table_page,
}
use cisco_netconf_mac_db.Webapp.DbView.Laws.{
  IsDescending, newest_first-Permᴰ, newest_first-IsDescending, length-newest_first, pages_lem,
}

take-nil {ℓ} : {A : Type ℓ} (n : ℕ) → take {A = A} n [] ≡ []
take-nil zero = refl
take-nil (suc n) = refl

take-append {ℓ} :
    {A : Type ℓ} (m k : ℕ) (xs : List A) → take m xs ++ take k (drop m xs) ≡ take (m + k) xs
take-append zero k xs = let same : k ≡ 0 + k = omega arith in ap (λ n. take n xs) same
take-append (suc m) k [] = take-nil k ∙ sym (take-nil (suc m + k))
take-append (suc m) k (x ∷ xs) =
    let same : suc (m + k) ≡ suc m + k = omega arith in
    ap (λ r. x ∷ r) (take-append m k xs) ∙ ap (λ n. take n (x ∷ xs)) same

take_all {ℓ} : {A : Type ℓ} (n : ℕ) (xs : List A) → length xs ≤ n → take n xs ≡ xs
take_all zero [] h = refl
take_all zero (x ∷ xs) h = absurd (omega arith)
take_all (suc n) [] h = refl
take_all (suc n) (x ∷ xs) h = ap (λ r. x ∷ r) (take_all n xs (omega arith))

length-keep {ℓ} : {A : Type ℓ} (p : A → Bool) (xs : List A) → length (keep p xs) ≤ length xs
length-keep p [] = omega arith
length-keep p (x ∷ xs) = ground (arith, length-keep p xs)

int64_small : (n : ℕ) → n < 2 ^ 63 → int64 n ≡ pos n
int64_small n h = ground arith

int64_wrapped : (n : ℕ) → n % 2 ^ 64 < 2 ^ 63 → int64 n ≡ pos (n % 2 ^ 64)
int64_wrapped n h = ground arith

int64_large : (n : ℕ) → 2 ^ 63 ≤ n % 2 ^ 64 → int64 n ≡ negsuc (2 ^ 64 - n % 2 ^ 64 - 1)
int64_large n h = ground arith

offset_small : (n size : ℕ) → n * size < 2 ^ 63 → offset_of (suc n) size ≡ pos (n * size)
unfolding offset_of
offset_small n size h =
    let same : suc n - 1 ≡ n = omega arith in
    ap (λ k. int64 (k * size)) same ∙ int64_small (n * size) h

abbrev pub rows_of : {R : Type 0} → Response (List R) → List R
rows_of (answer r) = r.rows
rows_of method_not_allowed = []
rows_of invalid_table = []
rows_of database_error = []

module _ (ilike : Text → Text → Bool) {R : Type 0} (id : R → ℕ) (columns : R → List Text) where
  -- All statements see the same rows.
  abbrev pub snapshot : List R → Outcome R
  snapshot rows = record { total = some rows; filtered = some rows; selected = some rows }

  -- The rows that a search asks for.
  abbrev pub asked : Text → List R → List R
  asked q rows = if is_empty q then rows else matching ilike columns (pattern_of q) rows

  -- The rows of the pages 1 to n, one after another.
  abbrev pub first_pages : ℕ → Text → ℕ → List R → List R
  first_pages zero q size rows = []
  first_pages (suc n) q size rows =
      first_pages n q size rows
      ++ rows_of (table_page ilike id columns q (suc n) size (snapshot rows))

  page-rows :
      (q : Text) (n size : ℕ) (rows : List R)
      → n * size < 2 ^ 63
      → rows_of (table_page ilike id columns q (suc n) size (snapshot rows))
        ≡ take size (drop (n * size) (newest_first id (asked q rows)))
  unfolding table_page select
  page-rows q n size rows h = elim (Bool-cases (is_empty q)) [
    | inl t ↦ rw (t, offset_small n size h) refl
    | inr f ↦ rw (f, offset_small n size h) refl
  ]

  near_page :
      (q : Text) (page size : ℕ) (rows : List R)
      → (page - 1) * size % 2 ^ 64 < 2 ^ 63
      → rows_of (table_page ilike id columns q page size (snapshot rows))
        ≡ take size (drop ((page - 1) * size % 2 ^ 64) (newest_first id (asked q rows)))
  unfolding table_page select offset_of
  near_page q page size rows h = elim (Bool-cases (is_empty q)) [
    | inl t ↦ rw (t, int64_wrapped ((page - 1) * size) h) refl
    | inr f ↦ rw (f, int64_wrapped ((page - 1) * size) h) refl
  ]

  far_page :
      (q : Text) (page size : ℕ) (rows : List R)
      → 2 ^ 63 ≤ (page - 1) * size % 2 ^ 64
      → table_page ilike id columns q page size (snapshot rows) ≡ database_error
  unfolding table_page select offset_of
  far_page q page size rows h = elim (Bool-cases (is_empty q)) [
    | inl t ↦ rw (t, int64_large ((page - 1) * size) h) refl
    | inr f ↦ rw (f, int64_large ((page - 1) * size) h) refl
  ]

  first_pages-eq :
      (n : ℕ) (q : Text) (size : ℕ) (rows : List R)
      → n * size < 2 ^ 63
      → first_pages n q size rows ≡ take (n * size) (newest_first id (asked q rows))
  first_pages-eq zero q size rows h =
      let none_of : 0 ≡ 0 * size = omega arith in
      ap (λ k. take k (newest_first id (asked q rows))) none_of
  first_pages-eq (suc n) q size rows h =
      let lt : n * size < 2 ^ 63 = grind arith in
      let next : n * size + size ≡ suc n * size = grind arith in
      let all = newest_first id (asked q rows) in
      ap (λ l. l ++ rows_of (table_page ilike id columns q (suc n) size (snapshot rows)))
        (first_pages-eq n q size rows lt)
      ∙ ap (λ l. take (n * size) all ++ l) (page-rows q n size rows lt)
      ∙ take-append (n * size) size all
      ∙ ap (λ k. take k all) next

  length-asked : (q : Text) (rows : List R) → length (asked q rows) ≤ length rows
  unfolding matching
  length-asked q rows = elim (Bool-cases (is_empty q)) [
    | inl t ↦ rw t (omega arith)
    | inr f ↦ rw f (length-keep _ rows)
  ]

  -- The pages from the first to the last that the response names give, while the table does not change,
  -- each row that is asked for exactly once, by descending id. The number of rows is assumed to leave
  -- room for a page below 2 ^ 63.
  pub first_pages_cover :
      (q : Text) (size : ℕ) (rows : List R)
      → 1 ≤ size
      → length rows + size < 2 ^ 63
      → let all = first_pages (pages_of (length (asked q rows)) size) q size rows in
        Permᴰ all (asked q rows) × IsDescending id all
  first_pages_cover q size rows one small =
      let (some_page, room, near) = pages_lem (length (asked q rows)) size one in
      let few = length-asked q rows in
      let n = pages_of (length (asked q rows)) size in
      let all : first_pages n q size rows ≡ newest_first id (asked q rows) =
        first_pages-eq n q size rows (omega arith)
        ∙ take_all (n * size) (newest_first id (asked q rows))
            (omega (arith, length-newest_first id (asked q rows))) in
      (
        subst (λ l. Permᴰ l (asked q rows)) (sym all) (newest_first-Permᴰ id (asked q rows)),
        subst (IsDescending id) (sym all) (newest_first-IsDescending id (asked q rows)),
      )

  -- While the table does not change, page `page` shows, of the rows that are asked for by descending
  -- id, at most `size` from the position (page - 1) * size modulo 2 ^ 64 on, if that is below 2 ^ 63; if
  -- it is not, the offset is negative, and the answer is a database error.
  pub wrapped_page :
      (q : Text) (page size : ℕ) (rows : List R)
      → let position = (page - 1) * size % 2 ^ 64 in
        ((position < 2 ^ 63)
          × (rows_of (table_page ilike id columns q page size (snapshot rows))
              ≡ take size (drop position (newest_first id (asked q rows)))))
        ⊎ ((2 ^ 63 ≤ position)
            × (table_page ilike id columns q page size (snapshot rows) ≡ database_error))
  wrapped_page q page size rows = elim (Bool-cases (leb (2 ^ 63) ((page - 1) * size % 2 ^ 64))) [
    | inl t ↦
        let large : 2 ^ 63 ≤ (page - 1) * size % 2 ^ 64 = ground arith in
        inr (large, far_page q page size rows large)
    | inr f ↦
        let small : (page - 1) * size % 2 ^ 64 < 2 ^ 63 = ground arith in
        inl (small, near_page q page size rows small)
  ]
