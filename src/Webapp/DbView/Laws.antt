-- ===== src/Webapp/DbView/Laws.antt =====
-- The order and the number of the rows that webapp/internal/dbview selects, and its parameters.
use mathlib.Core.List.{Permᴰ}
use native.Mathlib.Nat.{div-add-mod, mod-lt}
use cisco_netconf_mac_db.Common.{sort-Permᴰ, sort-IsSorted, length-sort, IsSorted}
use cisco_netconf_mac_db.Common.{
  ℕ, zero, suc, ℤ, pos, negsuc, Option, ◌==◌, ◌+◌, ◌-◌, ◌*◌, ◌/◌, ◌%◌, ◌^◌, ◌≤◌, ◌<◌, ltb, ◌≡◌,
  refl, false, Bool-cases, inl, inr, List, [], ◌∷◌, Text, length, All, arith, if◌then◌else◌,
}
use cisco_netconf_mac_db.Webapp.DbView.Query.{
  of_positive, of_negative, parse_digits, at_least_one, size_in_range, atoi, page_of, size_of,
  pages_of,
}
use cisco_netconf_mac_db.Webapp.DbView.Select.{newest_first}

-- An int is below 2 ^ 63.
IsInt : ℤ → Type 0
IsInt z = (n : ℕ) → z ≡ pos n → n < 2 ^ 63

positive-IsInt : (o : Option ℕ) → IsInt (of_positive o)
unfolding IsInt
positive-IsInt o n h = ground arith

negative-IsInt : (o : Option ℕ) → IsInt (of_negative o)
unfolding IsInt
negative-IsInt o n h = ground arith

atoi-IsInt : (s : Text) → IsInt (atoi s)
unfolding IsInt atoi
atoi-IsInt [] n h = ground arith
atoi-IsInt (c ∷ s) n h = elim (Bool-cases (c == b'-')) [
  | inl t ↦ negative-IsInt (parse_digits s) n (rw t at h)
  | inr f ↦ positive-IsInt (parse_digits (if c == b'+' then s else c ∷ s)) n (rw f at h)
]

page-bounds : (z : ℤ) → IsInt z → (1 ≤ at_least_one z) × (at_least_one z < 2 ^ 63)
unfolding IsInt
page-bounds (negsuc n) h = omega arith
page-bounds (pos n) h = let lt = h n refl in ground arith

size-bounds : (z : ℤ) → (1 ≤ size_in_range z) × (size_in_range z ≤ 1000)
size-bounds z = ground arith

-- Whatever the parameters `page` and `limit` are, the page is an int of at least 1, and the size of a page is
-- between 1 and 1000.
pub params_bounds :
    (page limit : Text)
    → (1 ≤ page_of page) × (page_of page < 2 ^ 63) × (1 ≤ size_of limit) × (size_of limit ≤ 1000)
unfolding page_of size_of
params_bounds page limit =
    let (p, q) = page-bounds (atoi page) (atoi-IsInt page) in
    let (l, m) = size-bounds (atoi limit) in (p, q, l, m)

module _ {R : Type 0} (id : R → ℕ) where
  -- Each row has an id of at least that of the next.
  abbrev pub IsDescending : List R → Type 0
  IsDescending [] = Unit
  IsDescending (r ∷ rows) = All (λ s. id s ≤ id r) rows × IsDescending rows

  pub newest_first-Permᴰ : (rows : List R) → Permᴰ (newest_first id rows) rows
  newest_first-Permᴰ rows = sort-Permᴰ (λ r s. ltb (id s) (id r)) rows

  at_most :
      (r : R) (rows : List R)
      → All (λ s. ltb (id r) (id s) ≡ false) rows
      → All (λ s. id s ≤ id r) rows
  at_most r [] h = tt
  at_most r (s ∷ rows) (q, h) = (ground arith, at_most r rows h)

  IsSorted-IsDescending :
      (rows : List R) → IsSorted (λ r s. ltb (id s) (id r)) rows → IsDescending rows
  IsSorted-IsDescending [] h = tt
  IsSorted-IsDescending (r ∷ rows) (q, h) = (at_most r rows q, IsSorted-IsDescending rows h)

  pub newest_first-IsDescending : (rows : List R) → IsDescending (newest_first id rows)
  newest_first-IsDescending rows = IsSorted-IsDescending _ (
      sort-IsSorted (λ r s. ltb (id s) (id r)) (λ r s h. ground arith) (λ r s t h k. ground arith)
        rows)

  pub length-newest_first : (rows : List R) → length (newest_first id rows) ≡ length rows
  length-newest_first rows = length-sort (λ r s. ltb (id s) (id r)) rows

ceiling :
    (p m filtered size : ℕ)
    → 1 ≤ size
    → size * p + m ≡ filtered + size - 1
    → m < size
    → let n = if ltb p 1 then 1 else p in
      (1 ≤ n) × (filtered ≤ n * size) × (n * size ≤ filtered + size)
ceiling zero m filtered size h e lt = omega arith
ceiling (suc p) m filtered size h e lt =
    let same : ltb (suc p) 1 ≡ false = ground arith in
    rw same (omega arith, grind arith, grind arith)

-- A page that is not behind the last one starts at a row, and the pages have room for all rows.
pub pages_lem :
    (filtered size : ℕ)
    → 1 ≤ size
    → (1 ≤ pages_of filtered size)
      × (filtered ≤ pages_of filtered size * size)
      × (pages_of filtered size * size ≤ filtered + size)
unfolding pages_of
pages_lem filtered size h =
    ceiling ((filtered + size - 1) / size) ((filtered + size - 1) % size) filtered size h
      (div-add-mod (filtered + size - 1) size) (mod-lt (filtered + size - 1) (omega arith))
