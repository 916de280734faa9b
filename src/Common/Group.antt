-- ===== src/Common/Group.antt =====
-- `SELECT DISTINCT ON (key) ... ORDER BY key, ...`: of the rows of each key the one that stands first. Of two rows
-- that the order leaves equal, the one that stands first in the table is taken.
use mathlib.Core.List.{List, [], ◌∷◌}
use mathlib.Core.Path.{◌≡◌, subst}
use mathlib.Core.Logic.{inl, inr}
use mathlib.Core.Bool.{Bool}
use mathlib.Core.Option.{Option, none, some}
use native.Mathlib.Omega.{arith}
use cisco_netconf_mac_db.Common.Tests.{if◌then◌else◌, Bool-cases, Option-cases}
use cisco_netconf_mac_db.Common.Lists.{All}
use cisco_netconf_mac_db.Common.Keyed.{Eq, lookup, insert}

abbrev pub values {ℓ κ} : {K : Type ℓ} {V : Type κ} → List (K × V) → List V
values [] = []
values ((k, v) ∷ m) = v ∷ values m

module _ {ℓ κ} {K : Type ℓ} {R : Type κ} ⦃e : Eq K⦄ (key : R → K) (before : R → R → Bool) where
  abbrev pub choose : R → Option R → R
  choose r none = r
  choose r (some s) = if before s r then s else r

  unfoldable pub group : List R → List (K × R)
  group [] = []
  group (r ∷ rows) = let g = group rows in insert (key r) (choose r (lookup (key r) g)) g

  abbrev pub distinct_on : List R → List R
  distinct_on rows = values (group rows)

module _ {ℓ κ} {K : Type ℓ} {R : Type κ} ⦃e : Eq K⦄ (key : R → K) (before : R → R → Bool) where
  values_insert-All {ι} :
      (P : R → Type ι) (k : K) (r : R) (m : List (K × R))
      → P r
      → All P (values m)
      → All P (values (insert k r m))
  unfolding insert
  values_insert-All P k r [] p h = (p, tt)
  values_insert-All P k r ((j, s) ∷ m) p (q, h) = elim (Bool-cases (e.beq j k)) [
    | inl t ↦ rw t (p, h)
    | inr f ↦ rw f (q, values_insert-All P k r m p h)
  ]

  lookup-All {ι} :
      (P : R → Type ι) (k : K) (m : List (K × R)) (r : R)
      → All P (values m)
      → lookup k m ≡ some r
      → P r
  unfolding lookup
  lookup-All P k [] r h e' = absurd (ground arith)
  lookup-All P k ((j, s) ∷ m) r (q, h) g = elim (Bool-cases (e.beq j k)) [
    | inl t ↦ subst P (ground arith) q
    | inr f ↦ lookup-All P k m r h (ground arith)
  ]

  -- What holds of all rows holds of those that are taken.
  pub distinct_on-All {ι} :
      (P : R → Type ι) (rows : List R) → All P rows → All P (distinct_on key before rows)
  unfolding group
  distinct_on-All P [] h = tt
  distinct_on-All P (r ∷ rows) (p, h) =
      let rest = distinct_on-All P rows h in
      let g = group key before rows in
      values_insert-All P (key r) (choose key before r (lookup (key r) g)) g
        (elim (Option-cases (lookup (key r) g)) [
          | inl n ↦ rw n p
          | inr (s, found) ↦ rw found (elim (Bool-cases (before s r)) [
            | inl t ↦ rw t (lookup-All P (key r) g s rest found)
            | inr f ↦ rw f p
          ])
        ])
        rest
