-- ===== src/Common/First.antt =====
-- The rows that DISTINCT ON takes: one for each key, the first of its order.
use mathlib.Core.List.{List, [], ◌∷◌, Memᴰ}
use mathlib.Core.List.Memᴰ
use mathlib.Core.Path.{◌≡◌, refl, sym, ap, ◌∙◌, subst}
use mathlib.Core.Logic.{inl, inr}
use mathlib.Core.Bool.{Bool, true, false}
use mathlib.Core.Option.{Option, none, some, some-injective}
use native.Mathlib.Omega.{arith}
use cisco_netconf_mac_db.Common.Tests.{if◌then◌else◌, Bool-cases, Option-cases}
use cisco_netconf_mac_db.Common.Lists.{All}
use cisco_netconf_mac_db.Common.Keyed.{
  Eq, lookup, lookup-insert, Distinct, insert-Distinct, insert-All,
}
use cisco_netconf_mac_db.Common.Group.{values, choose, group, distinct_on}

module _ {ℓ κ} {K : Type ℓ} {R : Type κ} ⦃e : Eq K⦄ (key : R → K) (before : R → R → Bool) where
  -- The first of the rows of a key.
  abbrev pub best : K → List R → Option R
  best k [] = none
  best k (r ∷ rows) =
      let rest = best k rows in if e.beq (key r) k then some (choose key before r rest) else rest

  pub lookup-group : (k : K) (rows : List R) → lookup k (group key before rows) ≡ best k rows
  unfolding group lookup
  lookup-group k [] = refl
  lookup-group k (r ∷ rows) =
      let g = group key before rows in
      lookup-insert (key r) k (choose key before r (lookup (key r) g)) g
      ∙ elim (Bool-cases (e.beq (key r) k)) [
        | inl t ↦
            let same : key r ≡ k = (e.beq_iff (key r) k).0 t in
            rw t (
              ap (λ o. some (choose key before r o))
                (ap (λ j. lookup j g) same ∙ lookup-group k rows))
        | inr f ↦ rw f (lookup-group k rows)
      ]

  group-Distinct : (rows : List R) → Distinct (group key before rows)
  unfolding group
  group-Distinct [] = tt
  group-Distinct (r ∷ rows) =
      insert-Distinct (key r) _ (group key before rows) (group-Distinct rows)

  best-key : (k : K) (rows : List R) (r : R) → best k rows ≡ some r → key r ≡ k
  best-key k [] r h = absurd (grind (arith, h))
  best-key k (s ∷ rows) r h = elim (Option-cases (best k rows)) [
    | inl n ↦ ground (arith, e.beq_iff (key s) k)
    | inr (s', g) ↦ ground (arith, e.beq_iff (key s) k, best-key k rows s' g)
  ]

  chosen-key :
      (r : R) (rows : List R)
      → key r ≡ key (choose key before r (lookup (key r) (group key before rows)))
  chosen-key r rows = elim (Option-cases (lookup (key r) (group key before rows))) [
    | inl n ↦ rw n refl
    | inr (s, g) ↦
        let same : key s ≡ key r = best-key (key r) rows s (sym (lookup-group (key r) rows) ∙ g) in
        rw g (elim (Bool-cases (before s r)) [ inl t ↦ rw t (sym same) | inr f ↦ rw f refl ])
  ]

  IsKeyed : K × R → Type ℓ
  IsKeyed p = p.0 ≡ key p.1

  group-IsKeyed : (rows : List R) → All IsKeyed (group key before rows)
  unfolding group IsKeyed
  group-IsKeyed [] = tt
  group-IsKeyed (r ∷ rows) =
      insert-All IsKeyed (key r) _ (group key before rows) (chosen-key r rows) (group-IsKeyed rows)

  stored :
      (m : List (K × R)) (r : R)
      → Distinct m
      → All IsKeyed m
      → Memᴰ r (values m)
      → lookup (key r) m ≡ some r
  unfolding lookup IsKeyed
  stored [] r d h n = absurd (Memᴰ.not-nil n)
  stored ((k, s) ∷ m) r (fresh, d) (q, h) n = elim (Memᴰ.cases_cons n) [
    | inl same ↦ ground (arith, e.beq_iff k (key r), q, ap key same)
    | inr later ↦
        let rest = stored m r d h later in
        elim (Bool-cases (e.beq k (key r))) [
          | inl t ↦
              let gone : lookup (key r) m ≡ none =
                ap (λ j. lookup j m) (sym ((e.beq_iff k (key r)).0 t)) ∙ fresh in
              absurd (grind (arith, gone, rest))
          | inr f ↦ rw f rest
        ]
  ]

  -- A row that is taken is what the group of its key has.
  taken :
      (rows : List R) (r : R) → Memᴰ r (distinct_on key before rows) → best (key r) rows ≡ some r
  taken rows r m =
      sym (lookup-group (key r) rows)
      ∙ stored (group key before rows) r (group-Distinct rows) (group-IsKeyed rows) m

  values-lookup : (m : List (K × R)) (k : K) (r : R) → lookup k m ≡ some r → Memᴰ r (values m)
  unfolding lookup
  values-lookup [] k r h = absurd (grind (arith, h))
  values-lookup ((j, s) ∷ m) k r h = elim (Bool-cases (e.beq j k)) [
    | inl t ↦ Memᴰ.head (ground arith)
    | inr f ↦ Memᴰ.tail (values-lookup m k r (ground arith))
  ]

  -- No row of the key stands before this one.
  abbrev pub IsFirst : R → R → Type ℓ
  IsFirst r s = key s ≡ key r → before s r ≡ false

  best-some :
      (k : K) (rows : List R) (r : R) → Memᴰ r rows → key r ≡ k → (s : R) × (best k rows ≡ some s)
  best-some k [] r m h = absurd (Memᴰ.not-nil m)
  best-some k (s ∷ rows) r m h = elim (Bool-cases (e.beq (key s) k)) [
    | inl t ↦ (choose key before s (best k rows), rw t refl)
    | inr f ↦ elim (Memᴰ.cases_cons m) [
      | inl same ↦ absurd (ground (arith, e.beq_iff (key s) k, ap key same))
      | inr later ↦ let (x, g) = best-some k rows r later h in (x, rw f g)
    ]
  ]

  -- A row whose key no other row has.
  alone-IsFirst :
      (k : K) (rows : List R) (r : R) → key r ≡ k → best k rows ≡ none → All (IsFirst r) rows
  alone-IsFirst k [] r h n = tt
  alone-IsFirst k (s ∷ rows) r h n = elim (Bool-cases (e.beq (key s) k)) [
    | inl t ↦ absurd (grind (arith, rw t at n))
    | inr f ↦ (
      λ same. absurd (ground (arith, e.beq_iff (key s) k, same ∙ h)),
      alone-IsFirst k rows r h (rw f at n),
    )
  ]

  module _ (asymm : (a b : R) → before a b ≡ true → before b a ≡ false)
      (trans : (a b c : R) → before b a ≡ false → before c b ≡ false → before c a ≡ false) where
    irrefl : (a : R) → before a a ≡ false
    irrefl a = ground (arith, asymm a a)

    IsFirst-before :
        (r s : R) (rows : List R)
        → key s ≡ key r
        → before s r ≡ false
        → All (IsFirst s) rows
        → All (IsFirst r) rows
    IsFirst-before r s [] h b hs = tt
    IsFirst-before r s (t ∷ rows) h b (q, hs) =
        (λ same. trans r s t b (q (same ∙ sym h)), IsFirst-before r s rows h b hs)

    -- The chosen one of a row and the first of the rows behind it.
    choose-IsFirst :
        (s c : R) (rows : List R)
        → key c ≡ key s
        → All (IsFirst c) rows
        → All (IsFirst (choose key before s (some c))) (s ∷ rows)
    choose-IsFirst s c rows same hs = elim (Bool-cases (before c s)) [
      | inl t ↦
          subst (λ b. All (IsFirst (if b then c else s)) (s ∷ rows)) (sym t) (λ k. asymm c s t, hs)
      | inr f ↦
          subst (λ b. All (IsFirst (if b then c else s)) (s ∷ rows)) (sym f)
            (λ k. irrefl s, IsFirst-before s c rows same f hs)
    ]

    best-IsFirst : (k : K) (rows : List R) (r : R) → best k rows ≡ some r → All (IsFirst r) rows
    best-IsFirst k [] r h = tt
    best-IsFirst k (s ∷ rows) r h = elim (Bool-cases (e.beq (key s) k)) [
      | inl t ↦
          let at_key : key s ≡ k = (e.beq_iff (key s) k).0 t in
          let chosen : choose key before s (best k rows) ≡ r = some-injective _ _ (rw t at h) in
          let first_of : (o : Option R)
              → best k rows ≡ o
              → All (IsFirst (choose key before s o)) (s ∷ rows)
              → All (IsFirst (choose key before s (best k rows))) (s ∷ rows) =
            λ o same. subst (λ x. All (IsFirst (choose key before s x)) (s ∷ rows)) (sym same) in
          subst (λ x. All (IsFirst x) (s ∷ rows)) chosen
            (elim (Option-cases (best k rows)) [
              | inl n ↦ first_of none n (λ same. irrefl s, alone-IsFirst k rows s at_key n)
              | inr (c, g) ↦ first_of (some c) g (
                  choose-IsFirst s c rows (best-key k rows c g ∙ sym at_key)
                    (best-IsFirst k rows c g))
            ])
      | inr f ↦
          let rest : best k rows ≡ some r = rw f at h in
          (
            λ same. absurd (ground (arith, e.beq_iff (key s) k, same ∙ best-key k rows r rest)),
            best-IsFirst k rows r rest,
          )
    ]

    -- Each key of the rows has just one row that is taken, which is one of them and stands before none of its key.
    pub distinct_on_lem :
        (rows : List R)
        → ((r : R) → Memᴰ r rows → (s : R) × Memᴰ s (distinct_on key before rows) × (key s ≡ key r))
          × ((s : R) → Memᴰ s (distinct_on key before rows) → All (IsFirst s) rows)
          × ((s s' : R)
              → Memᴰ s (distinct_on key before rows)
              → Memᴰ s' (distinct_on key before rows)
              → key s ≡ key s'
              → s ≡ s')
    distinct_on_lem rows = (
      λ r m.
          let (s, g) = best-some (key r) rows r m refl in
          (
            s,
            values-lookup (group key before rows) (key r) s (lookup-group (key r) rows ∙ g),
            best-key (key r) rows s g,
          ),
      λ s m. best-IsFirst (key s) rows s (taken rows s m),
      λ s s' m m' same.
          some-injective _ _ (sym (taken rows s m) ∙ ap (λ k. best k rows) same ∙ taken rows s' m'),
    )
