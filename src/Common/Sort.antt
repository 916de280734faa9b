-- ===== src/Common/Sort.antt =====
-- A stable sort by insertion, for ORDER BY: `before a b` says that `a` has to stand before `b`.
use mathlib.Core.List.{List, [], ◌∷◌, Permᴰ}
use mathlib.Core.List.{Memᴰ}
use mathlib.Core.List.Memᴰ
use mathlib.Core.List.Permᴰ
use mathlib.Core.Path.{◌≡◌, refl}
use mathlib.Core.Logic.{inl, inr, ◌↔◌}
use mathlib.Core.Bool.{Bool, true, false}
use native.Mathlib.Omega.{arith}
use cisco_netconf_mac_db.Common.Tests.{if◌then◌else◌, Bool-cases}
use Prim.Native.Nat.{suc}
use cisco_netconf_mac_db.Common.Lists.{All, length}

module _ {ℓ} {A : Type ℓ} (before : A → A → Bool) where
  unfoldable pub insert_sorted : A → List A → List A
  insert_sorted a [] = a ∷ []
  insert_sorted a (b ∷ bs) =
      let rest = insert_sorted a bs in if before b a then b ∷ rest else a ∷ b ∷ bs

  unfoldable pub sort : List A → List A
  sort [] = []
  sort (a ∷ xs) = insert_sorted a (sort xs)

  -- No element has to stand before an earlier one.
  abbrev pub IsSorted : List A → Type ℓ
  IsSorted [] = Unit
  IsSorted (a ∷ xs) = All (λ b. before b a ≡ false) xs × IsSorted xs

  insert-Permᴰ : (a : A) (xs : List A) → Permᴰ (insert_sorted a xs) (a ∷ xs)
  unfolding insert_sorted
  insert-Permᴰ a [] = Permᴰ.refl (a ∷ [])
  insert-Permᴰ a (b ∷ bs) = elim (Bool-cases (before b a)) [
    | inl t ↦ rw t (Permᴰ.trans (Permᴰ.cons refl (insert-Permᴰ a bs)) (Permᴰ.swap refl refl))
    | inr f ↦ rw f (Permᴰ.refl (a ∷ b ∷ bs))
  ]

  pub sort-Permᴰ : (xs : List A) → Permᴰ (sort xs) xs
  unfolding sort
  sort-Permᴰ [] = Permᴰ.nil
  sort-Permᴰ (a ∷ xs) = Permᴰ.trans (insert-Permᴰ a (sort xs)) (Permᴰ.cons refl (sort-Permᴰ xs))

  insert_sorted-All {κ} :
      (P : A → Type κ) (a : A) (xs : List A) → P a → All P xs → All P (insert_sorted a xs)
  unfolding insert_sorted
  insert_sorted-All P a [] p h = (p, tt)
  insert_sorted-All P a (b ∷ bs) p (q, h) = elim (Bool-cases (before b a)) [
    | inl t ↦ rw t (q, insert_sorted-All P a bs p h)
    | inr f ↦ rw f (p, (q, h))
  ]

  module _ (asymm : (a b : A) → before a b ≡ true → before b a ≡ false)
      (trans : (a b c : A) → before b a ≡ false → before c b ≡ false → before c a ≡ false) where
    All-le :
        (a b : A) (cs : List A)
        → before b a ≡ false
        → All (λ c. before c b ≡ false) cs
        → All (λ c. before c a ≡ false) cs
    All-le a b [] h hs = tt
    All-le a b (c ∷ cs) h (k, hs) = (trans a b c h k, All-le a b cs h hs)

    insert-IsSorted : (a : A) (xs : List A) → IsSorted xs → IsSorted (insert_sorted a xs)
    unfolding insert_sorted
    insert-IsSorted a [] d = (tt, tt)
    insert-IsSorted a (b ∷ bs) (h, d) = elim (Bool-cases (before b a)) [
      | inl t ↦
          rw t (
            insert_sorted-All (λ c. before c b ≡ false) a bs (asymm b a t) h,
            insert-IsSorted a bs d,
          )
      | inr f ↦ rw f ((f, All-le a b bs f h), (h, d))
    ]

    pub sort-IsSorted : (xs : List A) → IsSorted (sort xs)
    unfolding sort
    sort-IsSorted [] = tt
    sort-IsSorted (a ∷ xs) = insert-IsSorted a (sort xs) (sort-IsSorted xs)

module _ {ℓ} {A : Type ℓ} (before : A → A → Bool) where
  length-insert_sorted :
      (a : A) (xs : List A) → length (insert_sorted before a xs) ≡ suc (length xs)
  unfolding insert_sorted
  length-insert_sorted a [] = refl
  length-insert_sorted a (b ∷ bs) = ground (arith, length-insert_sorted a bs)

  pub length-sort : (xs : List A) → length (sort before xs) ≡ length xs
  unfolding sort
  length-sort [] = refl
  length-sort (a ∷ xs) = omega (arith, length-insert_sorted a (sort before xs), length-sort xs)

  mem_insert_sorted : (x a : A) (xs : List A) → Memᴰ x (insert_sorted before a xs) ↔ Memᴰ x (a ∷ xs)
  unfolding insert_sorted
  mem_insert_sorted x a [] = (λ m. m, λ m. m)
  mem_insert_sorted x a (b ∷ bs) = elim (Bool-cases (before b a)) [
    | inl t ↦ rw t (swapped (mem_insert_sorted x a bs))
    | inr f ↦ rw f (λ m. m, λ m. m)
  ]
    where
      swapped : {ys : List A} → Memᴰ x ys ↔ Memᴰ x (a ∷ bs) → Memᴰ x (b ∷ ys) ↔ Memᴰ x (a ∷ b ∷ bs)
      swapped h = (
        λ m. elim (Memᴰ.cases_cons m) [
          | inl e ↦ Memᴰ.tail (Memᴰ.head e)
          | inr n ↦ elim (Memᴰ.cases_cons (h.0 n)) [
            | inl e ↦ Memᴰ.head e
            | inr k ↦ Memᴰ.tail (Memᴰ.tail k)
          ]
        ],
        λ m. elim (Memᴰ.cases_cons m) [
          | inl e ↦ Memᴰ.tail (h.1 (Memᴰ.head e))
          | inr n ↦ elim (Memᴰ.cases_cons n) [
            | inl e ↦ Memᴰ.head e
            | inr k ↦ Memᴰ.tail (h.1 (Memᴰ.tail k))
          ]
        ],
      )

  -- Sorting keeps the elements.
  pub mem-sort : (x : A) (xs : List A) → Memᴰ x (sort before xs) ↔ Memᴰ x xs
  unfolding sort
  mem-sort x [] = (λ m. m, λ m. m)
  mem-sort x (a ∷ xs) = (
    λ m. elim (Memᴰ.cases_cons ((mem_insert_sorted x a (sort before xs)).0 m)) [
      | inl e ↦ Memᴰ.head e
      | inr n ↦ Memᴰ.tail ((mem-sort x xs).0 n)
    ],
    λ m. elim (Memᴰ.cases_cons m) [
      | inl e ↦ (mem_insert_sorted x a (sort before xs)).1 (Memᴰ.head e)
      | inr n ↦ (mem_insert_sorted x a (sort before xs)).1 (Memᴰ.tail ((mem-sort x xs).1 n))
    ],
  )
