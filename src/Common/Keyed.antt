-- ===== src/Common/Keyed.antt =====
-- Go maps and keyed tables as association lists: a key stands once, and a write keeps its place.
use mathlib.Core.Path.{◌≡◌, refl, sym, ap, ◌∙◌}
use mathlib.Core.Logic.{◌↔◌, inl, inr}
use mathlib.Core.Bool.{Bool, true, false, ◌&&◌}
use mathlib.Core.Option.{Option, none, some}
use mathlib.Core.List.{List, [], ◌∷◌}
use native.Mathlib.Omega.{arith}
use Prim.Native.Nat.{ℕ, ◌+◌, ◌≤◌}
use cisco_netconf_mac_db.Common.Tests.{if◌then◌else◌, ◌==◌, Bool-cases}
use cisco_netconf_mac_db.Common.Lists.{All, length}
use cisco_netconf_mac_db.Common.Strings.{Text, text_eq, text_eq_iff}

pub record Eq {ℓ} (K : Type ℓ) : Type ℓ where
  pub beq : K → K → Bool
  pub beq_iff : (j k : K) → (beq j k ≡ true) ↔ (j ≡ k)

abbrev pub text_pair_beq : Text × Text → Text × Text → Bool
text_pair_beq (a, b) (c, d) = text_eq a c && text_eq b d

pub text_pair_beq_iff : (p q : Text × Text) → (text_pair_beq p q ≡ true) ↔ (p ≡ q)
text_pair_beq_iff (a, b) (c, d) = ground (arith, text_eq_iff a c, text_eq_iff b d)

abbrev pub text_ℕ_beq : Text × ℕ → Text × ℕ → Bool
text_ℕ_beq (a, b) (c, d) = text_eq a c && b == d

pub text_ℕ_beq_iff : (p q : Text × ℕ) → (text_ℕ_beq p q ≡ true) ↔ (p ≡ q)
text_ℕ_beq_iff (a, b) (c, d) = ground (arith, text_eq_iff a c)

instance abbrev pub text_has_eq : Eq Text
text_has_eq = record { beq = text_eq; beq_iff = text_eq_iff }

instance abbrev pub text_pair_has_eq : Eq (Text × Text)
text_pair_has_eq = record { beq = text_pair_beq; beq_iff = text_pair_beq_iff }

instance abbrev pub text_ℕ_has_eq : Eq (Text × ℕ)
text_ℕ_has_eq = record { beq = text_ℕ_beq; beq_iff = text_ℕ_beq_iff }

module _ {ℓ κ} {K : Type ℓ} {V : Type κ} ⦃e : Eq K⦄ where
  unfoldable pub lookup : K → List (K × V) → Option V
  lookup k [] = none
  lookup k ((j, v) ∷ m) = if e.beq j k then some v else lookup k m

  unfoldable pub insert : K → V → List (K × V) → List (K × V)
  insert k v [] = (k, v) ∷ []
  insert k v ((j, w) ∷ m) = if e.beq j k then (k, v) ∷ m else (j, w) ∷ insert k v m

  pub lookup-insert :
      (k j : K) (v : V) (m : List (K × V))
      → lookup j (insert k v m) ≡ (if e.beq k j then some v else lookup j m)
  unfolding lookup insert
  lookup-insert k j v [] = refl
  lookup-insert k j v ((i, w) ∷ m) =
      ground (arith, e.beq_iff k j, e.beq_iff i k, e.beq_iff i j, lookup-insert k j v m)

  pub lookup-insert_self : (k : K) (v : V) (m : List (K × V)) → lookup k (insert k v m) ≡ some v
  lookup-insert_self k v m = ground (arith, lookup-insert k k v m, e.beq_iff k k)

  -- Writing what is already there changes nothing.
  pub insert_same : (k : K) (v : V) (m : List (K × V)) → lookup k m ≡ some v → insert k v m ≡ m
  unfolding lookup insert
  insert_same k v [] h = cc
  insert_same k v ((i, w) ∷ m) h = ground (arith, e.beq_iff i k, insert_same k v m)

  -- The second of two writes to one key wins.
  pub insert-insert :
      (k : K) (v w : V) (m : List (K × V)) → insert k v (insert k w m) ≡ insert k v m
  unfolding insert
  insert-insert k v w [] = ground (arith, e.beq_iff k k)
  insert-insert k v w ((i, x) ∷ m) =
      ground (arith, e.beq_iff i k, e.beq_iff k k, insert-insert k v w m)

-- Every key stands once.
abbrev pub Distinct {ℓ κ} : {K : Type ℓ} {V : Type κ} ⦃e : Eq K⦄ → List (K × V) → Type κ
Distinct [] = Unit
Distinct ((k, v) ∷ m) = (lookup k m ≡ none) × Distinct m

module _ {ℓ κ} {K : Type ℓ} {V : Type κ} ⦃e : Eq K⦄ where
  pub insert-Distinct : (k : K) (v : V) (m : List (K × V)) → Distinct m → Distinct (insert k v m)
  unfolding lookup insert
  insert-Distinct k v [] d = (refl, tt)
  insert-Distinct k v ((i, w) ∷ m) (fresh, d) = elim (Bool-cases (e.beq i k)) [
    | inl t ↦
        let same : i ≡ k = (e.beq_iff i k).0 t in rw t (ap (λ x. lookup x m) (sym same) ∙ fresh, d)
    | inr f ↦ rw f (
      ground (arith, lookup-insert k i v m, e.beq_iff i k, e.beq_iff k i),
      insert-Distinct k v m d,
    )
  ]

  -- A predicate of all pairs survives a write that meets it.
  pub insert-All {ι} :
      (P : K × V → Type ι) (k : K) (v : V) (m : List (K × V))
      → P (k, v)
      → All P m
      → All P (insert k v m)
  unfolding insert
  insert-All P k v [] p h = (p, tt)
  insert-All P k v ((i, w) ∷ m) p (q, h) = elim (Bool-cases (e.beq i k)) [
    | inl t ↦ rw t (p, h)
    | inr f ↦ rw f (q, insert-All P k v m p h)
  ]

  pub length-insert : (k : K) (v : V) (m : List (K × V)) → length (insert k v m) ≤ length m + 1
  unfolding insert
  length-insert k v [] = omega arith
  length-insert k v ((i, w) ∷ m) = ground (arith, length-insert k v m)

abbrev pub option_text_beq : Option Text → Option Text → Bool
option_text_beq none none = true
option_text_beq none (some t) = false
option_text_beq (some s) none = false
option_text_beq (some s) (some t) = text_eq s t

pub option_text_beq_iff : (p q : Option Text) → (option_text_beq p q ≡ true) ↔ (p ≡ q)
option_text_beq_iff none none = ground arith
option_text_beq_iff none (some t) = ground arith
option_text_beq_iff (some s) none = ground arith
option_text_beq_iff (some s) (some t) = ground (arith, text_eq_iff s t)

instance abbrev pub option_text_has_eq : Eq (Option Text)
option_text_has_eq = record { beq = option_text_beq; beq_iff = option_text_beq_iff }
