-- ===== src/Collector/Leaves.antt =====
-- The walk over the two levels of a GPB-KV row that the MAC and ARP parsers share: a container's
-- fields, or the field itself where it has none.
use mathlib.Core.List.{foldl, foldl-append, append_assoc}
use cisco_netconf_mac_db.Common.{
  ◌≡◌, refl, ◌∙◌, Bool, true, false, Option, none, some, ◌<|>◌, if◌then◌else◌, List, [], ◌∷◌, ◌++◌,
  not,
}
use cisco_netconf_mac_db.Proto.{Field, children}

abbrev pub leaves_of : Field → List Field → List Field
leaves_of c [] = c ∷ []
leaves_of c (f ∷ fs) = f ∷ fs

-- The leaves of a row, in the order of the walk.
pub leaves : List Field → List Field
leaves [] = []
leaves (c ∷ cs) = leaves_of c (children c) ++ leaves cs

-- What `get` reads off the last element with the property, or else the default.
unfoldable pub read_last {ℓ κ} : {A : Type ℓ} {B : Type κ} → (A → Bool) → (A → B) → List A → B → B
read_last p get [] d = d
read_last p get (x ∷ xs) d = read_last p get xs (if p x then get x else d)

-- The last element with the property, where there is one.
abbrev pub last_of {ℓ} : {A : Type ℓ} → (A → Bool) → List A → Option A
last_of p [] = none
last_of p (x ∷ xs) = last_of p xs <|> (if p x then some x else none)

abbrev pub get_or {ℓ κ} : {A : Type ℓ} {B : Type κ} → (A → B) → B → Option A → B
get_or get d none = d
get_or get d (some x) = get x

pub read_last-eq-last_of {ℓ κ} :
    {A : Type ℓ} {B : Type κ} (p : A → Bool) (get : A → B) (xs : List A) (d : B)
    → read_last p get xs d ≡ get_or get d (last_of p xs)
unfolding read_last
read_last-eq-last_of p get [] d = refl
read_last-eq-last_of p get (x ∷ xs) d =
    read_last-eq-last_of p get xs (if p x then get x else d) ∙ finish (last_of p xs) (p x)
  where
    finish :
        (o : Option _) (b : Bool)
        → get_or get (if b then get x else d) o ≡ get_or get d (o <|> (if b then some x else none))
    finish none true = refl
    finish none false = refl
    finish (some y) b = refl

module _ {ℓ} {E : Type ℓ} (apply : E → Field → E) where
  unfoldable pub visit : List Field → Field → E → E
  visit [] c e = apply e c
  visit (f ∷ fs) c e = foldl apply e (f ∷ fs)

  -- `for _, container := range row.Fields`
  unfoldable pub walk_row : E → List Field → E
  unfolding visit
  walk_row e [] = e
  walk_row e (c ∷ cs) = walk_row (visit (children c) c e) cs

  visit-eq-foldl :
      (fs : List Field) (c : Field) (e : E) → visit fs c e ≡ foldl apply e (leaves_of c fs)
  unfolding visit
  visit-eq-foldl [] c e = refl
  visit-eq-foldl (f ∷ fs) c e = refl

  pub walk_row-eq-foldl : (e : E) (cs : List Field) → walk_row e cs ≡ foldl apply e (leaves cs)
  unfolding walk_row leaves
  walk_row-eq-foldl e [] = refl
  walk_row-eq-foldl e (c ∷ cs) =
      rw (
        walk_row-eq-foldl (visit (children c) c e) cs,
        visit-eq-foldl (children c) c e,
        foldl-append,
      )

-- `append` of an entry unless it is skipped, in front of the later entries.
pub skip-append {ℓ} :
    {A : Type ℓ} (skip : Bool) (x : A) (xs ys : List A)
    → (if skip then xs else xs ++ x ∷ []) ++ ys ≡ xs ++ (if not skip then x ∷ ys else ys)
skip-append true x xs ys = refl
skip-append false x xs ys = append_assoc xs (x ∷ []) ys
