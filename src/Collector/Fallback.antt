-- ===== src/Collector/Fallback.antt =====
-- A value set by some elements of a walk, and by others only while it is absent. The VLAN name
-- (direct, or nested under `state`) and the access and voice VLANs of an interface
-- (`switchport-config`, or the bare `switchport`) are set this way.
use mathlib.Core.List.{foldl}
use cisco_netconf_mac_db.Common.{◌≡◌, refl, ◌∙◌, Option, none, some, List, [], ◌∷◌, ◌<|>◌}

regroup {κ} :
    {B : Type κ} (l s o w r : Option B)
    → l <|> (((s <|> o) <|> w) <|> r) ≡ (l <|> s) <|> (o <|> (w <|> r))
regroup (some l) s o w r = refl
regroup none (some s) o w r = refl
regroup none none (some o) w r = refl
regroup none none none w r = refl

base {κ} : {B : Type κ} (o : Option B) → o ≡ o <|> none
base (some o) = refl
base none = refl

or-none {κ} : {B : Type κ} (o : Option B) → o <|> none ≡ o
or-none none = refl
or-none (some b) = refl

or_assoc {κ} : {B : Type κ} (o p q : Option B) → o <|> (p <|> q) ≡ (o <|> p) <|> q
or_assoc none p q = refl
or_assoc (some b) p q = refl

module _ {ℓ κ} {A : Type ℓ} {B : Type κ} where
  -- The last value that `f` gives.
  unfoldable pub last_some : (A → Option B) → List A → Option B
  last_some f [] = none
  last_some f (x ∷ xs) = last_some f xs <|> f x

  -- The first value that `f` gives.
  unfoldable pub first_some : (A → Option B) → List A → Option B
  first_some f [] = none
  first_some f (x ∷ xs) = f x <|> first_some f xs

  -- `strong` overwrites; `weak` fills in.
  abbrev pub fall_back : (A → Option B) → (A → Option B) → Option B → A → Option B
  fall_back strong weak o x = (strong x <|> o) <|> weak x

  pub foldl-fall_back :
      (strong weak : A → Option B) (o : Option B) (xs : List A)
      → foldl (fall_back strong weak) o xs ≡ last_some strong xs <|> (o <|> first_some weak xs)
  unfolding last_some first_some
  foldl-fall_back strong weak o [] = base o
  foldl-fall_back strong weak o (x ∷ xs) =
      foldl-fall_back strong weak (fall_back strong weak o x) xs
      ∙ regroup (last_some strong xs) (strong x) o (weak x) (first_some weak xs)

-- A member of a state that each step of a fold changes by `fall_back`.
pub foldl-member {ℓ κ ι} :
    {A : Type ℓ} {B : Type κ} {S : Type ι} (step : S → A → S) (member : S → Option B)
    (strong weak : A → Option B)
    → ((s : S) (x : A) → member (step s x) ≡ fall_back strong weak (member s) x)
    → (s : S) (xs : List A)
    → member (foldl step s xs) ≡ last_some strong xs <|> (member s <|> first_some weak xs)
foldl-member {A} {B} {S} step member strong weak h s xs =
    go s xs ∙ foldl-fall_back strong weak (member s) xs
  where
    go :
        (s : S) (xs : List A)
        → member (foldl step s xs) ≡ foldl (fall_back strong weak) (member s) xs
    go s [] = refl
    go s (x ∷ xs) = go (step s x) xs ∙ λ i. foldl (fall_back strong weak) (h s x i) xs

abbrev pub value_or {ℓ} : {A : Type ℓ} → A → Option A → A
value_or d none = d
value_or d (some a) = a

-- A member of a state that the steps of a fold only overwrite.
pub foldl-overwritten {ℓ κ ι} :
    {A : Type ℓ} {B : Type κ} {S : Type ι} (step : S → A → S) (member : S → B)
    (strong : A → Option B)
    → ((s : S) (x : A) → member (step s x) ≡ value_or (member s) (strong x))
    → (s : S) (xs : List A) → member (foldl step s xs) ≡ value_or (member s) (last_some strong xs)
unfolding last_some
foldl-overwritten step member strong h s [] = refl
foldl-overwritten {A} {B} {S} step member strong h s (x ∷ xs) =
    foldl-overwritten step member strong h (step s x) xs
    ∙ (λ i. value_or (h s x i) (last_some strong xs))
    ∙ chain (last_some strong xs) (strong x)
  where
    chain : (o p : Option B) → value_or (value_or (member s) p) o ≡ value_or (member s) (o <|> p)
    chain none p = refl
    chain (some b) p = refl

-- A member of a state that no step of a fold changes.
pub foldl-kept {ℓ κ ι} :
    {A : Type ℓ} {B : Type κ} {S : Type ι} (step : S → A → S) (member : S → B)
    → ((s : S) (x : A) → member (step s x) ≡ member s)
    → (s : S) (xs : List A) → member (foldl step s xs) ≡ member s
foldl-kept step member h s [] = refl
foldl-kept step member h s (x ∷ xs) = foldl-kept step member h (step s x) xs ∙ h s x

-- An optional member that starts absent and that the steps of a fold only overwrite.
pub foldl-last_some {ℓ κ ι} :
    {A : Type ℓ} {B : Type κ} {S : Type ι} (step : S → A → S) (member : S → Option B)
    (strong : A → Option B)
    → ((s : S) (x : A) → member (step s x) ≡ strong x <|> member s)
    → (s : S) (xs : List A) → member s ≡ none
    → member (foldl step s xs) ≡ last_some strong xs
unfolding last_some
foldl-last_some step member strong h s [] e = e
foldl-last_some {A} {B} {S} step member strong h s (x ∷ xs) e =
    go (step s x) xs ∙ (λ i. last_some strong xs <|> first i)
  where
    first : member (step s x) ≡ strong x
    first = h s x ∙ (λ i. strong x <|> e i) ∙ or-none (strong x)

    go : (s : S) (xs : List A) → member (foldl step s xs) ≡ last_some strong xs <|> member s
    go s [] = refl
    go s (x ∷ xs) =
        go (step s x) xs
        ∙ (λ i. last_some strong xs <|> h s x i)
        ∙ or_assoc (last_some strong xs) (strong x) (member s)
