-- ===== src/Collector/Nested/Laws.antt =====
-- `find_nested_field` finds exactly the field that a path leads to, and module prefixes do not
-- matter.
use mathlib.Core.Option
use cisco_netconf_mac_db.Common.{
  ℕ, suc, ◌≡◌, ◌≢◌, ◌↔◌, refl, ◌∙◌, ap, Bool-cases, Option-cases, inl, inr, Option, none, some,
  List, [], ◌∷◌, ◌++◌, map, Text, text_eq, text_eq_iff, drop, arith,
}
use cisco_netconf_mac_db.Proto.{Field, Fields, field, nil, cons, name, children, to_list}
use cisco_netconf_mac_db.Collector.Nested.{last_index, local_name, find_match, find_nested_field}

-- `f` is the first of the fields whose local name is `n`.
pub data First (n : Text) : List Field → Field → Type 0 where
  here : {f : Field} {fs : List Field} → local_name (name f) ≡ n → First n (f ∷ fs) f
  there :
      {g f : Field} {fs : List Field} → local_name (name g) ≢ n → First n fs f → First n (g ∷ fs) f

-- Following the steps of the path from the fields leads to `f`.
pub data Leads : List Field → List Text → Field → Type 0 where
  last : {cur : List Field} {n : Text} {f : Field} → First n cur f → Leads cur (n ∷ []) f
  step :
      {cur : List Field} {n m : Text} {path : List Text} {g f : Field}
      → First n cur g
      → Leads (children g) (m ∷ path) f
      → Leads cur (n ∷ m ∷ path) f

find_match_sound :
    (cur : List Field) (n : Text) (f : Field) → find_match cur n ≡ some f → First n cur f
unfolding find_match
find_match_sound [] n f e = cc
find_match_sound (g ∷ cur) n f e = elim (Bool-cases (text_eq (local_name (name g)) n)) [
  | inl t ↦
      let same : g ≡ f = ground arith in
      rw (← same) (here ((text_eq_iff (local_name (name g)) n).0 t))
  | inr t ↦
      there (λ p. cc ((text_eq_iff (local_name (name g)) n).1 p))
        (find_match_sound cur n f (rw t at e))
]

find_match_complete :
    {n : Text} {cur : List Field} {f : Field} → First n cur f → find_match cur n ≡ some f
unfolding find_match
find_match_complete {n} (here {f = f} p) = rw ((text_eq_iff (local_name (name f)) n).1 p)
find_match_complete {n} (there {g = g} ne h) =
    ground (arith, text_eq_iff (local_name (name g)) n, find_match_complete h)

find_nested_field_sound :
    (cur : List Field) (path : List Text) (f : Field)
    → find_nested_field cur path ≡ some f
    → Leads cur path f
unfolding find_nested_field
find_nested_field_sound cur [] f e = cc
find_nested_field_sound cur (n ∷ []) f e = last (find_match_sound cur n f e)
find_nested_field_sound cur (n ∷ m ∷ path) f e = elim (Option-cases (find_match cur n)) [
  | inl h ↦ cc
  | inr (g, h) ↦
      step (find_match_sound cur n g h)
        (find_nested_field_sound (children g) (m ∷ path) f (rw (h, find_nested_field) at e))
]

find_nested_field_complete :
    {cur : List Field} {path : List Text} {f : Field}
    → Leads cur path f
    → find_nested_field cur path ≡ some f
unfolding find_nested_field
find_nested_field_complete (last h) = find_match_complete h
find_nested_field_complete (step h l) =
    rw (find_match_complete h, find_nested_field) (find_nested_field_complete l)

-- A field is found exactly if it is where the path leads: at each step the first field whose name,
-- its module prefix taken off, is the step.
pub find_nested_field_iff :
    (cur : List Field) (path : List Text) (f : Field)
    → (find_nested_field cur path ≡ some f) ↔ Leads cur path f
find_nested_field_iff cur path f = (find_nested_field_sound cur path f, find_nested_field_complete)

-- Put the same module prefix before every name of a tree.
mutual
  pub qualify : Text → Field → Field
  qualify p (field t n v fs) = field t (p ++ b':' ∷ n) v (qualify_all p fs)

  pub qualify_all : Text → Fields → Fields
  qualify_all p nil = nil
  qualify_all p (cons f fs) = cons (qualify p f) (qualify_all p fs)

abbrev shift : Text → ℕ → ℕ
shift [] k = k
shift (c ∷ p) k = suc (shift p k)

abbrev after_colon : Option ℕ → ℕ
after_colon none = 0
after_colon (some i) = suc i

last_index-append :
    (p n : Text)
    → last_index (p ++ b':' ∷ n) b':' ≡ some (shift p (after_colon (last_index n b':')))
unfolding last_index
last_index-append [] n = elim (Option-cases (last_index n b':')) [
  | inl e ↦ rw e
  | inr (i, e) ↦ rw e
]
last_index-append (c ∷ p) n = rw (last_index-append p n)

drop-shift : (p n : Text) (k : ℕ) → drop (suc (shift p k)) (p ++ b':' ∷ n) ≡ drop k n
drop-shift [] n k = refl
drop-shift (c ∷ p) n k = drop-shift p n k

local_name_qualified : (p n : Text) → local_name (p ++ b':' ∷ n) ≡ local_name n
unfolding local_name
local_name_qualified p n =
    rw (last_index-append p n, local_name) (drop-shift p n _ ∙ finish (last_index n b':'))
  where
    finish :
        (o : Option ℕ) → drop (after_colon o) n ≡ elim o [ none ↦ n | some idx ↦ drop (suc idx) n ]
    finish none = refl
    finish (some i) = refl

name-qualify : (p : Text) (f : Field) → local_name (name (qualify p f)) ≡ local_name (name f)
name-qualify p (field t n v fs) = unfold qualify in local_name_qualified p n

to_list-qualify_all :
    (p : Text) (fs : Fields) → to_list (qualify_all p fs) ≡ map (qualify p) (to_list fs)
unfolding qualify_all
to_list-qualify_all p nil = refl
to_list-qualify_all p (cons g gs) = ap (λ r. qualify p g ∷ r) (to_list-qualify_all p gs)

children-qualify : (p : Text) (f : Field) → children (qualify p f) ≡ map (qualify p) (children f)
unfolding qualify
children-qualify p (field t n v fs) = to_list-qualify_all p fs

find_match-qualify :
    (p : Text) (cur : List Field) (n : Text)
    → find_match (map (qualify p) cur) n ≡ Option.map (qualify p) (find_match cur n)
unfolding find_match
find_match-qualify p [] n = refl
find_match-qualify p (f ∷ fs) n =
    rw (name-qualify p f) (elim (Bool-cases (text_eq (local_name (name f)) n)) [
      | inl e ↦ rw e
      | inr e ↦ rw e (find_match-qualify p fs n)
    ])

-- A YANG module prefix before every name of the tree does not change which field a path finds.
pub find_nested_field-qualify :
    (p : Text) (cur : List Field) (path : List Text)
    → find_nested_field (map (qualify p) cur) path
      ≡ Option.map (qualify p) (find_nested_field cur path)
unfolding find_nested_field
find_nested_field-qualify p cur [] = refl
find_nested_field-qualify p cur (n ∷ []) = find_match-qualify p cur n
find_nested_field-qualify p cur (n ∷ m ∷ path) = elim (Option-cases (find_match cur n)) [
  | inl e ↦ rw (find_match-qualify p cur n, find_nested_field) (rw (e, find_nested_field) refl)
  | inr (f, e) ↦
      rw (find_match-qualify p cur n, find_nested_field)
        (rw (e, find_nested_field)
          (rw (children-qualify p f) (find_nested_field-qualify p (children f) (m ∷ path))))
]
