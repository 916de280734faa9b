-- ===== src/Collector/IfName/Laws.antt =====
-- What `expand_if_name` returns, and that a second pass changes nothing.
use cisco_netconf_mac_db.Common.{
  ℕ, ◌≡◌, refl, ap, true, ◌⊎◌, inl, inr, List, [], ◌∷◌, ◌++◌, Text, All, Bool-cases, length, drop,
  is_digit,
}
use cisco_netconf_mac_db.Collector.IfName.{prefixes, is_abbreviated, expand_from, expand_if_name}

-- A name that begins with a full prefix is left as it is.
abbrev IsFixed : Text × Text → Type 0
IsFixed p = (rest : Text) → expand_if_name (p.0 ++ rest) ≡ p.0 ++ rest

-- An abbreviation before a digit is replaced by its own full prefix.
abbrev pub IsExpanded : Text × Text → Type 0
IsExpanded p =
    (d : ℕ) (rest : Text) → is_digit d ≡ true → expand_if_name (p.1 ++ d ∷ rest) ≡ p.0 ++ d ∷ rest

prefixes-IsFixed : All IsFixed prefixes
unfolding expand_if_name
prefixes-IsFixed = (
  λ r. refl,
  (
    λ r. refl,
    (
      λ r. refl,
      (
        λ r. refl,
        (
          λ r. refl,
          (λ r. refl, (λ r. refl, (λ r. refl, (λ r. refl, (λ r. refl, (λ r. refl, tt)))))),
        ),
      ),
    ),
  ),
)

-- No entry of the table is shadowed by an earlier one: every abbreviation, put before a digit,
-- is expanded to the full prefix that stands beside it.
pub prefixes-IsExpanded : All IsExpanded prefixes
unfolding expand_if_name
prefixes-IsExpanded = (
  λ d r h. rw h,
  (
    λ d r h. rw h,
    (
      λ d r h. rw h,
      (
        λ d r h. rw h,
        (
          λ d r h. rw h,
          (
            λ d r h. rw h,
            (λ d r h. rw h, (λ d r h. rw h, (λ d r h. rw h, (λ d r h. rw h, (λ d r h. rw h, tt))))),
          ),
        ),
      ),
    ),
  ),
)

expand_from-cases :
    (ps : List (Text × Text)) (s : Text)
    → All IsFixed ps
    → (expand_if_name (expand_from ps s) ≡ expand_from ps s) ⊎ (expand_from ps s ≡ s)
unfolding expand_from
expand_from-cases [] s h = inr refl
expand_from-cases ((full, abbr) ∷ ps) s h = elim (Bool-cases (is_abbreviated abbr s)) [
  | inl e ↦ inl (rw e (h.0 (drop (length abbr) s)))
  | inr e ↦ rw e (expand_from-cases ps s h.1)
]

-- Expanding an interface name twice is expanding it once.
pub expand_if_name_idem : (s : Text) → expand_if_name (expand_if_name s) ≡ expand_if_name s
expand_if_name_idem s = elim (expand_from-cases prefixes s prefixes-IsFixed) [
  | inl e ↦ unfold expand_if_name in e
  | inr e ↦ ap expand_if_name (unfold expand_if_name in e)
]
