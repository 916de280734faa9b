-- ===== src/Webapp/Shell/Laws.antt =====
-- The links of the index page against the wrappers of the routes, and the merged OpenAPI document.
use mathlib.Core.List.{Memᴰ}
use mathlib.Core.List.Memᴰ
use mathlib.Core.Path.{subst}
use cisco_netconf_mac_db.Common.{
  ◌≡◌, refl, sym, ap, ◌∙◌, ◌⊎◌, Bool, true, false, Bool-cases, inl, inr, not, ◌&&◌, some, List, [],
  ◌∷◌, Text, All, codes, text_eq, lookup, text_has_eq, arith, if◌then◌else◌,
}
use cisco_netconf_mac_db.Webapp.Admin.{forbidden, served, has_admin_role, protect, protect_admin}
use cisco_netconf_mac_db.Webapp.Shell.{Guard, api, admin, NavLink}
use cisco_netconf_mac_db.Webapp.Shell.Main.{
  all_nav_links, mux, split_links, shown_links, Browser, guarded, or_index, visit,
}

abbrev guard_of : NavLink → Guard
guard_of l = if l.admin_only then admin else api

-- Each page behind a link that is for administrators is wrapped by `protectAdmin`, and each other one by `apiAuth`.
links_guarded :
    (saml_enabled db_view : Bool)
    → All
        (λ (l : NavLink). lookup l.href (mux saml_enabled db_view) ≡ some (guard_of l))
        (all_nav_links db_view)
unfolding all_nav_links mux lookup codes text_eq
links_guarded false false = (refl, (refl, tt))
links_guarded false true = (refl, (refl, (refl, tt)))
links_guarded true false = (refl, (refl, tt))
links_guarded true true = (refl, (refl, (refl, tt)))

All-mem : {A : Type 0} (P : A → Type 0) (xs : List A) (x : A) → All P xs → Memᴰ x xs → P x
All-mem P [] x h m = absurd (Memᴰ.not-nil m)
All-mem P (y ∷ ys) x (p, h) m = elim (Memᴰ.cases_cons m) [
  | inl e ↦ subst P (sym e) p
  | inr n ↦ All-mem P ys x h n
]

-- A link is shown.
abbrev pub IsLinked : NavLink → List NavLink × List NavLink → Type 0
IsLinked l (header, menu) = Memᴰ l header ⊎ Memᴰ l menu

abbrev is_hidden : Bool → NavLink → Bool
is_hidden is_admin l = l.admin_only && not is_admin

-- A link that is put before the others of its list.
abbrev put_link : NavLink → List NavLink × List NavLink → List NavLink × List NavLink
put_link l rest = if l.header then (l ∷ rest.0, rest.1) else (rest.0, l ∷ rest.1)

put-first : (l : NavLink) (rest : List NavLink × List NavLink) → IsLinked l (put_link l rest)
put-first l rest = elim (Bool-cases l.header) [
  | inl t ↦ rw t (inl (Memᴰ.head refl))
  | inr f ↦ rw f (inr (Memᴰ.head refl))
]

put-behind :
    (l k : NavLink) (rest : List NavLink × List NavLink)
    → IsLinked l rest
    → IsLinked l (put_link k rest)
put-behind l k rest (inl m) = elim (Bool-cases k.header) [
  | inl t ↦ rw t (inl (Memᴰ.tail m))
  | inr f ↦ rw f (inl m)
]
put-behind l k rest (inr m) = elim (Bool-cases k.header) [
  | inl t ↦ rw t (inr m)
  | inr f ↦ rw f (inr (Memᴰ.tail m))
]

at_head :
    {A : Type 0} {l k : A} {xs ys : List A}
    → Memᴰ l (k ∷ xs) ⊎ Memᴰ l ys
    → (l ≡ k) ⊎ (Memᴰ l xs ⊎ Memᴰ l ys)
at_head (inl m) = elim (Memᴰ.cases_cons m) [ inl e ↦ inl e | inr n ↦ inr (inl n) ]
at_head (inr m) = inr (inr m)

at_second :
    {A : Type 0} {l k : A} {xs ys : List A}
    → Memᴰ l xs ⊎ Memᴰ l (k ∷ ys)
    → (l ≡ k) ⊎ (Memᴰ l xs ⊎ Memᴰ l ys)
at_second (inl m) = inr (inl m)
at_second (inr m) = elim (Memᴰ.cases_cons m) [ inl e ↦ inl e | inr n ↦ inr (inr n) ]

put-cases :
    (l k : NavLink) (rest : List NavLink × List NavLink)
    → IsLinked l (put_link k rest)
    → (l ≡ k) ⊎ IsLinked l rest
put-cases l k rest h = elim (Bool-cases k.header) [
  | inl t ↦
      at_head
        (subst (λ b. IsLinked l (if b then (k ∷ rest.0, rest.1) else (rest.0, k ∷ rest.1))) t h)
  | inr f ↦
      at_second
        (subst (λ b. IsLinked l (if b then (k ∷ rest.0, rest.1) else (rest.0, k ∷ rest.1))) f h)
]

split-shown :
    (is_admin : Bool) (l : NavLink) (links : List NavLink)
    → IsLinked l (split_links is_admin links)
    → Memᴰ l links × (is_hidden is_admin l ≡ false)
unfolding split_links
split-shown is_admin l [] (inl m) = absurd (Memᴰ.not-nil m)
split-shown is_admin l [] (inr m) = absurd (Memᴰ.not-nil m)
split-shown is_admin l (k ∷ links) h = elim (Bool-cases (is_hidden is_admin k)) [
  | inl t ↦
      let (m, v) = split-shown is_admin l links (
        subst
          (λ b.
            IsLinked l
              (if b then split_links is_admin links else put_link k (split_links is_admin links)))
          t h) in
      (Memᴰ.tail m, v)
  | inr f ↦
      elim (put-cases l k (split_links is_admin links) (
        subst
          (λ b.
            IsLinked l
              (if b then split_links is_admin links else put_link k (split_links is_admin links)))
          f h)) [
            | inl e ↦ (Memᴰ.head e, ap (is_hidden is_admin) e ∙ f)
            | inr later ↦ let (m, v) = split-shown is_admin l links later in (Memᴰ.tail m, v)
          ]
]

split-hidden :
    (is_admin : Bool) (l : NavLink) (links : List NavLink)
    → Memᴰ l links
    → is_hidden is_admin l ≡ false
    → IsLinked l (split_links is_admin links)
unfolding split_links
split-hidden is_admin l [] m v = absurd (Memᴰ.not-nil m)
split-hidden is_admin l (k ∷ links) m v = elim (Memᴰ.cases_cons m) [
  | inl e ↦ rw (ap (is_hidden is_admin) (sym e) ∙ v) (
      subst (λ x. IsLinked l (put_link x (split_links is_admin links))) e
        (put-first l (split_links is_admin links)))
  | inr n ↦
      let rest = split-hidden is_admin l links n v in
      elim (Bool-cases (is_hidden is_admin k)) [
        | inl t ↦ rw t rest
        | inr f ↦ rw f (put-behind l k (split_links is_admin links) rest)
      ]
]

module _ (saml_enabled : Bool) (admin_role : Text) (db_view : Bool) (b : Browser) where
  abbrev is_admin : Bool
  is_admin = has_admin_role b.attributes saml_enabled admin_role

  -- Where the index page is served, a visible page is served and a hidden one forbidden.
  visit-link :
      (l : NavLink)
      → Memᴰ l (all_nav_links db_view)
      → protect saml_enabled b.logged_in served ≡ served
      → visit saml_enabled admin_role db_view b l.href
        ≡ (if is_hidden is_admin l then forbidden else served)
  unfolding visit protect protect_admin
  visit-link l m ok =
      let route =
        All-mem (λ (k : NavLink). lookup k.href (mux saml_enabled db_view) ≡ some (guard_of k))
          (all_nav_links db_view) l (links_guarded saml_enabled db_view) m in
      ap (λ o. guarded saml_enabled admin_role b (or_index o)) route ∙ ground (arith, ok)

  -- Where the index page is served, each link that it shows leads to a page that is served to the same browser, and
  -- each link that it leaves out leads to one that is forbidden. The browser sends no bearer token.
  pub shown_links_lem :
      protect saml_enabled b.logged_in served ≡ served
      → (l : NavLink)
      → let visited = visit saml_enabled admin_role db_view b l.href in
        let links = shown_links saml_enabled admin_role db_view b in
        (IsLinked l links → visited ≡ served)
        × (Memᴰ l (all_nav_links db_view) → IsLinked l links ⊎ (visited ≡ forbidden))
  unfolding shown_links
  shown_links_lem ok l = (
    λ shown.
        let (m, v) = split-shown is_admin l (all_nav_links db_view) shown in
        visit-link l m ok ∙ rw v refl,
    λ m. elim (Bool-cases (is_hidden is_admin l)) [
      | inl t ↦ inr (visit-link l m ok ∙ rw t refl)
      | inr f ↦ inl (split-hidden is_admin l (all_nav_links db_view) m f)
    ],
  )
