-- ===== src/Webapp/Admin/Laws.antt =====
-- Who gets to the pages of administrators in webapp/main.go.
use mathlib.Core.List.{Memᴰ}
use cisco_netconf_mac_db.Common.{
  ◌≡◌, refl, sym, Bool, true, false, Bool-cases, inl, inr, Option, none, some, List, [], ◌∷◌, Text,
  text_eq, text_eq_iff, is_empty, any,
}
use cisco_netconf_mac_db.Webapp.Admin.{
  has_role, role_claim_names, has_admin_role, served, protect, protect_admin,
}

-- A role claim of the session has the value.
abbrev pub IsClaimed : List Text → (Text → List Text) → Text → Type 0
IsClaimed names attrs role = (name : Text) × Memᴰ name names × Memᴰ role (attrs name)

any-Memᴰ : (role : Text) (vs : List Text) → any (λ v. text_eq v role) vs ≡ true → Memᴰ role vs
any-Memᴰ role [] h = cc h
any-Memᴰ role (v ∷ vs) h = elim (Bool-cases (text_eq v role)) [
  | inl t ↦ Memᴰ.head (sym ((text_eq_iff v role).0 t))
  | inr f ↦ Memᴰ.tail (any-Memᴰ role vs (rw f at h))
]

has_role_sound :
    (names : List Text) (attrs : Text → List Text) (role : Text)
    → has_role names attrs role ≡ true
    → IsClaimed names attrs role
unfolding has_role
has_role_sound [] attrs role h = cc h
has_role_sound (name ∷ names) attrs role h =
    elim (Bool-cases (any (λ v. text_eq v role) (attrs name))) [
      | inl t ↦ (name, Memᴰ.head refl, any-Memᴰ role (attrs name) t)
      | inr f ↦ let (n, m, c) = has_role_sound names attrs role (rw f at h) in (n, Memᴰ.tail m, c)
    ]

-- With SAML enabled and a role set, the page is served only to a request that is logged in and whose session
-- has the role among the values of one of the role claims.
pub protect_admin_serves :
    (logged_in : Bool) (session : Option (Text → List Text)) (admin_role : Text)
    → is_empty admin_role ≡ false
    → protect_admin true logged_in session admin_role ≡ served
    → (logged_in ≡ true)
      × ((attrs : Text → List Text) × (session ≡ some attrs)
          × IsClaimed role_claim_names attrs admin_role)
unfolding protect_admin protect has_admin_role
protect_admin_serves false session admin_role set h = cc h
protect_admin_serves true none admin_role set h = cc (rw set at h)
protect_admin_serves true (some attrs) admin_role set h =
    elim (Bool-cases (has_role role_claim_names attrs admin_role)) [
      | inl t ↦ (refl, (attrs, refl, has_role_sound role_claim_names attrs admin_role t))
      | inr f ↦ cc (rw (set, f) at h)
    ]
