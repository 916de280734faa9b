-- ===== src/Webapp/Shell/Document.antt =====
-- The patterns of the routes, and the merged OpenAPI document.
use cisco_netconf_mac_db.Common.{
  ◌≡◌, refl, Bool, true, false, some, Text, All, codes, text_eq, lookup, insert, Distinct,
  text_has_eq,
}
use cisco_netconf_mac_db.Webapp.Shell.{api, Module, copy_into, merge_fragments}
use cisco_netconf_mac_db.Webapp.Shell.Main.{data_modules, build_spec, mux}

-- What a fragment has is in the document unchanged, and its paths are routes behind `apiAuth`.
abbrev pub IsDocumented : Bool → Bool → Module → Type 0
IsDocumented saml_enabled db_view m =
    All
      (λ (p : Text × Text).
        (lookup p.0 (build_spec db_view).paths ≡ some p.1)
        × (lookup p.0 (mux saml_enabled db_view) ≡ some api))
      m.fragment.paths
    × All (λ (p : Text × Text). lookup p.0 (build_spec db_view).schemas ≡ some p.1)
        m.fragment.schemas

mux-Distinct : (saml_enabled db_view : Bool) → Distinct (mux saml_enabled db_view)
unfolding mux lookup codes text_eq
mux-Distinct false false = (
  refl,
  (
    refl,
    (
      refl,
      (refl, (refl, (refl, (refl, (refl, (refl, (refl, (refl, (refl, (refl, (refl, tt))))))))))),
    ),
  ),
)
mux-Distinct false true = (
  refl,
  (
    refl,
    (
      refl,
      (
        refl,
        (
          refl,
          (
            refl,
            (
              refl,
              (refl, (refl, (refl, (refl, (refl, (refl, (refl, (refl, (refl, (refl, tt)))))))))),
            ),
          ),
        ),
      ),
    ),
  ),
)
mux-Distinct true false = (
  refl,
  (
    refl,
    (
      refl,
      (
        refl,
        (refl, (refl, (refl, (refl, (refl, (refl, (refl, (refl, (refl, (refl, (refl, tt))))))))))),
      ),
    ),
  ),
)
mux-Distinct true true = (
  refl,
  (
    refl,
    (
      refl,
      (
        refl,
        (
          refl,
          (
            refl,
            (
              refl,
              (
                refl,
                (refl, (refl, (refl, (refl, (refl, (refl, (refl, (refl, (refl, (refl, tt)))))))))),
              ),
            ),
          ),
        ),
      ),
    ),
  ),
)

data_modules-IsDocumented :
    (saml_enabled db_view : Bool) → All (IsDocumented saml_enabled db_view) (data_modules db_view)
unfolding mux build_spec merge_fragments copy_into lookup insert codes text_eq
data_modules-IsDocumented false false = (
  (((refl, refl), tt), (refl, (refl, tt))),
  (
    (((refl, refl), tt), (refl, tt)),
    (
      (((refl, refl), tt), (refl, (refl, (refl, tt)))),
      ((((refl, refl), tt), (refl, (refl, tt))), ((((refl, refl), tt), (refl, tt)), tt)),
    ),
  ),
)
data_modules-IsDocumented false true = (
  (((refl, refl), tt), (refl, (refl, tt))),
  (
    (((refl, refl), tt), (refl, tt)),
    (
      (((refl, refl), tt), (refl, (refl, (refl, tt)))),
      (
        (((refl, refl), tt), (refl, (refl, tt))),
        ((((refl, refl), tt), (refl, tt)), ((tt, tt), tt)),
      ),
    ),
  ),
)
data_modules-IsDocumented true false = (
  (((refl, refl), tt), (refl, (refl, tt))),
  (
    (((refl, refl), tt), (refl, tt)),
    (
      (((refl, refl), tt), (refl, (refl, (refl, tt)))),
      ((((refl, refl), tt), (refl, (refl, tt))), ((((refl, refl), tt), (refl, tt)), tt)),
    ),
  ),
)
data_modules-IsDocumented true true = (
  (((refl, refl), tt), (refl, (refl, tt))),
  (
    (((refl, refl), tt), (refl, tt)),
    (
      (((refl, refl), tt), (refl, (refl, (refl, tt)))),
      (
        (((refl, refl), tt), (refl, (refl, tt))),
        ((((refl, refl), tt), (refl, tt)), ((tt, tt), tt)),
      ),
    ),
  ),
)

-- No pattern is registered twice, and the document has each path and each schema of each of the data modules as that
-- module gives it; each documented path is a route behind `apiAuth`.
pub mux-IsDocumented :
    (saml_enabled db_view : Bool)
    → Distinct (mux saml_enabled db_view)
      × All (IsDocumented saml_enabled db_view) (data_modules db_view)
mux-IsDocumented saml_enabled db_view =
    (mux-Distinct saml_enabled db_view, data_modules-IsDocumented saml_enabled db_view)
