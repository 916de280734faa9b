-- ===== src/Consumer/Cleanup/Laws.antt =====
-- Which rows survive the cleanup of consumer/main.go.
use mathlib.Core.List.{Memᴰ}
use mathlib.Core.List.Memᴰ
use cisco_netconf_mac_db.Common.{
  ℤ, ◌-ℤ◌, Bool, true, false, Bool-cases, Option, none, some, List, [], ◌∷◌, Text, Time, text_eq,
  text_eq_iff, keep, lookup, text_has_eq, Distinct, ◌≡◌, refl, ap, ◌∙◌, ◌↔◌, inl, inr,
  if◌then◌else◌,
}
use cisco_netconf_mac_db.Consumer.Cleanup.{
  Event, tick, done, is_fresh, delete_stale, round, start_cleanup,
}

module _ {ℓ} {A : Type ℓ} (p : A → Bool) (x : A) where
  kept_cons :
      (y : A) (xs ys : List A)
      → (Memᴰ x ys ↔ (Memᴰ x xs × (p x ≡ true)))
      → p y ≡ true
      → Memᴰ x (y ∷ ys) ↔ (Memᴰ x (y ∷ xs) × (p x ≡ true))
  kept_cons y xs ys h t = (
    (λ m. elim (Memᴰ.cases_cons m) [
      | inl e ↦ (Memᴰ.head e, ap p e ∙ t)
      | inr n ↦ (Memᴰ.tail (h.0 n).0, (h.0 n).1)
    ]),
    (λ m. elim (Memᴰ.cases_cons m.0) [ inl e ↦ Memᴰ.head e | inr n ↦ Memᴰ.tail (h.1 (n, m.1)) ]),
  )

  dropped_cons :
      (y : A) (xs ys : List A)
      → (Memᴰ x ys ↔ (Memᴰ x xs × (p x ≡ true)))
      → p y ≡ false
      → Memᴰ x ys ↔ (Memᴰ x (y ∷ xs) × (p x ≡ true))
  dropped_cons y xs ys h f = (
    (λ m. (Memᴰ.tail (h.0 m).0, (h.0 m).1)),
    (λ m. elim (Memᴰ.cases_cons m.0) [ inl e ↦ cc (ap p e, f, m.1) | inr n ↦ h.1 (n, m.1) ]),
  )

  keep-Memᴰ : (xs : List A) → Memᴰ x (keep p xs) ↔ (Memᴰ x xs × (p x ≡ true))
  keep-Memᴰ [] = ((λ m. elim m [ ]), (λ m. elim m.0 [ ]))
  keep-Memᴰ (y ∷ xs) = elim (Bool-cases (p y)) [
    | inl t ↦ rw t (kept_cons y xs (keep p xs) (keep-Memᴰ xs) t)
    | inr f ↦ rw f (dropped_cons y xs (keep p xs) (keep-Memᴰ xs) f)
  ]

module _ {R : Type 0} (collected_at : R → Time) where
  abbrev after_round : Option ℤ → (Text → Time) → (Text → Bool) → Text → List R → List R
  after_round none now db_ok name rows = rows
  after_round (some ttl) now db_ok name rows =
      if db_ok name then keep (is_fresh collected_at (now name -ℤ ttl)) rows else rows

  -- One round, for one table: its lifetime alone counts.
  round-eq :
      (ttls : List (Text × ℤ)) (now : Text → Time) (db_ok : Text → Bool) (db : Text → List R)
      (name : Text)
      → Distinct ttls
      → round collected_at ttls now db_ok db name
        ≡ after_round (lookup name ttls) now db_ok name (db name)
  unfolding round delete_stale lookup
  round-eq [] now db_ok db name d = refl
  round-eq ((tbl, ttl) ∷ ttls) now db_ok db name (fresh, d) = elim (Bool-cases (text_eq tbl name)) [
    | inl t ↦
        let same : tbl ≡ name = (text_eq_iff tbl name).0 t in
        round-eq ttls now db_ok (delete_stale collected_at now db_ok db (tbl, ttl)) name d
        ∙ rw t (rw (← same) (rw fresh refl))
    | inr f ↦
        round-eq ttls now db_ok (delete_stale collected_at now db_ok db (tbl, ttl)) name d
        ∙ rw f refl
  ]

  abbrev pub IsSpared : Option ℤ → (Text → Time) → (Text → Bool) → Text → R → Type 0
  IsSpared none now db_ok name r = Unit
  IsSpared (some ttl) now db_ok name r =
      db_ok name ≡ true → is_fresh collected_at (now name -ℤ ttl) r ≡ true

  -- At no tick before the end of the context, when the statement for the table succeeds, is the row older
  -- than the lifetime of the table.
  abbrev pub IsSurvivor : Option ℤ → Text → R → List Event → Type 0
  IsSurvivor ttl name r [] = Unit
  IsSurvivor ttl name r (done ∷ events) = Unit
  IsSurvivor ttl name r (tick now db_ok ∷ events) =
      IsSpared ttl now db_ok name r × IsSurvivor ttl name r events

  after_round_iff :
      (o : Option ℤ) (now : Text → Time) (db_ok : Text → Bool) (name : Text) (rows : List R) (r : R)
      → Memᴰ r (after_round o now db_ok name rows) ↔ (Memᴰ r rows × IsSpared o now db_ok name r)
  after_round_iff none now db_ok name rows r = ((λ m. (m, tt)), (λ m. m.0))
  after_round_iff (some ttl) now db_ok name rows r = elim (Bool-cases (db_ok name)) [
    | inl t ↦
        let (to, from) = keep-Memᴰ (is_fresh collected_at (now name -ℤ ttl)) r rows in
        rw t ((λ m. ((to m).0, (λ _. (to m).1))), (λ m. from (m.0, m.1 refl)))
    | inr f ↦ rw f ((λ m. (m, (λ p. cc p))), (λ m. m.0))
  ]

  -- A row is in a table after any rounds of the cleanup exactly if it was there before and, at no tick at
  -- which the statement for its table succeeded, was older than the lifetime of the table. A
  -- table with no lifetime keeps all its rows, and a failed statement for one table does not keep the
  -- others from being cleaned.
  pub start_cleanup_iff :
      (ttls : List (Text × ℤ)) (db : Text → List R) (events : List Event) (name : Text) (r : R)
      → Distinct ttls
      → Memᴰ r (start_cleanup collected_at ttls db events name)
        ↔ (Memᴰ r (db name) × IsSurvivor (lookup name ttls) name r events)
  unfolding start_cleanup
  start_cleanup_iff ttls db [] name r d = ((λ m. (m, tt)), (λ m. m.0))
  start_cleanup_iff ttls db (done ∷ events) name r d = ((λ m. (m, tt)), (λ m. m.0))
  start_cleanup_iff ttls db (tick now db_ok ∷ events) name r d =
      let (to, from) =
        start_cleanup_iff ttls (round collected_at ttls now db_ok db) events name r d in
      let here : (Memᴰ r (round collected_at ttls now db_ok db name)
          ↔ (Memᴰ r (db name) × IsSpared (lookup name ttls) now db_ok name r)) =
        rw (round-eq ttls now db_ok db name d)
          (after_round_iff (lookup name ttls) now db_ok name (db name) r) in
      (
        (λ m. ((here.0 (to m).0).0, ((here.0 (to m).0).1, (to m).1))),
        (λ m. from (here.1 (m.0, m.1.0), m.1.1)),
      )
