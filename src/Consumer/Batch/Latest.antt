-- ===== src/Consumer/Batch/Latest.antt =====
-- What a batch holds for a key after some entries: the newest, and of equally new ones the first.
use mathlib.Core.List.{foldl, Memᴰ}
use mathlib.Core.List.Memᴰ
use mathlib.Core.Path.{subst}
use mathlib.Core.Option.{some-injective}
use cisco_netconf_mac_db.Common.{
  ◌≡◌, refl, sym, ap, ◌∙◌, false, Bool-cases, ◌⊎◌, inl, inr, Option, none, some, List, [], ◌∷◌,
  Time, after, after_irrefl, after_asymm, not_after_trans, Eq, lookup, lookup-insert, All, arith,
  if◌then◌else◌,
}
use cisco_netconf_mac_db.Consumer.Batch.{is_newer, absorb}

module _ {ℓ} {K E : Type ℓ} ⦃eq : Eq K⦄ (key : E → K) (time : E → Time) where
  -- The newer of a stored entry and a later one.
  abbrev pub newer : Option E → E → Option E
  newer o e = if is_newer key time o e then some e else o

  pub lookup-absorb :
      (j : K) (batch : List (K × E)) (e : E)
      → lookup j (absorb key time batch e)
        ≡ (if eq.beq (key e) j then newer (lookup j batch) e else lookup j batch)
  unfolding absorb
  lookup-absorb j batch e = ground (arith, lookup-insert (key e) j e batch, eq.beq_iff (key e) j)

  -- No entry with the key is newer than `r`.
  abbrev pub IsNewest : K → E → List E → Type ℓ
  IsNewest j r es = All (λ e. key e ≡ j → after (time e) (time r) ≡ false) es

  -- The result of looking `j` up.
  pub record IsLatest (j : K) (before : Option E) (es : List E) (r : E) : Type ℓ where
    pub newest : IsNewest j r es
    pub origin : (before ≡ some r) ⊎ (Memᴰ r es × (key r ≡ j))
    pub no_older : (c : E) → before ≡ some c → after (time c) (time r) ≡ false

  IsLatest-cons_other :
      (j : K) (o : Option E) (e : E) (es : List E) (r : E)
      → eq.beq (key e) j ≡ false
      → IsLatest j o es r
      → IsLatest j o (e ∷ es) r
  IsLatest-cons_other j o e es r h l = record {
    newest = (λ p. cc (h, (eq.beq_iff (key e) j).1 p), l.newest);
    origin = elim l.origin [ inl b ↦ inl b | inr (m, k) ↦ inr (Memᴰ.tail m, k) ];
    no_older = l.no_older;
  }

  IsLatest-cons_kept :
      (j : K) (c e : E) (es : List E) (r : E)
      → after (time e) (time c) ≡ false
      → IsLatest j (some c) es r
      → IsLatest j (some c) (e ∷ es) r
  IsLatest-cons_kept j c e es r h l = record {
    newest = (λ _. not_after_trans (time e) (time c) (time r) h (l.no_older c refl), l.newest);
    origin = elim l.origin [ inl b ↦ inl b | inr (m, k) ↦ inr (Memᴰ.tail m, k) ];
    no_older = l.no_older;
  }

  IsLatest-cons_new :
      (j : K) (o : Option E) (e : E) (es : List E) (r : E)
      → key e ≡ j
      → ((c : E) → o ≡ some c → after (time c) (time e) ≡ false)
      → IsLatest j (some e) es r
      → IsLatest j o (e ∷ es) r
  IsLatest-cons_new j o e es r h older l = record {
    newest = (λ _. l.no_older e refl, l.newest);
    origin = elim l.origin [
      | inl b ↦
          inr (let same : r ≡ e = sym (some-injective _ _ b) in (Memᴰ.head same, ap key same ∙ h))
      | inr (m, k) ↦ inr (Memᴰ.tail m, k)
    ];
    no_older = λ c p. not_after_trans (time c) (time e) (time r) (older c p) (l.no_older e refl);
  }

  IsLatest-cons :
      (j : K) (o : Option E) (e : E) (es : List E) (r : E)
      → IsLatest j (if eq.beq (key e) j then newer o e else o) es r
      → IsLatest j o (e ∷ es) r
  IsLatest-cons j o e es r l = elim (Bool-cases (eq.beq (key e) j)) [
    | inl h ↦ at_key o ((eq.beq_iff (key e) j).0 h) (rw h at l)
    | inr h ↦ IsLatest-cons_other j o e es r h (rw h at l)
  ]
    where
      at_key : (o : Option E) → key e ≡ j → IsLatest j (newer o e) es r → IsLatest j o (e ∷ es) r
      at_key none h l = IsLatest-cons_new j none e es r h (λ c p. cc p) l
      at_key (some c) h l = elim (Bool-cases (after (time e) (time c))) [
        | inl t ↦
            IsLatest-cons_new j (some c) e es r h
              (λ d p.
                let same : c ≡ d = some-injective _ _ p in
                rw (← same) (after_asymm (time e) (time c) t))
              (rw t at l)
        | inr f ↦ IsLatest-cons_kept j c e es r f (rw f at l)
      ]

  -- After any entries, what a batch holds for a key is an entry with that key, or the one that it
  -- held before, and no entry with that key, new or held before, is newer.
  pub absorb-IsLatest :
      (j : K) (es : List E) (batch : List (K × E)) (r : E)
      → lookup j (foldl (absorb key time) batch es) ≡ some r
      → IsLatest j (lookup j batch) es r
  absorb-IsLatest j [] batch r h = record {
    newest = tt;
    origin = inl h;
    no_older =
        λ c p. let same : c ≡ r = some-injective _ _ (sym p ∙ h) in rw same (after_irrefl (time r));
  }
  absorb-IsLatest j (e ∷ es) batch r h = IsLatest-cons j (lookup j batch) e es r (
      subst (λ o. IsLatest j o es r) (lookup-absorb j batch e)
        (absorb-IsLatest j es (absorb key time batch e) r h))

  newer-some : (o : Option E) (e : E) → (r : E) × (newer o e ≡ some r)
  newer-some none e = (e, refl)
  newer-some (some c) e = elim (Bool-cases (after (time e) (time c))) [
    | inl t ↦ (e, rw t)
    | inr f ↦ (c, rw f)
  ]

  abbrev IsPresent : K → List (K × E) → Type ℓ
  IsPresent j batch = (r : E) × (lookup j batch ≡ some r)

  absorb-IsPresent_new :
      (j : K) (batch : List (K × E)) (e : E) → key e ≡ j → IsPresent j (absorb key time batch e)
  absorb-IsPresent_new j batch e h =
      let (r, p) = newer-some (lookup j batch) e in
      (r, lookup-absorb j batch e ∙ rw ((eq.beq_iff (key e) j).1 h) p)

  absorb-IsPresent_old :
      (j : K) (batch : List (K × E)) (e : E)
      → IsPresent j batch
      → IsPresent j (absorb key time batch e)
  absorb-IsPresent_old j batch e (r, h) = elim (Bool-cases (eq.beq (key e) j)) [
    | inl t ↦ absorb-IsPresent_new j batch e ((eq.beq_iff (key e) j).0 t)
    | inr f ↦ (r, lookup-absorb j batch e ∙ rw f h)
  ]

  -- A key of one of the entries is in the batch afterwards.
  pub absorb-IsPresent :
      (j : K) (es : List E) (batch : List (K × E))
      → ((r : E) × (lookup j batch ≡ some r)) ⊎ ((e : E) × Memᴰ e es × (key e ≡ j))
      → (r : E) × (lookup j (foldl (absorb key time) batch es) ≡ some r)
  absorb-IsPresent j [] batch (inl h) = h
  absorb-IsPresent j [] batch (inr (e, m, k)) = elim m [ ]
  absorb-IsPresent j (e ∷ es) batch (inl h) =
      absorb-IsPresent j es (absorb key time batch e) (inl (absorb-IsPresent_old j batch e h))
  absorb-IsPresent j (e ∷ es) batch (inr (d, m, k)) =
      absorb-IsPresent j es (absorb key time batch e) (present (Memᴰ.cases_cons m))
    where
      present :
          (d ≡ e) ⊎ Memᴰ d es
          → IsPresent j (absorb key time batch e) ⊎ ((x : E) × Memᴰ x es × (key x ≡ j))
      present (inl same) = inl (absorb-IsPresent_new j batch e (ap key (sym same) ∙ k))
      present (inr later) = inr (d, later, k)
