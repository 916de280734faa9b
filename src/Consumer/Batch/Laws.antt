-- ===== src/Consumer/Batch/Laws.antt =====
-- The invariant of the batching loop, what a flush writes, and when offsets are marked.
use mathlib.Core.List.{foldl}
use mathlib.Core.Option
use mathlib.Core.Path.{subst}
use cisco_netconf_mac_db.Common.{
  ℕ, ◌≡◌, refl, ◌∙◌, Bool, true, false, Bool-cases, inl, inr, Option, none, some, ◌<|>◌, List, [],
  ◌∷◌, Text, Time, leb, length, Eq, lookup, insert, lookup-insert, Distinct, insert-Distinct,
  insert-All, All, arith,
}
use cisco_netconf_mac_db.Consumer.Batch.{
  Event, message, timer, closed, State, is_newer, absorb, upsert_all, flush_batch, flush, receive,
  step, run,
}

module _ {ℓ} {K E : Type ℓ} ⦃eq : Eq K⦄ (key : E → K) where
  -- An entry stands under its own key.
  abbrev pub IsKeyed : List (K × E) → Type ℓ
  IsKeyed = All (λ p. p.0 ≡ key p.1)

  module _ (time : E → Time) where
    absorb-Distinct :
        (batch : List (K × E)) (e : E) → Distinct batch → Distinct (absorb key time batch e)
    unfolding absorb
    absorb-Distinct batch e d = elim (Bool-cases (is_newer key time (lookup (key e) batch) e)) [
      | inl t ↦ rw t (insert-Distinct (key e) e batch d)
      | inr f ↦ rw f d
    ]

    absorb-IsKeyed :
        (batch : List (K × E)) (e : E) → IsKeyed batch → IsKeyed (absorb key time batch e)
    unfolding absorb
    absorb-IsKeyed batch e h = elim (Bool-cases (is_newer key time (lookup (key e) batch) e)) [
      | inl t ↦ rw t (insert-All (λ p. p.0 ≡ key p.1) (key e) e batch refl h)
      | inr f ↦ rw f h
    ]

    foldl-Distinct :
        (es : List E) (batch : List (K × E))
        → Distinct batch
        → Distinct (foldl (absorb key time) batch es)
    foldl-Distinct [] batch d = d
    foldl-Distinct (e ∷ es) batch d =
        foldl-Distinct es (absorb key time batch e) (absorb-Distinct batch e d)

    foldl-IsKeyed :
        (es : List E) (batch : List (K × E))
        → IsKeyed batch
        → IsKeyed (foldl (absorb key time) batch es)
    foldl-IsKeyed [] batch h = h
    foldl-IsKeyed (e ∷ es) batch h =
        foldl-IsKeyed es (absorb key time batch e) (absorb-IsKeyed batch e h)

module _ {ℓ} {K E R : Type ℓ} ⦃eq : Eq K⦄ (key : E → K) (row : E → R) where
  -- An upsert of a batch writes the row of each of its entries and leaves the other rows alone.
  pub lookup-upsert_all :
      (j : K) (batch : List (K × E)) (table : List (K × R))
      → IsKeyed key batch
      → Distinct batch
      → lookup j (upsert_all key row batch table)
        ≡ Option.map row (lookup j batch) <|> lookup j table
  unfolding upsert_all lookup
  lookup-upsert_all j [] table h d = refl
  lookup-upsert_all j ((k, e) ∷ batch) table (same, h) (fresh, d) =
      lookup-upsert_all j batch (insert (key e) (row e) table) h d
      ∙ ground (arith, lookup-insert (key e) j (row e) table, eq.beq_iff k j, eq.beq_iff (key e) j)

  -- What every state of the loop satisfies. The last part is why the message that a flush marks is
  -- never nil.
  pub record IsValid (s : State K E R) : Type ℓ where
    pub keyed : IsKeyed key s.batch
    pub distinct : Distinct s.batch
    pub has_message : s.last_msg ≡ none → s.batch ≡ []

  flush_batch-IsValid :
      (b : List (K × E)) (s : State K E R) → IsValid s → IsValid (flush_batch key row b s)
  flush_batch-IsValid [] s v = v
  flush_batch-IsValid (p ∷ b) s v = record { keyed = tt; distinct = tt; has_message = λ _. refl }

  flush-IsValid : (db_ok : Bool) (s : State K E R) → IsValid s → IsValid (flush key row db_ok s)
  unfolding flush
  flush-IsValid false s v = v
  flush-IsValid true s v = flush_batch-IsValid s.batch s v

  flush_batch_lem :
      (b : List (K × E)) (s : State K E R) (j : K)
      → s.batch ≡ b
      → IsValid s
      → lookup j (flush_batch key row b s).table ≡ Option.map row (lookup j b) <|> lookup j s.table
  flush_batch_lem [] s j e v = unfold lookup in refl
  flush_batch_lem (p ∷ b) s j e v =
      lookup-upsert_all j (p ∷ b) s.table (subst (IsKeyed key) e v.keyed)
        (subst Distinct e v.distinct)

  flush_batch-empties :
      (b : List (K × E)) (s : State K E R) → s.batch ≡ b → (flush_batch key row b s).batch ≡ []
  flush_batch-empties [] s e = e
  flush_batch-empties (p ∷ b) s e = refl

  -- A flush whose statement succeeds empties the batch, and afterwards the table has, for each key
  -- of the batch, the row of its entry, and for every other key what it had; one whose statement
  -- fails changes nothing.
  pub flush_lem :
      (s : State K E R)
      → IsValid s
      → ((flush key row true s).batch ≡ [])
        × ((j : K)
            → lookup j (flush key row true s).table
              ≡ Option.map row (lookup j s.batch) <|> lookup j s.table)
        × (flush key row false s ≡ s)
  unfolding flush
  flush_lem s v =
      (flush_batch-empties s.batch s refl, λ j. flush_batch_lem s.batch s j refl v, refl)

  module _ (time : E → Time) (batch_size : ℕ) (unmarshal : Text → Option (List E)) where
    abbrev step' : State K E R → Event → State K E R
    step' = step key time row batch_size unmarshal

    pub absorbed-IsValid :
        (offset : ℕ) (es : List E) (s : State K E R)
        → IsValid s
        → IsValid (record s { batch = foldl (absorb key time) s.batch es; last_msg = some offset })
    absorbed-IsValid offset es s v = record {
      keyed = foldl-IsKeyed key time es s.batch v.keyed;
      distinct = foldl-Distinct key time es s.batch v.distinct;
      has_message = λ p. cc p;
    }

    receive-IsValid :
        (offset : ℕ) (db_ok : Bool) (o : Option (List E)) (s : State K E R)
        → IsValid s
        → IsValid (receive key time row batch_size unmarshal offset db_ok o s)
    receive-IsValid offset db_ok none s v = record {
      keyed = v.keyed;
      distinct = v.distinct;
      has_message = v.has_message;
    }
    receive-IsValid offset db_ok (some es) s v =
        elim (Bool-cases (leb batch_size (length (foldl (absorb key time) s.batch es)))) [
          | inl t ↦ rw t (flush-IsValid db_ok _ (absorbed-IsValid offset es s v))
          | inr f ↦ rw f (absorbed-IsValid offset es s v)
        ]

    pub step-IsValid : (s : State K E R) (ev : Event) → IsValid s → IsValid (step' s ev)
    unfolding step
    step-IsValid s (message offset value db_ok) v =
        receive-IsValid offset db_ok (unmarshal value) s v
    step-IsValid s (timer db_ok) v = flush-IsValid db_ok s v
    step-IsValid s (closed db_ok) v = flush-IsValid db_ok s v

    -- Through the whole loop every entry of the batch stands under its own key, no key stands twice,
    -- and while the batch holds anything there is a last message, so that `MarkMessage` never gets
    -- nil.
    pub run-IsValid :
        (events : List Event) (s : State K E R)
        → IsValid s
        → IsValid (run key time row batch_size unmarshal s events)
    unfolding run
    run-IsValid [] s v = v
    run-IsValid (closed db_ok ∷ events) s v = step-IsValid s (closed db_ok) v
    run-IsValid (message offset value db_ok ∷ events) s v =
        run-IsValid events (step' s (message offset value db_ok))
          (step-IsValid s (message offset value db_ok) v)
    run-IsValid (timer db_ok ∷ events) s v =
        run-IsValid events (step' s (timer db_ok)) (step-IsValid s (timer db_ok) v)
