-- ===== src/Consumer/Batch/Delivery.antt =====
-- No key of a received entry is lost, and when offsets are marked.
use mathlib.Core.List.{foldl, Memᴰ}
use mathlib.Core.Option
use cisco_netconf_mac_db.Common.{
  ℕ, ◌≡◌, refl, ◌∙◌, Bool, true, false, Bool-cases, Option-cases, ◌⊎◌, inl, inr, Option, none, some,
  ◌<|>◌, List, [], ◌∷◌, Text, Time, leb, length, Eq, lookup,
}
use cisco_netconf_mac_db.Consumer.Batch.{
  Event, message, timer, closed, State, absorb, flush, receive, step, run,
}
use cisco_netconf_mac_db.Consumer.Batch.Latest.{absorb-IsPresent}
use cisco_netconf_mac_db.Consumer.Batch.Laws.{IsValid, flush_lem, step-IsValid, absorbed-IsValid}

module _ {ℓ} {K E R : Type ℓ} ⦃eq : Eq K⦄ (key : E → K) (time : E → Time) (row : E → R)
    (batch_size : ℕ) (unmarshal : Text → Option (List E)) where
  abbrev step' : State K E R → Event → State K E R
  step' = step key time row batch_size unmarshal

  -- The key is in the batch or in the table.
  abbrev pub IsKept : K → State K E R → Type ℓ
  IsKept j s = ((e : E) × (lookup j s.batch ≡ some e)) ⊎ ((r : R) × (lookup j s.table ≡ some r))

  written :
      (o : Option E) (p : Option R)
      → ((e : E) × (o ≡ some e)) ⊎ ((r : R) × (p ≡ some r))
      → (r : R) × (Option.map row o <|> p ≡ some r)
  written o p (inl (e, h)) = (row e, rw h)
  written none p (inr h) = h
  written (some e) p (inr h) = (row e, refl)

  flush-IsKept :
      (j : K) (db_ok : Bool) (s : State K E R)
      → IsValid key row s
      → IsKept j s
      → IsKept j (flush key row db_ok s)
  flush-IsKept j false s v h = unfold flush in h
  flush-IsKept j true s v h =
      let (r, p) = written (lookup j s.batch) (lookup j s.table) h in
      inr (r, (flush_lem key row s v).1 j ∙ p)

  absorbed-IsKept :
      (j : K) (offset : ℕ) (es : List E) (s : State K E R)
      → IsKept j s ⊎ ((e : E) × Memᴰ e es × (key e ≡ j))
      → IsKept j (record s { batch = foldl (absorb key time) s.batch es; last_msg = some offset })
  absorbed-IsKept j offset es s (inl (inl h)) = inl (absorb-IsPresent key time j es s.batch (inl h))
  absorbed-IsKept j offset es s (inl (inr h)) = inr h
  absorbed-IsKept j offset es s (inr h) = inl (absorb-IsPresent key time j es s.batch (inr h))

  receive-IsKept :
      (j : K) (offset : ℕ) (db_ok : Bool) (es : List E) (s : State K E R)
      → IsValid key row s
      → IsKept j s ⊎ ((e : E) × Memᴰ e es × (key e ≡ j))
      → IsKept j (receive key time row batch_size unmarshal offset db_ok (some es) s)
  receive-IsKept j offset db_ok es s v h =
      elim (Bool-cases (leb batch_size (length (foldl (absorb key time) s.batch es)))) [
        | inl t ↦ rw t (
            flush-IsKept j db_ok _
              (absorbed-IsValid key row time batch_size unmarshal offset es s v)
              (absorbed-IsKept j offset es s h))
        | inr f ↦ rw f (absorbed-IsKept j offset es s h)
      ]

  step-IsKept :
      (j : K) (s : State K E R) (ev : Event)
      → IsValid key row s
      → IsKept j s
      → IsKept j (step' s ev)
  unfolding step
  step-IsKept j s (message offset value db_ok) v h = elim (Option-cases (unmarshal value)) [
    | inl e ↦ rw e h
    | inr (es, e) ↦ rw e (receive-IsKept j offset db_ok es s v (inl h))
  ]
  step-IsKept j s (timer db_ok) v h = flush-IsKept j db_ok s v h
  step-IsKept j s (closed db_ok) v h = flush-IsKept j db_ok s v h

  -- A received entry with the key: a message among the events that decodes to a list with it. No
  -- event before it closes the channel.
  pub data IsReceived (j : K) : List Event → Type ℓ where
    now :
        {offset : ℕ} {value : Text} {db_ok : Bool} {events : List Event} (es : List E) (e : E)
        → unmarshal value ≡ some es
        → Memᴰ e es
        → key e ≡ j
        → IsReceived j (message offset value db_ok ∷ events)
    after_message :
        {offset : ℕ} {value : Text} {db_ok : Bool} {events : List Event}
        → IsReceived j events
        → IsReceived j (message offset value db_ok ∷ events)
    after_timer :
        {db_ok : Bool} {events : List Event}
        → IsReceived j events
        → IsReceived j (timer db_ok ∷ events)

  run_keeps :
      (j : K) (events : List Event) (s : State K E R)
      → IsValid key row s
      → IsKept j s
      → IsKept j (run key time row batch_size unmarshal s events)
  unfolding run
  run_keeps j [] s v h = h
  run_keeps j (closed db_ok ∷ events) s v h = step-IsKept j s (closed db_ok) v h
  run_keeps j (message o value db_ok ∷ events) s v h =
      run_keeps j events (step' s (message o value db_ok))
        (step-IsValid key row time batch_size unmarshal s (message o value db_ok) v)
        (step-IsKept j s (message o value db_ok) v h)
  run_keeps j (timer db_ok ∷ events) s v h =
      run_keeps j events (step' s (timer db_ok))
        (step-IsValid key row time batch_size unmarshal s (timer db_ok) v)
        (step-IsKept j s (timer db_ok) v h)

  step-IsReceived :
      (j : K) (s : State K E R) (o : ℕ) (value : Text) (db_ok : Bool) (es : List E) (e : E)
      → IsValid key row s
      → unmarshal value ≡ some es
      → Memᴰ e es
      → key e ≡ j
      → IsKept j (step' s (message o value db_ok))
  unfolding step
  step-IsReceived j s o value db_ok es e v h m k =
      rw h (receive-IsKept j o db_ok es s v (inr (e, m, k)))

  -- No key is lost: whatever the outcomes of the statements and the other messages, the key of every
  -- entry that was received is at the end in the batch or has a row in the table.
  pub run_loses_nothing :
      (j : K) (events : List Event) (s : State K E R)
      → IsValid key row s
      → IsReceived j events
      → IsKept j (run key time row batch_size unmarshal s events)
  unfolding run
  run_loses_nothing j [] s v r = elim r [ ]
  run_loses_nothing j (closed db_ok ∷ events) s v r = elim r [ ]
  run_loses_nothing j (message o value db_ok ∷ events) s v (now es e h m k) =
      run_keeps j events (step' s (message o value db_ok))
        (step-IsValid key row time batch_size unmarshal s (message o value db_ok) v)
        (step-IsReceived j s o value db_ok es e v h m k)
  run_loses_nothing j (message o value db_ok ∷ events) s v (after_message r) =
      run_loses_nothing j events (step' s (message o value db_ok))
        (step-IsValid key row time batch_size unmarshal s (message o value db_ok) v) r
  run_loses_nothing j (timer db_ok ∷ events) s v (after_timer r) =
      run_loses_nothing j events (step' s (timer db_ok))
        (step-IsValid key row time batch_size unmarshal s (timer db_ok) v) r
