-- ===== src/Consumer/Batch/Refines.antt =====
-- The batching loop against a store that takes each entry at once.
use mathlib.Core.List.{foldl, foldl-append}
use mathlib.Core.Option
use mathlib.Core.Path.{subst}
use cisco_netconf_mac_db.Common.{
  ℕ, ◌≡◌, refl, sym, ap, ◌∙◌, Bool, true, false, Bool-cases, inl, inr, Option, none, some, ◌<|>◌,
  List, [], ◌∷◌, ◌++◌, Text, Time, after, leb, length, Eq, lookup, All, if◌then◌else◌,
}
use cisco_netconf_mac_db.Consumer.Batch.{
  Event, message, timer, closed, State, absorb, flush, receive, step, run,
}
use cisco_netconf_mac_db.Consumer.Batch.Latest.{newer, lookup-absorb}
use cisco_netconf_mac_db.Consumer.Batch.Laws.{IsValid, flush_lem, step-IsValid, absorbed-IsValid}

module _ {ℓ} {K E : Type ℓ} ⦃eq : Eq K⦄ (key : E → K) (time : E → Time) where
  -- `d` is no entry of the key, or is newer than the time.
  abbrev pub IsNewer : K → Time → E → Type ℓ
  IsNewer j t d = key d ≡ j → after (time d) t ≡ true

  -- Each entry is strictly newer than all earlier ones of its key.
  abbrev pub IsOrdered : List E → Type ℓ
  IsOrdered [] = Unit
  IsOrdered (e ∷ es) = All (IsNewer (key e) (time e)) es × IsOrdered es

  -- What the batch holds for a key is older than the entries that follow.
  abbrev IsAhead : List (K × E) → List E → Type ℓ
  IsAhead batch es = (j : K) (c : E) → lookup j batch ≡ some c → All (IsNewer j (time c)) es

  absorb_other :
      (j : K) (batch : List (K × E)) (e : E)
      → eq.beq (key e) j ≡ false
      → lookup j (absorb key time batch e) ≡ lookup j batch
  absorb_other j batch e f = lookup-absorb key time j batch e ∙ rw f refl

  absorb_same :
      (j : K) (batch : List (K × E)) (e : E) (es : List E)
      → eq.beq (key e) j ≡ true
      → IsAhead batch (e ∷ es)
      → lookup j (absorb key time batch e) ≡ some e
  absorb_same j batch e es t ahead =
      lookup-absorb key time j batch e ∙ rw t (wins (lookup j batch) refl)
    where
      wins : (o : Option E) → lookup j batch ≡ o → newer key time o e ≡ some e
      wins none h = refl
      wins (some c) h = rw ((ahead j c h).0 ((eq.beq_iff (key e) j).0 t)) refl

  absorb-IsAhead :
      (batch : List (K × E)) (e : E) (es : List E)
      → IsAhead batch (e ∷ es)
      → All (IsNewer (key e) (time e)) es
      → IsAhead (absorb key time batch e) es
  absorb-IsAhead batch e es ahead newer j c h = elim (Bool-cases (eq.beq (key e) j)) [
    | inl t ↦
        let same : e ≡ c = Option.some-injective _ _ (sym (absorb_same j batch e es t ahead) ∙ h) in
        let at_key : key e ≡ j = (eq.beq_iff (key e) j).0 t in
        subst (λ x. All (IsNewer j (time x)) es) same
          (subst (λ x. All (IsNewer x (time e)) es) at_key newer)
    | inr f ↦ (ahead j c (sym (absorb_other j batch e f) ∙ h)).1
  ]

module _ {ℓ} {K E R : Type ℓ} ⦃eq : Eq K⦄ (key : E → K) (time : E → Time) (row : E → R) where
  -- The store that the specification speaks of: the row of each key.
  abbrev pub Store : Type ℓ
  Store = K → Option R

  -- What a batch and a table stand for: the entries of the batch hide the rows of their keys.
  abbrev pub shown : List (K × E) → List (K × R) → Store
  shown batch table j = Option.map row (lookup j batch) <|> lookup j table

  abbrev pub view : State K E R → Store
  view s = shown s.batch s.table

  -- An entry taken at once.
  abbrev pub put : Store → E → Store
  put f e j = if eq.beq (key e) j then some (row e) else f j

  abbrev put_at : K → Option R → E → Option R
  put_at j o e = if eq.beq (key e) j then some (row e) else o

  foldl-put : (es : List E) (f : Store) (j : K) → foldl put f es j ≡ foldl (put_at j) (f j) es
  foldl-put [] f j = refl
  foldl-put (e ∷ es) f j = foldl-put es (put f e) j

  foldl-put_cong :
      (es : List E) (f g : Store) (j : K) → f j ≡ g j → foldl put f es j ≡ foldl put g es j
  foldl-put_cong es f g j h =
      foldl-put es f j ∙ ap (λ o. foldl (put_at j) o es) h ∙ sym (foldl-put es g j)

  shown-absorb :
      (j : K) (batch : List (K × E)) (table : List (K × R)) (e : E) (es : List E)
      → IsAhead key time batch (e ∷ es)
      → shown (absorb key time batch e) table j ≡ put (shown batch table) e j
  shown-absorb j batch table e es ahead = elim (Bool-cases (eq.beq (key e) j)) [
    | inl t ↦ rw t (rw (absorb_same key time j batch e es t ahead) refl)
    | inr f ↦ rw f (rw (absorb_other key time j batch e f) refl)
  ]

  record IsAbsorbed (batch : List (K × E)) (es rest : List E) : Type ℓ where
    ahead : IsAhead key time (foldl (absorb key time) batch es) rest
    ordered : IsOrdered key time rest
    shows :
        (table : List (K × R)) (j : K)
        → shown (foldl (absorb key time) batch es) table j ≡ foldl put (shown batch table) es j

  absorb_all :
      (es rest : List E) (batch : List (K × E))
      → IsOrdered key time (es ++ rest)
      → IsAhead key time batch (es ++ rest)
      → IsAbsorbed batch es rest
  absorb_all [] rest batch o a = record { ahead = a; ordered = o; shows = λ table j. refl }
  absorb_all (e ∷ es) rest batch o a =
      let later =
        absorb_all es rest (absorb key time batch e) o.1
          (absorb-IsAhead key time batch e (es ++ rest) a o.0) in
      record {
        ahead = later.ahead;
        ordered = later.ordered;
        shows = λ table j.
            later.shows table j
            ∙ foldl-put_cong es (shown (absorb key time batch e) table) (put (shown batch table) e)
                j (shown-absorb j batch table e (es ++ rest) a);
      }

  view-flush :
      (db_ok : Bool) (s : State K E R)
      → IsValid key row s
      → (j : K) → view (flush key row db_ok s) j ≡ view s j
  view-flush false s v j = unfold flush in refl
  view-flush true s v j =
      let (emptied, written, kept) = flush_lem key row s v in
      rw emptied (unfold lookup in written j)

  empty-IsAhead : (batch : List (K × E)) (es : List E) → batch ≡ [] → IsAhead key time batch es
  unfolding lookup
  empty-IsAhead batch es emptied j c h = cc (ap (λ b. lookup j b) emptied, h)

  flush-IsAhead :
      (db_ok : Bool) (s : State K E R) (es : List E)
      → IsValid key row s
      → IsAhead key time s.batch es
      → IsAhead key time (flush key row db_ok s).batch es
  flush-IsAhead false s es v a = unfold flush in a
  flush-IsAhead true s es v a =
      empty-IsAhead (flush key row true s).batch es (flush_lem key row s v).0

  module _ (batch_size : ℕ) (unmarshal : Text → Option (List E)) where
    abbrev step' : State K E R → Event → State K E R
    step' = step key time row batch_size unmarshal

    abbrev pub decoded : Option (List E) → List E
    decoded none = []
    decoded (some es) = es

    -- The entries of the messages that arrive before the channel is closed, in order.
    abbrev pub received : List Event → List E
    received [] = []
    received (closed db_ok ∷ events) = []
    received (timer db_ok ∷ events) = received events
    received (message offset value db_ok ∷ events) = decoded (unmarshal value) ++ received events

    record IsStep (s s' : State K E R) (es rest : List E) : Type ℓ where
      ahead : IsAhead key time s'.batch rest
      ordered : IsOrdered key time rest
      shows : (j : K) → view s' j ≡ foldl put (view s) es j

    flush-IsStep :
        (db_ok : Bool) (s : State K E R) (rest : List E)
        → IsValid key row s
        → IsOrdered key time rest
        → IsAhead key time s.batch rest
        → IsStep s (flush key row db_ok s) [] rest
    flush-IsStep db_ok s rest v o a = record {
      ahead = flush-IsAhead db_ok s rest v a;
      ordered = o;
      shows = view-flush db_ok s v;
    }

    buffered-IsStep :
        (offset : ℕ) (es rest : List E) (s : State K E R)
        → IsOrdered key time (es ++ rest)
        → IsAhead key time s.batch (es ++ rest)
        → IsStep s
            (record s { batch = foldl (absorb key time) s.batch es; last_msg = some offset })
            es
            rest
    buffered-IsStep offset es rest s o a =
        let all = absorb_all es rest s.batch o a in
        record { ahead = all.ahead; ordered = all.ordered; shows = all.shows s.table }

    receive-IsStep :
        (offset : ℕ) (db_ok : Bool) (o : Option (List E)) (rest : List E) (s : State K E R)
        → IsValid key row s
        → IsOrdered key time (decoded o ++ rest)
        → IsAhead key time s.batch (decoded o ++ rest)
        → IsStep s (receive key time row batch_size unmarshal offset db_ok o s) (decoded o) rest
    receive-IsStep offset db_ok none rest s v o a = record {
      ahead = a;
      ordered = o;
      shows = λ j. refl;
    }
    receive-IsStep offset db_ok (some es) rest s v o a =
        elim (Bool-cases (leb batch_size (length (foldl (absorb key time) s.batch es)))) [
          | inl t ↦ rw t (
              let kept = buffered-IsStep offset es rest s o a in
              let valid = absorbed-IsValid key row time batch_size unmarshal offset es s v in
              let flushed = flush-IsStep db_ok _ rest valid kept.ordered kept.ahead in
              record {
                ahead = flushed.ahead;
                ordered = flushed.ordered;
                shows = λ j. flushed.shows j ∙ kept.shows j;
              })
          | inr f ↦ rw f (buffered-IsStep offset es rest s o a)
        ]

    -- The batching loop implements a store that takes each entry the moment it arrives: whatever the outcomes
    -- of the statements, the timers and the undecodable messages, what its batch and table together show for
    -- a key is what that store has. Each entry that arrives has to be strictly newer than the earlier ones of
    -- its key and than the one that the batch has for its key at the start.
    pub run_refines :
        (events : List Event) (s : State K E R)
        → IsValid key row s
        → IsOrdered key time (received events)
        → ((j : K) (c : E)
            → lookup j s.batch ≡ some c
            → All (IsNewer key time j (time c)) (received events))
        → (j : K)
        → view (run key time row batch_size unmarshal s events) j
          ≡ foldl put (view s) (received events) j
    unfolding run step
    run_refines [] s v o a j = refl
    run_refines (closed db_ok ∷ events) s v o a j = view-flush db_ok s v j
    run_refines (timer db_ok ∷ events) s v o a j =
        let next = flush-IsStep db_ok s (received events) v o a in
        run_refines events (flush key row db_ok s)
          (step-IsValid key row time batch_size unmarshal s (timer db_ok) v) next.ordered next.ahead
          j
        ∙ foldl-put_cong (received events) _ _ j (next.shows j)
    run_refines (message offset value db_ok ∷ events) s v o a j =
        let next = receive-IsStep offset db_ok (unmarshal value) (received events) s v o a in
        run_refines events (step' s (message offset value db_ok))
          (step-IsValid key row time batch_size unmarshal s (message offset value db_ok) v)
          next.ordered next.ahead j
        ∙ foldl-put_cong (received events) _ (foldl put (view s) (decoded (unmarshal value))) j
            (next.shows j)
        ∙ ap (λ f. f j)
            (sym (foldl-append put (view s) (decoded (unmarshal value)) (received events)))
