-- ===== src/Consumer/Batch/Marks.antt =====
-- When offsets are marked as consumed.
use mathlib.Core.List.{foldl}
use mathlib.Core.Option
use mathlib.Core.Path.{subst}
use cisco_netconf_mac_db.Common.{
  ℕ, ◌+◌, ◌≤◌, ◌<◌, ◌≡◌, refl, sym, ap, Bool, true, false, Option-cases, ◌⊎◌, inl, inr, Option,
  none, some, ◌<|>◌, List, [], ◌∷◌, ◌++◌, Text, Time, leb, length, Eq, if◌then◌else◌, lookup,
  length-insert, arith,
}
use cisco_netconf_mac_db.Consumer.Batch.{
  Event, message, timer, closed, State, absorb, mark, flush_batch, flush, receive, step,
}
use cisco_netconf_mac_db.Consumer.Batch.Laws.{IsValid, flush_lem, absorbed-IsValid}

module _ {ℓ} {K E R : Type ℓ} ⦃eq : Eq K⦄ (key : E → K) (time : E → Time) (row : E → R)
    (batch_size : ℕ) (unmarshal : Text → Option (List E)) where
  abbrev step' : State K E R → Event → State K E R
  step' = step key time row batch_size unmarshal

  abbrev entries_in : Option (List E) → List E
  entries_in none = []
  entries_in (some es) = es

  -- What a round takes in: the entries of a message that decodes.
  abbrev pub entries_of : Event → List E
  entries_of (message offset value db_ok) = entries_in (unmarshal value)
  entries_of (timer db_ok) = []
  entries_of (closed db_ok) = []

  -- The batch of a round, with the entries it takes in.
  abbrev pub filled : State K E R → Event → List (K × E)
  filled s ev = foldl (absorb key time) s.batch (entries_of ev)

  abbrev pub last_message : State K E R → Event → Option ℕ
  last_message s (message offset value db_ok) = some offset
  last_message s (timer db_ok) = s.last_msg
  last_message s (closed db_ok) = s.last_msg

  -- Whether the statement of a round succeeds, if it executes one.
  abbrev pub succeeds : Event → Bool
  succeeds (message offset value db_ok) = db_ok
  succeeds (timer db_ok) = db_ok
  succeeds (closed db_ok) = db_ok

  -- Whether a round flushes: after a message only a full batch.
  abbrev pub is_due : State K E R → Event → Bool
  is_due s (message offset value db_ok) =
      leb batch_size (length (filled s (message offset value db_ok)))
  is_due s (timer db_ok) = true
  is_due s (closed db_ok) = true

  -- From `s` to `t` the entries of `batch` have been written to the table, and the last message, and
  -- nothing else, has been marked.
  pub record IsFlushed (batch : List (K × E)) (last : Option ℕ) (s t : State K E R) : Type ℓ where
    pub empties : t.batch ≡ []
    pub writes : (j : K) → lookup j t.table ≡ Option.map row (lookup j batch) <|> lookup j s.table
    pub marks : (o : ℕ) × (last ≡ some o) × (t.marked ≡ s.marked ++ o ∷ [])

  -- From `s` to `t` nothing has been written or marked, and the batch has come to be `batch`.
  pub record IsHeld (batch : List (K × E)) (last : Option ℕ) (s t : State K E R) : Type ℓ where
    pub keeps : t.batch ≡ batch
    pub last_kept : t.last_msg ≡ last
    pub table_same : t.table ≡ s.table
    pub marked_same : t.marked ≡ s.marked

  -- From `s` to `t` a message whose value does not decode has been marked, and nothing else has changed.
  pub data IsDropped (s t : State K E R) : Event → Type ℓ where
    bad_message :
        {offset : ℕ} {value : Text} {db_ok : Bool}
        → unmarshal value ≡ none
        → t ≡ record s { marked = s.marked ++ offset ∷ [] }
        → IsDropped s t (message offset value db_ok)

  abbrev FlushesOrHolds : Bool → State K E R → State K E R → Type ℓ
  FlushesOrHolds db_ok s t =
      ((db_ok ≡ true) × IsFlushed s.batch s.last_msg s t)
      ⊎ (((db_ok ≡ false) ⊎ (s.batch ≡ [])) × IsHeld s.batch s.last_msg s t)

  held : (s : State K E R) → IsHeld s.batch s.last_msg s s
  held s = record { keeps = refl; last_kept = refl; table_same = refl; marked_same = refl }

  flush_batch_marks :
      (b : List (K × E)) (o : Option ℕ) (s : State K E R)
      → IsValid key row s
      → s.batch ≡ b
      → s.last_msg ≡ o
      → FlushesOrHolds true s (flush key row true s)
  unfolding flush
  flush_batch_marks [] o s v empty last =
      subst (λ b. FlushesOrHolds true s (flush_batch key row b s)) (sym empty)
        (inr (inr empty, held s))
  flush_batch_marks (p ∷ b) none s v full last = absurd (cc (v.has_message last, full))
  flush_batch_marks (p ∷ b) (some n) s v full last =
      let (empties, writes, _) = flush_lem key row s v in
      inl (
        refl,
        record {
          empties = empties;
          writes = writes;
          marks = (
            n,
            last,
            subst (λ b. (flush_batch key row b s).marked ≡ s.marked ++ n ∷ []) (sym full)
                (ap (λ o. mark o s.marked) last),
          );
        },
      )

  flush_marks :
      (db_ok : Bool) (s : State K E R)
      → IsValid key row s
      → FlushesOrHolds db_ok s (flush key row db_ok s)
  flush_marks true s v = flush_batch_marks s.batch s.last_msg s v refl refl
  flush_marks false s v = unfold flush in inr (inl refl, held s)

  -- Whether a flush is due, a batch, its last message, and what comes of them.
  abbrev RoundEnds : Bool → Bool → List (K × E) → Option ℕ → State K E R → State K E R → Type ℓ
  RoundEnds due db_ok batch last s t =
      ((due ≡ true) × (db_ok ≡ true) × IsFlushed batch last s t)
      ⊎ (((due ≡ false) ⊎ (db_ok ≡ false) ⊎ (batch ≡ [])) × IsHeld batch last s t)

  when_due :
      (db_ok : Bool) (s t : State K E R)
      → FlushesOrHolds db_ok s t
      → RoundEnds true db_ok s.batch s.last_msg s t
  when_due db_ok s t (inl (h, f)) = inl (refl, h, f)
  when_due db_ok s t (inr (h, k)) = inr (inr h, k)

  flush_if :
      (due db_ok : Bool) (s : State K E R)
      → IsValid key row s
      → RoundEnds due db_ok s.batch s.last_msg s (if due then flush key row db_ok s else s)
  flush_if true db_ok s v = when_due db_ok s (flush key row db_ok s) (flush_marks db_ok s v)
  flush_if false db_ok s v = inr (inl refl, held s)

  abbrev with_entries : ℕ → List E → State K E R → State K E R
  with_entries offset es s = record s {
    batch = foldl (absorb key time) s.batch es;
    last_msg = some offset;
  }

  before_entries :
      (due db_ok : Bool) (offset : ℕ) (es : List E) (s t : State K E R)
      → RoundEnds due db_ok
          (foldl (absorb key time) s.batch es)
          (some offset)
          (with_entries offset es s)
          t
      → RoundEnds due db_ok (foldl (absorb key time) s.batch es) (some offset) s t
  before_entries due db_ok offset es s t (inl (d, h, f)) =
      inl (d, h, record { empties = f.empties; writes = f.writes; marks = f.marks })
  before_entries due db_ok offset es s t (inr (h, k)) = inr (
    h,
    record {
      keeps = k.keeps;
      last_kept = k.last_kept;
      table_same = k.table_same;
      marked_same = k.marked_same;
    },
  )

  receive_ends :
      (offset : ℕ) (db_ok : Bool) (es : List E) (s : State K E R)
      → IsValid key row s
      → let batch = foldl (absorb key time) s.batch es in
        RoundEnds
          (leb batch_size (length batch))
          db_ok
          batch
          (some offset)
          s
          (receive key time row batch_size unmarshal offset db_ok (some es) s)
  receive_ends offset db_ok es s v =
      let batch = foldl (absorb key time) s.batch es in
      before_entries (leb batch_size (length batch)) db_ok offset es s _ (
        flush_if (leb batch_size (length batch)) db_ok (with_entries offset es s)
          (absorbed-IsValid key row time batch_size unmarshal offset es s v))

  -- A round of the loop either drops a message that does not decode; or, where a flush is due and its
  -- statement succeeds, writes every entry of the batch, those of its message included, and marks the
  -- last message and nothing else; or writes and marks nothing and keeps all these entries, and then a
  -- flush is not due, or its statement fails, or there is no entry. So apart from messages that do not
  -- decode, a round marks an offset only after writing the whole batch.
  pub step_marks :
      (s : State K E R) (ev : Event)
      → IsValid key row s
      → IsDropped s (step' s ev) ev
        ⊎ ((is_due s ev ≡ true)
            × (succeeds ev ≡ true)
            × IsFlushed (filled s ev) (last_message s ev) s (step' s ev))
        ⊎ (((is_due s ev ≡ false) ⊎ (succeeds ev ≡ false) ⊎ (filled s ev ≡ []))
            × IsHeld (filled s ev) (last_message s ev) s (step' s ev))
  unfolding step
  step_marks s (message offset value db_ok) v = elim (Option-cases (unmarshal value)) [
    | inl e ↦ inl (bad_message e (rw e refl))
    | inr (es, e) ↦ rw e (inr (receive_ends offset db_ok es s v))
  ]
  step_marks s (timer db_ok) v = inr (when_due db_ok s _ (flush_marks db_ok s v))
  step_marks s (closed db_ok) v = inr (when_due db_ok s _ (flush_marks db_ok s v))

  not-leb_of_lt : (n m : ℕ) → m < n → leb n m ≡ false
  not-leb_of_lt n m h = ground arith

  length-absorb :
      (batch : List (K × E)) (e : E) → length (absorb key time batch e) ≤ length batch + 1
  unfolding absorb
  length-absorb batch e = ground (arith, length-insert (key e) e batch)

  length-foldl :
      (es : List E) (batch : List (K × E))
      → length (foldl (absorb key time) batch es) ≤ length batch + length es
  length-foldl [] batch = omega arith
  length-foldl (e ∷ es) batch =
      omega (arith, length-foldl es (absorb key time batch e), length-absorb batch e)

  -- A message that does not decode marks the entries before it too early: after a message of fewer
  -- entries than a batch, and one that does not decode, the second offset is marked while the table has
  -- none of the entries.
  pub bad_message_marks_early :
      (s : State K E R) (o o' : ℕ) (value bad : Text) (db_ok db_ok' : Bool) (es : List E)
      → s.batch ≡ []
      → unmarshal value ≡ some es
      → length es < batch_size
      → unmarshal bad ≡ none
      → let t = step' (step' s (message o value db_ok)) (message o' bad db_ok') in
        (t.marked ≡ s.marked ++ o' ∷ [])
        × (t.table ≡ s.table)
        × (t.batch ≡ foldl (absorb key time) [] es)
  unfolding step
  bad_message_marks_early s o o' value bad db_ok db_ok' es empty good few undecodable =
      let fits : length (foldl (absorb key time) [] es) < batch_size =
        omega (arith, length-foldl es []) in
      rw (good, undecodable, empty, not-leb_of_lt batch_size _ fits) (refl, refl, refl)
