-- ===== src/Consumer/Batch.antt =====
-- The loop that `consumeMACBatch` and `consumeARPBatch` of consumer/main.go share: both buffer
-- entries in a map and flush it as one upsert. The key, the time and the row of an entry, the decoder
-- and the batch size are parameters; Consumer/Dynamic.antt has the two instances.
--
-- The Go map is an association list, in the order of insertion. The order in which the rows of a flush are
-- written does not show, since their keys differ. An event carries the outcome of the
-- statement that its round may execute. A message is its offset and its value.
pub mod Laws
pub mod Latest
pub mod Delivery
pub mod Marks
pub mod Refines
pub mod Tests
use mathlib.Core.List.{foldl}
use cisco_netconf_mac_db.Common.{
  ℕ, Bool, Option, none, some, List, [], ◌∷◌, ◌++◌, Text, Time, after, leb, length, Eq, lookup,
  insert, if◌then◌else◌,
}

-- What a round of the `select` waits for; the timer fires when it does.
pub data Event : Type 0 where
  message : ℕ → Text → Bool → Event
  timer : Bool → Event
  closed : Bool → Event

pub record State {ℓ} (K E R : Type ℓ) : Type ℓ where
  pub batch : List (K × E)
  pub last_msg : Option ℕ
  pub marked : List ℕ
  pub table : List (K × R)

module _ {ℓ} {K E : Type ℓ} ⦃eq : Eq K⦄ (key : E → K) (time : E → Time) where
  -- `cur, exists := batch[k]; !exists || e.Timestamp.After(cur.Timestamp)`
  abbrev pub is_newer : Option E → E → Bool
  is_newer none e = Bool.true
  is_newer (some cur) e = after (time e) (time cur)

  unfoldable pub absorb : List (K × E) → E → List (K × E)
  absorb batch e = if is_newer (lookup (key e) batch) e then insert (key e) e batch else batch

-- `MarkMessage`, of a message that may be nil
abbrev pub mark : Option ℕ → List ℕ → List ℕ
mark none marked = marked
mark (some offset) marked = marked ++ offset ∷ []

module _ {ℓ} {K E R : Type ℓ} ⦃eq : Eq K⦄ (key : E → K) (row : E → R) where
  -- the upsert of all rows of a batch
  unfoldable pub upsert_all : List (K × E) → List (K × R) → List (K × R)
  upsert_all [] table = table
  upsert_all ((k, e) ∷ batch) table = upsert_all batch (insert (key e) (row e) table)

  abbrev pub flush_batch : List (K × E) → State K E R → State K E R
  flush_batch [] s = s
  flush_batch (b ∷ bs) s = record {
    batch = [];
    last_msg = none;
    marked = mark s.last_msg s.marked;
    table = upsert_all (b ∷ bs) s.table;
  }

  -- `flush`: an empty batch does nothing; a failed statement leaves all as it is
  unfoldable pub flush : Bool → State K E R → State K E R
  flush db_ok s = if db_ok then flush_batch s.batch s else s

module _ {ℓ} {K E R : Type ℓ} ⦃eq : Eq K⦄ (key : E → K) (time : E → Time) (row : E → R)
    (batch_size : ℕ) (unmarshal : Text → Option (List E)) where
  abbrev pub receive : ℕ → Bool → Option (List E) → State K E R → State K E R
  receive offset db_ok none s = record s { marked = s.marked ++ offset ∷ [] }
  receive offset db_ok (some entries) s =
      let s' = record s {
        batch = foldl (absorb key time) s.batch entries;
        last_msg = some offset;
      } in
      if leb batch_size (length s'.batch) then flush key row db_ok s' else s'

  -- one round of the loop
  unfoldable pub step : State K E R → Event → State K E R
  step s (message offset value db_ok) = receive offset db_ok (unmarshal value) s
  step s (timer db_ok) = flush key row db_ok s
  step s (closed db_ok) = flush key row db_ok s

  -- the loop: it returns once the channel is closed
  unfoldable pub run : State K E R → List Event → State K E R
  run s [] = s
  run s (closed db_ok ∷ events) = step s (closed db_ok)
  run s (e ∷ events) = run (step s e) events
