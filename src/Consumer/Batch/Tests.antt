-- ===== src/Consumer/Batch/Tests.antt =====
-- The batching loops of consumer/main.go on concrete messages.
use mathlib.Core.List.{foldl, Memᴰ}
use cisco_netconf_mac_db.Common.{
  ℕ, pos, ◌≡◌, refl, ◌⊎◌, Bool, true, false, Option, none, some, List, [], ◌∷◌, Text, Time, codes,
  lookup, insert, text_eq, text_pair_has_eq, text_pair_beq, text_pair_beq_iff, sym, text_ℕ_has_eq,
  text_has_eq, arith,
}
use cisco_netconf_mac_db.Payload.{MacEntry}
use cisco_netconf_mac_db.Consumer.Batch.{
  Event, message, timer, closed, State, absorb, flush, upsert_all, step, run,
}
use cisco_netconf_mac_db.Consumer.Batch.Latest.{IsLatest, absorb-IsLatest}
use cisco_netconf_mac_db.Consumer.Batch.Refines.{IsOrdered, run_refines, put, view}
use cisco_netconf_mac_db.Consumer.Batch.Laws.{IsValid, run-IsValid}
use cisco_netconf_mac_db.Consumer.Batch.Delivery.{
  IsKept, IsReceived, now, after_timer, run_loses_nothing,
}
use cisco_netconf_mac_db.Consumer.Batch.Marks.{
  IsDropped, IsFlushed, IsHeld, step_marks, bad_message_marks_early,
}
use cisco_netconf_mac_db.Consumer.Dynamic.{
  MacKey, MacRow, mac_key, mac_row, mac_batch_size, consume_mac_batch,
}

-- MAC entries: two of one address, at 5 ms and at 7 ms, and one of another.
abbrev mac_at : ℕ → Text → Text → MacEntry
mac_at time address port = record {
  timestamp = pos time;
  node_id = codes "sw1";
  mac_address = address;
  interface = port;
  vlan = 10;
  type = codes "dynamic";
}

abbrev early : MacEntry
early = mac_at 5 (codes "00aa") (codes "Gi1")

abbrev late : MacEntry
late = mac_at 7 (codes "00aa") (codes "Gi2")

abbrev different : MacEntry
different = mac_at 6 (codes "00bb") (codes "Gi3")

abbrev mac_list : List MacEntry
mac_list = late ∷ different ∷ early ∷ []

-- A decoder that takes every text that is not empty for `mac_list`.
abbrev pub read_macs : Text → Option (List MacEntry)
read_macs [] = none
read_macs (_ ∷ _) = some mac_list

abbrev MacState : Type 0
MacState = State MacKey MacEntry MacRow

abbrev no_macs : MacState
no_macs = record { batch = []; last_msg = none; marked = []; table = [] }

no_macs-IsValid : IsValid mac_key mac_row no_macs
no_macs-IsValid = record { keyed = tt; distinct = tt; has_message = λ _. refl }

abbrev one_mac : MacState
one_mac = record {
  batch = (mac_key late, late) ∷ [];
  last_msg = some 3;
  marked = [];
  table = (mac_key different, mac_row different) ∷ [];
}

one_mac-IsValid : IsValid mac_key mac_row one_mac
unfolding lookup
one_mac-IsValid = record { keyed = (refl, tt); distinct = (refl, tt); has_message = λ p. cc p }

abbrev mac_events : List Event
mac_events =
    timer true ∷ message 1 (b'x' ∷ []) true ∷ timer false ∷ message 2 [] true ∷ closed true ∷ []

abbrev mac_time : MacEntry → Time
mac_time e = e.timestamp

run-mac_events : consume_mac_batch read_macs no_macs mac_events ≡ record {
  batch = [];
  last_msg = none;
  marked = 2 ∷ 1 ∷ [];
  table = (mac_key late, mac_row late) ∷ (mac_key different, mac_row different) ∷ [];
}
unfolding consume_mac_batch run step flush absorb lookup upsert_all insert codes text_eq
run-mac_events = refl

different-IsReceived :
    IsReceived mac_key mac_time mac_row mac_batch_size read_macs (mac_key different) mac_events
different-IsReceived = after_timer (now mac_list different refl (Memᴰ.tail (Memᴰ.head refl)) refl)

run_loses_nothing_example :
    IsKept mac_key mac_time mac_row mac_batch_size read_macs
      (mac_key different)
      (run mac_key mac_time mac_row mac_batch_size read_macs no_macs mac_events)
run_loses_nothing_example =
    run_loses_nothing mac_key mac_time mac_row mac_batch_size read_macs (mac_key different)
      mac_events no_macs no_macs-IsValid different-IsReceived

absorbed : lookup (mac_key early) (foldl (absorb mac_key mac_time) [] mac_list) ≡ some late
unfolding absorb lookup insert codes text_eq
absorbed = refl

absorb-IsLatest_example : IsLatest mac_key mac_time (mac_key early) none mac_list late
unfolding lookup
absorb-IsLatest_example = absorb-IsLatest mac_key mac_time (mac_key early) mac_list [] late absorbed

run-IsValid_example :
    IsValid mac_key mac_row
      (run mac_key mac_time mac_row mac_batch_size read_macs one_mac mac_events)
run-IsValid_example =
    run-IsValid mac_key mac_row mac_time mac_batch_size read_macs mac_events one_mac one_mac-IsValid

step_marks_example :
    let s = step mac_key mac_time mac_row mac_batch_size read_macs one_mac (timer true) in
    IsDropped mac_key mac_time mac_row mac_batch_size read_macs one_mac s (timer true)
    ⊎ ((true ≡ true)
        × (true ≡ true)
        × IsFlushed mac_key mac_time mac_row mac_batch_size read_macs one_mac.batch one_mac.last_msg
            one_mac s)
    ⊎ (((true ≡ false) ⊎ (true ≡ false) ⊎ (one_mac.batch ≡ []))
        × IsHeld mac_key mac_time mac_row mac_batch_size read_macs one_mac.batch one_mac.last_msg
            one_mac s)
step_marks_example =
    step_marks mac_key mac_time mac_row mac_batch_size read_macs one_mac (timer true)
      one_mac-IsValid

bad_message_marks_early_example :
    let step' = step mac_key mac_time mac_row mac_batch_size read_macs in
    let t = step' (step' no_macs (message 1 (b'x' ∷ []) true)) (message 2 [] true) in
    (t.marked ≡ 2 ∷ []) × (t.table ≡ []) × (t.batch ≡ foldl (absorb mac_key mac_time) [] mac_list)
bad_message_marks_early_example =
    bad_message_marks_early mac_key mac_time mac_row mac_batch_size read_macs no_macs 1 2
      (b'x' ∷ []) [] true true mac_list refl refl (omega arith) refl

-- The same entries in an order that keeps that of each address.
abbrev ordered_list : List MacEntry
ordered_list = different ∷ early ∷ late ∷ []

abbrev read_ordered : Text → Option (List MacEntry)
read_ordered [] = none
read_ordered (_ ∷ _) = some ordered_list

keys_differ : (b : Bool) → text_pair_beq (mac_key different) (mac_key early) ≡ true → b ≡ true
unfolding codes text_eq
keys_differ b h = cc h

ordered_list-IsOrdered : IsOrdered mac_key mac_time ordered_list
ordered_list-IsOrdered =
    let other : (b : Bool) → mac_key early ≡ mac_key different → b ≡ true =
      λ b h. keys_differ b ((text_pair_beq_iff (mac_key different) (mac_key early)).1 (sym h)) in
    ((other _, (other _, tt)), ((λ h. refl, tt), (tt, tt)))

nothing_batched : (j : MacKey) (c : MacEntry) → lookup j no_macs.batch ≡ some c → ⊥
unfolding lookup
nothing_batched j c h = cc h

run_refines_example :
    view mac_key mac_time mac_row
      (run mac_key mac_time mac_row mac_batch_size read_ordered no_macs mac_events)
      (mac_key early)
    ≡ foldl
        (put mac_key mac_time mac_row)
        (view mac_key mac_time mac_row no_macs)
        ordered_list
        (mac_key early)
run_refines_example =
    run_refines mac_key mac_time mac_row mac_batch_size read_ordered mac_events no_macs
      no_macs-IsValid ordered_list-IsOrdered (λ j c h. absurd (nothing_batched j c h))
      (mac_key early)
