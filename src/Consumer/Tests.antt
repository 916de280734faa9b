-- ===== src/Consumer/Tests.antt =====
-- consumer/main.go on concrete messages.
use mathlib.Core.List.{Memᴰ}
use cisco_netconf_mac_db.Common.{
  ℕ, pos, ◌≡◌, refl, ◌↔◌, Bool, true, false, Option, none, some, List, [], ◌∷◌, ◌++◌, Text, Time,
  codes, lookup, insert, text_eq, text_pair_has_eq, text_ℕ_has_eq, text_has_eq, Distinct, ◌==◌,
  if◌then◌else◌,
}
use cisco_netconf_mac_db.Payload.{VlanEntry}
use cisco_netconf_mac_db.Consumer.Entries.{IfEntry}
use cisco_netconf_mac_db.Consumer.Batch.{Event, message, closed}
use cisco_netconf_mac_db.Consumer.Batch.Tests.{read_macs}
use cisco_netconf_mac_db.Consumer.Interface
use cisco_netconf_mac_db.Consumer.Interface.Messages as InterfaceMessages
use cisco_netconf_mac_db.Consumer.Vlan
use cisco_netconf_mac_db.Consumer.Claim.{World, Outside, handle, consume_each, consume_claim}
use cisco_netconf_mac_db.Consumer.Claim.Laws.{succeeding, offsets, consume_each_replay}
use cisco_netconf_mac_db.Consumer.Cleanup
use cisco_netconf_mac_db.Consumer.Cleanup.{tick, done, start_cleanup, main_ttls}
use cisco_netconf_mac_db.Consumer.Cleanup.Laws.{IsSurvivor, start_cleanup_iff}

-- Interface payloads: a snapshot at 5 ms with a description, a change at 7 ms that clears it.
abbrev iface_at : ℕ → Option Text → IfEntry
iface_at time description = record {
  timestamp = pos time;
  node_id = codes "sw1";
  name = codes "Vlan7";
  description = description;
  shutdown = some false;
  ip_address = none;
  prefix_len = none;
  vrf = none;
  mtu = none;
  access_vlan = some 7;
  voice_vlan = none;
}

abbrev snapshot : IfEntry
snapshot = iface_at 5 (some (codes "uplink"))

abbrev change : IfEntry
change = iface_at 7 (some [])

-- A decoder that reads the first byte: 1 for the snapshot, 2 for the change.
abbrev read_iface : Text → Option IfEntry
read_iface [] = none
read_iface (b ∷ _) = if b == 1 then some snapshot else if b == 2 then some change else none

abbrev accepts_iface : IfEntry → Interface.InterfaceTable → Bool
accepts_iface e table = true

abbrev iface_row : Interface.InterfaceRow
iface_row = Interface.excluded change false

abbrev iface_table : Interface.InterfaceTable
iface_table = (Interface.interface_key change, iface_row) ∷ []

abbrev iface_after : Text → Interface.InterfaceTable → Interface.InterfaceTable
iface_after b table = (Interface.handle_interface read_iface accepts_iface b table).1

iface_after-change : iface_after (2 ∷ []) [] ≡ iface_table
unfolding Interface.handle_interface Interface.upsert_interface lookup insert
iface_after-change = refl

change_is_ok : (Interface.handle_interface read_iface accepts_iface (2 ∷ []) []).0 ≡ none
unfolding Interface.handle_interface
change_is_ok = refl

iface_table-stored : lookup (Interface.interface_key snapshot) iface_table ≡ some iface_row
unfolding lookup codes text_eq
iface_table-stored = refl

handle_interface_ordered_example :
    iface_after (1 ∷ []) (iface_after (2 ∷ []) []) ≡ iface_after (2 ∷ []) []
handle_interface_ordered_example =
    InterfaceMessages.handle_interface_ordered read_iface accepts_iface (2 ∷ []) (1 ∷ []) change
      snapshot [] refl change_is_ok refl refl refl

-- A statement that fails.
abbrev refuses_iface : IfEntry → Interface.InterfaceTable → Bool
refuses_iface e table = false

handle_interface_repeat_example :
    iface_after (2 ∷ []) (InterfaceMessages.table_after read_iface refuses_iface (2 ∷ []) [])
    ≡ InterfaceMessages.table_after read_iface
        (InterfaceMessages.one_of read_iface refuses_iface accepts_iface)
        (2 ∷ [])
        []
handle_interface_repeat_example =
    InterfaceMessages.handle_interface_repeat read_iface refuses_iface accepts_iface (2 ∷ []) []

-- VLAN payloads: a snapshot at 5 ms with a name, a change at 7 ms that clears it.
abbrev vlan_at : ℕ → Option Text → VlanEntry
vlan_at time name = record {
  timestamp = pos time;
  node_id = codes "sw1";
  vlan_id = 7;
  name = name;
  status = codes "active";
}

abbrev vlan_snapshot : VlanEntry
vlan_snapshot = vlan_at 5 (some (codes "office"))

abbrev vlan_change : VlanEntry
vlan_change = vlan_at 7 (some [])

abbrev read_vlan : Text → Option VlanEntry
read_vlan [] = none
read_vlan (b ∷ _) = if b == 1 then some vlan_snapshot else if b == 2 then some vlan_change else none

abbrev accepts_vlan : VlanEntry → Vlan.VlanTable → Bool
accepts_vlan e table = true

abbrev vlan_row : Vlan.VlanRow
vlan_row = Vlan.excluded vlan_change

abbrev vlan_table : Vlan.VlanTable
vlan_table = (Vlan.vlan_key vlan_change, vlan_row) ∷ []

abbrev vlan_after : Text → Vlan.VlanTable → Vlan.VlanTable
vlan_after b table = (Vlan.handle_vlan read_vlan accepts_vlan b table).1

vlan_change_is_ok : (Vlan.handle_vlan read_vlan accepts_vlan (2 ∷ []) []).0 ≡ none
unfolding Vlan.handle_vlan
vlan_change_is_ok = refl

vlan_table-stored : lookup (Vlan.vlan_key vlan_snapshot) vlan_table ≡ some vlan_row
unfolding lookup codes text_eq
vlan_table-stored = refl

-- A claim on interface-table: one message that does not decode between two that do.
abbrev outside : Outside
outside = record {
  unmarshal_macs = read_macs;
  unmarshal_arps = λ b. none;
  unmarshal_interface = read_iface;
  unmarshal_vlan = read_vlan;
  accepts_interface = accepts_iface;
  accepts_vlan = accepts_vlan;
}

abbrev topic_of : ℕ → Text
topic_of offset = codes "interface-table"

abbrev no_rows : World
no_rows = record { marked = []; macs = []; arps = []; interfaces = []; vlans = [] }

abbrev iface_events : List Event
iface_events =
    message 1 (2 ∷ []) true ∷ message 2 (9 ∷ []) true ∷ message 3 (1 ∷ []) true ∷ closed true ∷ []

consume_claim-iface_events :
    consume_claim outside topic_of (codes "interface-table") no_rows iface_events
    ≡ record { marked = 1 ∷ 3 ∷ []; macs = []; arps = []; interfaces = iface_table; vlans = [] }
unfolding consume_claim consume_each handle Interface.handle_interface Interface.upsert_interface
    lookup insert codes text_eq
consume_claim-iface_events = refl

consume_each_replay_example :
    ((consume_each outside topic_of no_rows iface_events).marked
      ≡ [] ++ offsets outside topic_of (succeeding outside topic_of no_rows iface_events))
    × (consume_each outside topic_of no_rows (succeeding outside topic_of no_rows iface_events)
        ≡ consume_each outside topic_of no_rows iface_events)
consume_each_replay_example = consume_each_replay outside topic_of no_rows iface_events

-- The cleanup of rows that are their times.
abbrev row_times : Text → List Time
row_times name = if text_eq name (codes "mac_table") then pos 1 ∷ pos 90 ∷ [] else pos 1 ∷ []

abbrev clock : Text → Time
clock name = pos 100

abbrev ticks : List Cleanup.Event
ticks =
    tick clock (λ name. false) ∷ tick clock (λ name. true) ∷ done ∷ tick clock (λ name. true) ∷ []

start_cleanup-ticks :
    start_cleanup (λ t. t) (main_ttls (pos 50) (pos 200)) row_times ticks (codes "mac_table")
    ≡ pos 90 ∷ []
unfolding start_cleanup Cleanup.round Cleanup.delete_stale codes text_eq
start_cleanup-ticks = refl

main_ttls-Distinct : Distinct (main_ttls (pos 50) (pos 200))
unfolding lookup codes text_eq
main_ttls-Distinct = (refl, (refl, (refl, (refl, tt))))

start_cleanup_iff_example :
    Memᴰ
      (pos 90)
      (start_cleanup (λ t. t) (main_ttls (pos 50) (pos 200)) row_times ticks (codes "mac_table"))
    ↔ (Memᴰ (pos 90) (row_times (codes "mac_table"))
        × IsSurvivor
            (λ t. t)
            (lookup (codes "mac_table") (main_ttls (pos 50) (pos 200)))
            (codes "mac_table")
            (pos 90)
            ticks)
start_cleanup_iff_example =
    start_cleanup_iff (λ t. t) (main_ttls (pos 50) (pos 200)) row_times ticks (codes "mac_table")
      (pos 90) main_ttls-Distinct
