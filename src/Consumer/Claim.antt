-- ===== src/Consumer/Claim.antt =====
-- `ConsumeClaim` of consumer/main.go: which loop or handler the messages of a claim get, and which of
-- them it marks. The topic of a message, `msg.Topic`, is a function of its offset. An event carries the
-- outcome of the statement that its round may execute. The batching loops start with no batch.
pub mod Laws
use cisco_netconf_mac_db.Common.{
  ℕ, Bool, ◌&&◌, Option, none, some, List, [], ◌∷◌, ◌++◌, Text, codes, text_eq, if◌then◌else◌,
}
use cisco_netconf_mac_db.Payload.{MacEntry, ArpEntry, VlanEntry}
use cisco_netconf_mac_db.Consumer.Entries.{IfEntry, Error}
use cisco_netconf_mac_db.Consumer.Batch.{Event, message, timer, closed, State}
use cisco_netconf_mac_db.Consumer.Dynamic.{
  MacKey, MacRow, ArpKey, ArpRow, consume_mac_batch, consume_arp_batch,
}
use cisco_netconf_mac_db.Consumer.Interface.{InterfaceTable, handle_interface}
use cisco_netconf_mac_db.Consumer.Vlan.{VlanTable, handle_vlan}

-- The marked offsets of the session, and the four tables.
pub record World : Type 0 where
  pub marked : List ℕ
  pub macs : List (MacKey × MacRow)
  pub arps : List (ArpKey × ArpRow)
  pub interfaces : InterfaceTable
  pub vlans : VlanTable

-- What is outside the program: `json.Unmarshal` at each payload, and which statements the database takes.
pub record Outside : Type 0 where
  pub unmarshal_macs : Text → Option (List MacEntry)
  pub unmarshal_arps : Text → Option (List ArpEntry)
  pub unmarshal_interface : Text → Option IfEntry
  pub unmarshal_vlan : Text → Option VlanEntry
  pub accepts_interface : IfEntry → InterfaceTable → Bool
  pub accepts_vlan : VlanEntry → VlanTable → Bool

module _ {ℓ} {K E R : Type ℓ} where
  abbrev start : List ℕ → List (K × R) → State K E R
  start marked table = record { batch = []; last_msg = none; marked = marked; table = table }

module _ (out : Outside) (topic_of : ℕ → Text) where
  abbrev pub with_interfaces : World → Option Error × InterfaceTable → Option Error × World
  with_interfaces w (err, table) = (err, record w { interfaces = table })

  abbrev pub with_vlans : World → Option Error × VlanTable → Option Error × World
  with_vlans w (err, table) = (err, record w { vlans = table })

  -- `switch msg.Topic`; another topic has no handler and no error
  unfoldable pub handle : Text → Text → Bool → World → Option Error × World
  handle topic value db_ok w =
      if text_eq topic (codes "interface-table")
      then with_interfaces w (
          handle_interface out.unmarshal_interface
            (λ e table. db_ok && out.accepts_interface e table) value w.interfaces)
      else if text_eq topic (codes "vlan-table")
      then with_vlans w (
          handle_vlan out.unmarshal_vlan (λ e table. db_ok && out.accepts_vlan e table) value
            w.vlans)
      else (none, w)

  -- `if err != nil { log } else { MarkMessage }`
  abbrev pub mark_unless : ℕ → Option Error × World → World
  mark_unless offset (none, w) = record w { marked = w.marked ++ offset ∷ [] }
  mark_unless offset (some err, w) = w

  unfoldable pub consume_each : World → List Event → World
  consume_each w [] = w
  consume_each w (closed db_ok ∷ events) = w
  consume_each w (timer db_ok ∷ events) = consume_each w events
  consume_each w (message offset value db_ok ∷ events) =
      consume_each (mark_unless offset (handle (topic_of offset) value db_ok w)) events

  abbrev pub put_macs : World → State MacKey MacEntry MacRow → World
  put_macs w s = record w { marked = s.marked; macs = s.table }

  abbrev pub put_arps : World → State ArpKey ArpEntry ArpRow → World
  put_arps w s = record w { marked = s.marked; arps = s.table }

  unfoldable pub consume_claim : Text → World → List Event → World
  consume_claim topic w events =
      if text_eq topic (codes "mac-table")
      then put_macs w (consume_mac_batch out.unmarshal_macs (start w.marked w.macs) events)
      else if text_eq topic (codes "arp-table")
      then put_arps w (consume_arp_batch out.unmarshal_arps (start w.marked w.arps) events)
      else consume_each w events
