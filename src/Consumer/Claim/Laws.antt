-- ===== src/Consumer/Claim/Laws.antt =====
-- Which messages a claim of consumer/main.go marks, and what the others do.
use mathlib.Core.List.{append_assoc, append-nil}
use cisco_netconf_mac_db.Common.{
  ℕ, ◌≡◌, refl, sym, ap, ◌∙◌, Bool, true, false, Bool-cases, ◌⊎◌, inl, inr, ◌&&◌, Option, none,
  some, List, [], ◌∷◌, ◌++◌, Text, codes, text_eq, arith, if◌then◌else◌,
}
use cisco_netconf_mac_db.Consumer.Entries.{Error}
use cisco_netconf_mac_db.Consumer.Batch.{Event, message, timer, closed}
use cisco_netconf_mac_db.Consumer.Interface.Messages as InterfaceMessages
use cisco_netconf_mac_db.Consumer.Vlan.Messages as VlanMessages
use cisco_netconf_mac_db.Consumer.Claim.{
  World, Outside, with_interfaces, with_vlans, handle, mark_unless, consume_each,
}

module _ (out : Outside) (topic_of : ℕ → Text) where
  -- A handler that fails leaves the tables as they were.
  handle_fails :
      (topic value : Text) (db_ok : Bool) (w : World)
      → ((handle out topic_of topic value db_ok w).0 ≡ none)
        ⊎ ((x : Error) × (handle out topic_of topic value db_ok w ≡ (some x, w)))
  unfolding handle
  handle_fails topic value db_ok w = elim (Bool-cases (text_eq topic (codes "interface-table"))) [
    | inl t ↦
        rw t
          (elim (InterfaceMessages.handle_cases out.unmarshal_interface
            (λ e table. db_ok && out.accepts_interface e table) value w.interfaces) [
              | inl (x, r) ↦ inr (x, ap (with_interfaces out topic_of w) r)
              | inr (e, d, (shutdown, s, r)) ↦
                  inl (ap (λ q. (with_interfaces out topic_of w q).0) r)
            ])
    | inr f ↦ rw f (elim (Bool-cases (text_eq topic (codes "vlan-table"))) [
      | inl t ↦
          rw t
            (elim (VlanMessages.handle_cases out.unmarshal_vlan
              (λ e table. db_ok && out.accepts_vlan e table) value w.vlans) [
                | inl (x, r) ↦ inr (x, ap (with_vlans out topic_of w) r)
                | inr (e, d, r) ↦ inl (ap (λ q. (with_vlans out topic_of w q).0) r)
              ])
      | inr g ↦ rw g (inl refl)
    ])
  ]

  abbrev pub is_none : Option Error → Bool
  is_none none = true
  is_none (some x) = false

  -- The messages that are handled without error, before the channel is closed.
  abbrev pub succeeding : World → List Event → List Event
  succeeding w [] = []
  succeeding w (closed db_ok ∷ events) = []
  succeeding w (timer db_ok ∷ events) = succeeding w events
  succeeding w (message offset value db_ok ∷ events) =
      let r = handle out topic_of (topic_of offset) value db_ok w in
      let rest = succeeding (mark_unless out topic_of offset r) events in
      if is_none r.0 then message offset value db_ok ∷ rest else rest

  abbrev pub offsets : List Event → List ℕ
  offsets [] = []
  offsets (message offset value db_ok ∷ events) = offset ∷ offsets events
  offsets (timer db_ok ∷ events) = offsets events
  offsets (closed db_ok ∷ events) = offsets events

  abbrev IsReplayed : World → List Event → World → List Event → Type 0
  IsReplayed w events end kept =
      (end.marked ≡ w.marked ++ offsets kept) × (consume_each out topic_of w kept ≡ end)

  handle-marked :
      (topic value : Text) (db_ok : Bool) (w : World)
      → (handle out topic_of topic value db_ok w).1.marked ≡ w.marked
  unfolding handle
  handle-marked topic value db_ok w = ground arith

  consume_message :
      (offset : ℕ) (value : Text) (db_ok : Bool) (w : World) (events : List Event)
      (r : Option Error × World)
      → handle out topic_of (topic_of offset) value db_ok w ≡ r
      → (r.0 ≡ none) ⊎ ((x : Error) × (r ≡ (some x, w)))
      → (let w' = mark_unless out topic_of offset r in
          IsReplayed w' events (consume_each out topic_of w' events) (succeeding w' events))
      → (let w' = mark_unless out topic_of offset r in
          IsReplayed w (message offset value db_ok ∷ events) (consume_each out topic_of w' events) (
            if is_none r.0
            then message offset value db_ok ∷ succeeding w' events
            else succeeding w' events))
  unfolding consume_each
  consume_message offset value db_ok w events (none, w') h o (m, p) = (
    m
        ∙ ap
            (λ l.
              l
              ++ offset ∷ []
              ++ offsets (succeeding (mark_unless out topic_of offset (none, w')) events))
            (ap (λ (q : Option Error × World). q.1.marked) (sym h)
              ∙ handle-marked (topic_of offset) value db_ok w)
        ∙ append_assoc w.marked (offset ∷ [])
            (offsets (succeeding (mark_unless out topic_of offset (none, w')) events)),
    ap
          (λ q.
            consume_each out topic_of (mark_unless out topic_of offset q)
              (succeeding (mark_unless out topic_of offset (none, w')) events))
          h
        ∙ p,
  )
  consume_message offset value db_ok w events (some x, w') h (inl e) (m, p) = cc e
  consume_message offset value db_ok w events (some x, w') h (inr (y, e)) (m, p) =
      let same : w ≡ w' = sym (ap (λ (q : Option Error × World). q.1) e) in
      (
        m ∙ ap (λ (v : World). v.marked ++ offsets (succeeding w' events)) (sym same),
        ap (λ v. consume_each out topic_of v (succeeding w' events)) same ∙ p,
      )

  -- The per-message loop marks, in order, exactly the messages whose handler returns no error, and
  -- the failed ones have no effect: the loop over the succeeding messages alone ends in the same world.
  pub consume_each_replay :
      (w : World) (events : List Event)
      → ((consume_each out topic_of w events).marked ≡ w.marked ++ offsets (succeeding w events))
        × (consume_each out topic_of w (succeeding w events) ≡ consume_each out topic_of w events)
  unfolding consume_each
  consume_each_replay w [] = (sym (append-nil w.marked), refl)
  consume_each_replay w (closed db_ok ∷ events) = (sym (append-nil w.marked), refl)
  consume_each_replay w (timer db_ok ∷ events) = consume_each_replay w events
  consume_each_replay w (message offset value db_ok ∷ events) =
      let r = handle out topic_of (topic_of offset) value db_ok w in
      consume_message offset value db_ok w events r refl
        (handle_fails (topic_of offset) value db_ok w)
        (consume_each_replay (mark_unless out topic_of offset r) events)
