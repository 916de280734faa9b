-- ===== src/Collector/Stream/Topics.antt =====
-- Which topic the messages of a dispatch go to.
use mathlib.Core.List.{append-nil}
use mathlib.Core.Path.{subst}
use cisco_netconf_mac_db.Common.{
  ℕ, ◌≡◌, refl, sym, ap, Bool, true, false, Bool-cases, ◌⊎◌, inl, inr, Option, none, some, List, [],
  ◌∷◌, ◌++◌, map, Text, codes, text_eq, text_eq_iff, text_eq_comm, All, lookup, text_has_eq, ◌||◌,
  arith, if◌then◌else◌,
}
use cisco_netconf_mac_db.Proto.{Telemetry}
use cisco_netconf_mac_db.Payload.{MacEntry, ArpEntry, VlanEntry}
use cisco_netconf_mac_db.Collector.Entries.{IfEntry}
use cisco_netconf_mac_db.Collector.Publish.{Message, Error, publish, build_msg, send_message}
use cisco_netconf_mac_db.Collector.Publish.Laws.{IsPrefixSent}
use cisco_netconf_mac_db.Collector.Mac
use cisco_netconf_mac_db.Collector.Arp
use cisco_netconf_mac_db.Collector.Iface
use cisco_netconf_mac_db.Collector.Vlan
use cisco_netconf_mac_db.Collector.Stream.{is_mac, is_arp, is_interface, is_vlan, Env, dispatch}

-- The topic of each subscribed path.
abbrev pub routes : List (Text × Text)
routes =
    (codes "Cisco-IOS-XE-matm-oper:matm-oper-data/matm-table/matm-mac-entry", codes "mac-table")
    ∷ (codes "Cisco-IOS-XE-arp-oper:arp-data/arp-vrf/arp-entry", codes "arp-table")
    ∷ (codes "arp-ios-xe-oper:arp-data/arp-vrf/arp-entry", codes "arp-table")
    ∷ (codes "Cisco-IOS-XE-native:native/interface", codes "interface-table")
    ∷ (codes "openconfig-vlan:vlans/vlan", codes "vlan-table")
    ∷ (codes "Cisco-IOS-XE-vlan-oper:vlans/vlan", codes "vlan-table")
    ∷ []

-- The result appends to the log messages of one topic, if any.
pub record IsSentTo (topic : Option Text) (log : List Message)
    (result : Option Error × List Message) : Type 0 where
  pub sent : List Message
  pub logged : result.1 ≡ log ++ sent
  pub topics : All (λ (m : Message). some m.topic ≡ topic) sent

IsSentTo-nothing :
    (topic : Option Text) (log : List Message) (x : Option Error) → IsSentTo topic log (x, log)
IsSentTo-nothing topic log x = record { sent = []; logged = sym (append-nil log); topics = tt }

module _ (accepts : List Message → Message → Bool) (topic key : Text) where
  publish-IsSentTo :
      (v : Option Text) (log : List Message)
      → IsSentTo (some topic) log (publish accepts topic key v log)
  unfolding publish build_msg send_message
  publish-IsSentTo none log = IsSentTo-nothing (some topic) log _
  publish-IsSentTo (some v) log = go (accepts log m)
    where
      m : Message
      m = record { topic = topic; key = key; value = v }

      go :
          (b : Bool)
          → IsSentTo
              (some topic)
              log
              (if b then (none, log ++ m ∷ []) else (some Error.send_error, log))
      go true = record { sent = m ∷ []; logged = refl; topics = (refl, tt) }
      go false = IsSentTo-nothing (some topic) log _

-- Messages that, once marshalled, have the topic.
abbrev HasTopic : Text → Option Message → Type 0
HasTopic topic none = Unit
HasTopic topic (some m) = m.topic ≡ topic

All-sent :
    (topic : Text) (sent : List Message) (rest ms : List (Option Message))
    → All (HasTopic topic) ms
    → map some sent ++ rest ≡ ms
    → All (λ (m : Message). some m.topic ≡ some topic) sent
All-sent topic [] rest ms h e = tt
All-sent topic (m ∷ sent) rest ms h e =
    let h' : All (HasTopic topic) (some m ∷ map some sent ++ rest) =
      subst (All (HasTopic topic)) (sym e) h in
    (ap some h'.0, All-sent topic sent rest (map some sent ++ rest) h'.1 refl)

prefix-IsSentTo :
    (topic : Text) (ms : List (Option Message)) (log : List Message)
    (r : Option Error × List Message)
    → All (HasTopic topic) ms
    → IsPrefixSent ms log r
    → IsSentTo (some topic) log r
prefix-IsSentTo topic ms log r h p = record {
  sent = p.sent;
  logged = p.logged;
  topics = All-sent topic p.sent p.rest ms h p.split;
}

All-built {ℓ} :
    {E : Type ℓ} (topic : Text) (key : E → Text) (marshal : E → Option Text) (es : List E)
    → All (HasTopic topic) (map (λ e. build_msg topic (key e) (marshal e)) es)
All-built topic key marshal [] = tt
All-built topic key marshal (e ∷ es) = (built (marshal e), All-built topic key marshal es)
  where
    built : (v : Option Text) → HasTopic topic (build_msg topic (key e) v)
    built none = unfold build_msg in tt
    built (some v) = unfold build_msg in refl

module _ (accepts : List Message → Message → Bool) (t : Telemetry) (log : List Message) where
  macs-IsSentTo :
      (marshal : List MacEntry → Option Text) (es : List MacEntry)
      → IsSentTo (some (codes "mac-table")) log (Mac.publish_entries accepts marshal t es log)
  macs-IsSentTo marshal [] = IsSentTo-nothing (some (codes "mac-table")) log none
  macs-IsSentTo marshal (e ∷ es) =
      publish-IsSentTo accepts (codes "mac-table") t.node_id_str (marshal (e ∷ es)) log

  arps-IsSentTo :
      (marshal : List ArpEntry → Option Text) (es : List ArpEntry)
      → IsSentTo (some (codes "arp-table")) log (Arp.publish_entries accepts marshal t es log)
  arps-IsSentTo marshal [] = IsSentTo-nothing (some (codes "arp-table")) log none
  arps-IsSentTo marshal (e ∷ es) =
      publish-IsSentTo accepts (codes "arp-table") t.node_id_str (marshal (e ∷ es)) log

  ifaces-IsSentTo :
      (marshal : IfEntry → Option Text) (parse_ip4 : Text → Option (List ℕ))
      → IsSentTo
          (some (codes "interface-table"))
          log
          (Iface.publish_interface accepts marshal parse_ip4 t log)
  ifaces-IsSentTo marshal parse_ip4 =
      prefix-IsSentTo (codes "interface-table") _ log _
        (All-built (codes "interface-table") Iface.iface_key marshal _)
        (Iface.Laws.publish_interface_prefix accepts marshal parse_ip4 t log)

  vlans-IsSentTo :
      (marshal : VlanEntry → Option Text)
      → IsSentTo (some (codes "vlan-table")) log (Vlan.publish_vlan accepts marshal t log)
  vlans-IsSentTo marshal =
      prefix-IsSentTo (codes "vlan-table") _ log _
        (All-built (codes "vlan-table") Vlan.vlan_key marshal _)
        (Vlan.Laws.publish_vlan_prefix accepts marshal t log)

-- A path is routed as the literal that it equals.
module _ (path : Text) where
  route_mac : is_mac path ≡ true → lookup path routes ≡ some (codes "mac-table")
  unfolding is_mac lookup codes text_eq
  route_mac h = rw ((text_eq_iff path _).0 h) refl

  route_interface : is_interface path ≡ true → lookup path routes ≡ some (codes "interface-table")
  unfolding is_interface lookup codes text_eq
  route_interface h = rw ((text_eq_iff path _).0 h) refl

  or_cases : (a b : Bool) → (a || b) ≡ true → (a ≡ true) ⊎ (b ≡ true)
  or_cases true b h = inl refl
  or_cases false b h = inr h

  route_arp : is_arp path ≡ true → lookup path routes ≡ some (codes "arp-table")
  unfolding is_arp lookup codes text_eq
  route_arp h = elim (or_cases _ _ h) [
    | inl a ↦
        rw ((text_eq_iff path (codes "Cisco-IOS-XE-arp-oper:arp-data/arp-vrf/arp-entry")).0 a) refl
    | inr b ↦ rw ((text_eq_iff path (codes "arp-ios-xe-oper:arp-data/arp-vrf/arp-entry")).0 b) refl
  ]

  route_vlan : is_vlan path ≡ true → lookup path routes ≡ some (codes "vlan-table")
  unfolding is_vlan lookup codes text_eq
  route_vlan h = elim (or_cases _ _ h) [
    | inl a ↦ rw ((text_eq_iff path (codes "openconfig-vlan:vlans/vlan")).0 a) refl
    | inr b ↦ rw ((text_eq_iff path (codes "Cisco-IOS-XE-vlan-oper:vlans/vlan")).0 b) refl
  ]

  route_none :
      is_mac path ≡ false
      → is_arp path ≡ false
      → is_interface path ≡ false
      → is_vlan path ≡ false
      → lookup path routes ≡ none
  unfolding is_mac is_arp is_interface is_vlan lookup
  route_none m a i v = simp (text_eq_comm _ path) (ground arith)

module _ (env : Env) (t : Telemetry) (log : List Message) where
  -- Whatever the dispatcher sends for a message goes to the topic of the message's path, and for a
  -- path that is not subscribed nothing is sent; the log only grows.
  pub dispatch_topics : IsSentTo (lookup t.encoding_path routes) log (dispatch env t log)
  unfolding dispatch Mac.publish_mac Arp.publish_arp
  dispatch_topics = elim (Bool-cases (is_mac t.encoding_path)) [
    | inl m ↦
        rw (m, route_mac t.encoding_path m) (macs-IsSentTo env.accepts t log env.marshal_macs _)
    | inr m ↦ elim (Bool-cases (is_arp t.encoding_path)) [
      | inl a ↦
          rw (m, a, route_arp t.encoding_path a)
            (arps-IsSentTo env.accepts t log env.marshal_arps _)
      | inr a ↦ elim (Bool-cases (is_interface t.encoding_path)) [
        | inl i ↦
            rw (m, a, i, route_interface t.encoding_path i)
              (ifaces-IsSentTo env.accepts t log env.marshal_iface env.parse_ip4)
        | inr i ↦ elim (Bool-cases (is_vlan t.encoding_path)) [
          | inl v ↦
              rw (m, a, i, v, route_vlan t.encoding_path v)
                (vlans-IsSentTo env.accepts t log env.marshal_vlan)
          | inr v ↦
              rw (m, a, i, v, route_none t.encoding_path m a i v) (IsSentTo-nothing none log none)
        ]
      ]
    ]
  ]
