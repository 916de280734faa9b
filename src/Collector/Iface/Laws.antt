-- ===== src/Collector/Iface/Laws.antt =====
-- What `publish_interface` sends.
use mathlib.Core.List.{map-append}
use mathlib.Core.Path.{fun_ext, subst}
use cisco_netconf_mac_db.Common.{
  ℕ, ◌≡◌, refl, sym, ap, ◌∙◌, Bool, not, Bool-cases, inl, inr, Option, none, some, List, [], ◌∷◌,
  ◌++◌, map, Text, codes, is_empty, keep, keep-append,
}
use cisco_netconf_mac_db.Proto.{Field, children, Telemetry}
use cisco_netconf_mac_db.Collector.Entries.{IfEntry}
use cisco_netconf_mac_db.Collector.Walk.{collect_interfaces}
use cisco_netconf_mac_db.Collector.Publish.{Message, Action, publish, seq, build_msg, send_built}
use cisco_netconf_mac_db.Collector.Publish.Laws.{
  publish_all, publish_all-append, publish_all_prefix, IsPrefixSent,
}
use cisco_netconf_mac_db.Collector.Iface.{
  iface_entry, find_content, iface_key, publish_ifaces, publish_content, iface_rows,
  publish_interface,
}

abbrev pub is_named : IfEntry → Bool
is_named e = not (is_empty e.name)

abbrev pub ifaces_of : Option Field → List Field
ifaces_of none = []
ifaces_of (some content) = collect_interfaces content

-- The interface nodes of an update, row by row.
pub all_ifaces : List Field → List Field
all_ifaces [] = []
all_ifaces (row ∷ rows) = ifaces_of (find_content (children row)) ++ all_ifaces rows

module _ (marshal : IfEntry → Option Text) (parse_ip4 : Text → Option (List ℕ))
    (t : Telemetry) where
  abbrev pub iface_message : IfEntry → Option Message
  iface_message e = build_msg (codes "interface-table") (iface_key e) (marshal e)

  -- The messages for a list of interfaces; an interface with no name has none.
  abbrev pub iface_messages : List Field → List (Option Message)
  iface_messages ifaces = map iface_message (keep is_named (map (iface_entry parse_ip4 t) ifaces))

  iface_messages-append :
      (fs gs : List Field) → iface_messages (fs ++ gs) ≡ iface_messages fs ++ iface_messages gs
  iface_messages-append fs gs = simp (map-append, keep-append)

module _ (accepts : List Message → Message → Bool) (marshal : IfEntry → Option Text)
    (parse_ip4 : Text → Option (List ℕ)) (t : Telemetry) where
  abbrev messages : List Field → List (Option Message)
  messages = iface_messages marshal parse_ip4 t

  publish_ifaces-eq-publish_all :
      (ifaces : List Field) (log : List Message)
      → publish_ifaces accepts marshal parse_ip4 t ifaces log
        ≡ publish_all accepts (messages ifaces) log
  unfolding publish_ifaces publish_all publish
  publish_ifaces-eq-publish_all [] log = refl
  publish_ifaces-eq-publish_all (iface ∷ ifaces) log =
      elim (Bool-cases (is_empty (iface_entry parse_ip4 t iface).name)) [
        | inl e ↦ rw e (publish_ifaces-eq-publish_all ifaces log)
        | inr e ↦ rw e (
            ap
              (λ (b : Action).
                seq
                  (send_built accepts
                    (iface_message marshal parse_ip4 t (iface_entry parse_ip4 t iface)))
                  b log)
              (fun_ext (publish_ifaces-eq-publish_all ifaces)))
      ]

  publish_content-eq-publish_all :
      (o : Option Field) (log : List Message)
      → publish_content accepts marshal parse_ip4 t o log
        ≡ publish_all accepts (messages (ifaces_of o)) log
  publish_content-eq-publish_all none log = unfold publish_all in refl
  publish_content-eq-publish_all (some content) log =
      publish_ifaces-eq-publish_all (collect_interfaces content) log

  iface_rows-eq-publish_all :
      (rows : List Field) (log : List Message)
      → iface_rows accepts marshal parse_ip4 t rows log
        ≡ publish_all accepts (messages (all_ifaces rows)) log
  unfolding iface_rows all_ifaces
  iface_rows-eq-publish_all [] log = unfold publish_all in refl
  iface_rows-eq-publish_all (row ∷ rows) log =
      ap (λ (a : Action). seq a (iface_rows accepts marshal parse_ip4 t rows) log)
        (fun_ext (publish_content-eq-publish_all (find_content (children row))))
      ∙ ap
          (λ (b : Action).
            seq (publish_all accepts (messages (ifaces_of (find_content (children row))))) b log)
          (fun_ext (iface_rows-eq-publish_all rows))
      ∙ sym (
          publish_all-append accepts (messages (ifaces_of (find_content (children row))))
            (messages (all_ifaces rows)) log)
      ∙ ap (λ ms. publish_all accepts ms log)
          (sym (
            iface_messages-append marshal parse_ip4 t (ifaces_of (find_content (children row)))
              (all_ifaces rows)))

  -- Publishing an interface update appends to the log a prefix of the messages of its interfaces:
  -- those that the walk collects from the first `content` field of each row, in order, less those
  -- with no name. It returns no error exactly when it is all of them.
  pub publish_interface_prefix :
      (log : List Message)
      → IsPrefixSent
          (messages (all_ifaces t.data_gpbkv))
          log
          (publish_interface accepts marshal parse_ip4 t log)
  unfolding publish_interface
  publish_interface_prefix log =
      subst (IsPrefixSent (messages (all_ifaces t.data_gpbkv)) log)
        (sym (iface_rows-eq-publish_all t.data_gpbkv log))
        (publish_all_prefix accepts (messages (all_ifaces t.data_gpbkv)) log)
