-- ===== src/Collector/Vlan/Laws.antt =====
-- What a VLAN row says, and what `publish_vlan` sends.
use mathlib.Core.Option
use mathlib.Core.Path.{fun_ext, subst}
use cisco_netconf_mac_db.Common.{
  ℕ, ◌≡◌, refl, sym, ap, ◌==◌, Bool, true, false, not, Option, none, some, List, [], ◌∷◌, map, Text,
  codes, text_eq, text_eq_iff, int64, keep, ◌<|>◌, if◌then◌else◌, Bool-cases, inl, inr, arith,
}
use cisco_netconf_mac_db.Proto.{
  Field, name, children, get_string_value, get_uint32_value, Telemetry,
}
use cisco_netconf_mac_db.Payload.{VlanEntry}
use cisco_netconf_mac_db.Collector.Nested.{find_nested_field}
use cisco_netconf_mac_db.Collector.Fallback.{
  last_some, first_some, fall_back, foldl-member, value_or, foldl-overwritten, foldl-kept,
}
use cisco_netconf_mac_db.Collector.Publish.{Message, Action, publish, seq, build_msg, send_built}
use cisco_netconf_mac_db.Collector.Publish.Laws.{publish_all, publish_all_prefix, IsPrefixSent}
use cisco_netconf_mac_db.Collector.Vlan.{
  set_status, apply_keys, fall_back_status, apply_content, apply_vlan, new_vlan, vlan_of_row,
  vlan_key, vlan_rows, publish_vlan,
}

-- The name directly under a `content` container.
abbrev pub direct_name : Field → Option Text
direct_name c =
    if text_eq (name c) (codes "content")
    then Option.map get_string_value (find_nested_field (children c) (codes "name" ∷ []))
    else none

-- The name under `state` in a `content` container.
abbrev pub state_name : Field → Option Text
state_name c =
    if text_eq (name c) (codes "content")
    then Option.map get_string_value
        (find_nested_field (children c) (codes "state" ∷ codes "name" ∷ []))
    else none

-- The number in a `keys` container, under `id` or else `vlan-id`.
abbrev pub key_id : Field → Option ℕ
key_id c =
    if text_eq (name c) (codes "keys")
    then Option.map get_uint32_value (
        find_nested_field (children c) (codes "id" ∷ [])
        <|> find_nested_field (children c) (codes "vlan-id" ∷ []))
    else none

name-fall_back_status : (e : VlanEntry) (fs : List Field) → (fall_back_status e fs).name ≡ e.name
name-fall_back_status e fs = ground arith

name-set_status : (e : VlanEntry) (o : Option Field) → (set_status e o).name ≡ e.name
name-set_status e none = refl
name-set_status e (some f) = refl

name-apply_content :
    (e : VlanEntry) (fs : List Field)
    → (apply_content e fs).name
      ≡ (Option.map get_string_value (find_nested_field fs (codes "name" ∷ [])) <|> e.name)
        <|> Option.map get_string_value (find_nested_field fs (codes "state" ∷ codes "name" ∷ []))
unfolding apply_content
name-apply_content e fs = ground arith

not-content_of_keys :
    (n : Text) → text_eq n (codes "keys") ≡ true → text_eq n (codes "content") ≡ false
unfolding codes text_eq
not-content_of_keys n h = rw ((text_eq_iff n (codes "keys")).0 h) refl

name-apply_keys : (e : VlanEntry) (fs : List Field) → (apply_keys e fs).name ≡ e.name
unfolding apply_keys
name-apply_keys e fs = ground arith

name-apply_vlan :
    (e : VlanEntry) (c : Field) → (apply_vlan e c).name ≡ fall_back direct_name state_name e.name c
unfolding apply_vlan
name-apply_vlan e c = ground (
  arith,
  name-apply_content e (children c),
  name-apply_keys e (children c),
  not-content_of_keys (name c),
)

vlan_id-apply_content : (e : VlanEntry) (fs : List Field) → (apply_content e fs).vlan_id ≡ e.vlan_id
unfolding apply_content
vlan_id-apply_content e fs = ground arith

vlan_id-apply_keys :
    (e : VlanEntry) (fs : List Field)
    → (apply_keys e fs).vlan_id
      ≡ value_or e.vlan_id (
          Option.map get_uint32_value (
            find_nested_field fs (codes "id" ∷ []) <|> find_nested_field fs (codes "vlan-id" ∷ [])))
unfolding apply_keys
vlan_id-apply_keys e fs = ground arith

vlan_id-apply_vlan :
    (e : VlanEntry) (c : Field) → (apply_vlan e c).vlan_id ≡ value_or e.vlan_id (key_id c)
unfolding apply_vlan
vlan_id-apply_vlan e c =
    ground (arith, vlan_id-apply_content e (children c), vlan_id-apply_keys e (children c))

origin-apply_vlan :
    (e : VlanEntry) (c : Field)
    → ((apply_vlan e c).node_id ≡ e.node_id) × ((apply_vlan e c).timestamp ≡ e.timestamp)
unfolding apply_vlan apply_keys apply_content
origin-apply_vlan e c = ground arith

-- The entry of a VLAN row. Its name is the last direct one among the `content` containers, present
-- even if empty, or else the first one under `state`, or else absent. Its number is that of the last
-- `keys` container that has one, or else 0. The node and the time are those of the message.
pub vlan_of_row_lem :
    (t : Telemetry) (row : Field)
    → ((vlan_of_row t row).name
        ≡ last_some direct_name (children row) <|> first_some state_name (children row))
      × ((vlan_of_row t row).vlan_id ≡ value_or 0 (last_some key_id (children row)))
      × ((vlan_of_row t row).node_id ≡ t.node_id_str)
      × ((vlan_of_row t row).timestamp ≡ int64 t.msg_timestamp)
unfolding vlan_of_row
vlan_of_row_lem t row = (
  foldl-member apply_vlan (λ e. e.name) direct_name state_name name-apply_vlan (new_vlan t)
      (children row),
  foldl-overwritten apply_vlan (λ e. e.vlan_id) key_id vlan_id-apply_vlan (new_vlan t)
      (children row),
  foldl-kept apply_vlan (λ e. e.node_id) (λ e c. (origin-apply_vlan e c).0) (new_vlan t)
      (children row),
  foldl-kept apply_vlan (λ e. e.timestamp) (λ e c. (origin-apply_vlan e c).1) (new_vlan t)
      (children row),
)

abbrev pub has_id : VlanEntry → Bool
has_id e = not (e.vlan_id == 0)

abbrev pub vlan_message : (VlanEntry → Option Text) → VlanEntry → Option Message
vlan_message marshal e = build_msg (codes "vlan-table") (vlan_key e) (marshal e)

-- The messages of a VLAN update, in the order of its rows; a row with no number has none.
abbrev pub vlan_messages :
    (VlanEntry → Option Text) → Telemetry → List Field → List (Option Message)
vlan_messages marshal t rows = map (vlan_message marshal) (keep has_id (map (vlan_of_row t) rows))

module _ (accepts : List Message → Message → Bool) (marshal : VlanEntry → Option Text)
    (t : Telemetry) where
  vlan_rows-eq-publish_all :
      (rows : List Field) (log : List Message)
      → vlan_rows accepts marshal t rows log
        ≡ publish_all accepts (vlan_messages marshal t rows) log
  unfolding vlan_rows publish_all publish
  vlan_rows-eq-publish_all [] log = refl
  vlan_rows-eq-publish_all (row ∷ rows) log = elim (Bool-cases ((vlan_of_row t row).vlan_id == 0)) [
    | inl e ↦ rw e (vlan_rows-eq-publish_all rows log)
    | inr e ↦ rw e (
        ap
          (λ (b : Action).
            seq (send_built accepts (vlan_message marshal (vlan_of_row t row))) b log)
          (fun_ext (vlan_rows-eq-publish_all rows)))
  ]

  -- Publishing a VLAN update appends to the log a prefix of the messages of its rows, in order, and
  -- returns no error exactly when it is all of them.
  pub publish_vlan_prefix :
      (log : List Message)
      → IsPrefixSent (vlan_messages marshal t t.data_gpbkv) log (publish_vlan accepts marshal t log)
  unfolding publish_vlan
  publish_vlan_prefix log =
      subst (IsPrefixSent (vlan_messages marshal t t.data_gpbkv) log)
        (sym (vlan_rows-eq-publish_all t.data_gpbkv log))
        (publish_all_prefix accepts (vlan_messages marshal t t.data_gpbkv) log)
