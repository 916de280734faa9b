-- ===== src/Collector/Mac/Laws.antt =====
-- The MAC batch against a description of it: each row gives the last leaf of each kind.
use mathlib.Core.List.{foldl, append-nil}
use cisco_netconf_mac_db.Common.{
  ◌≡◌, refl, sym, ◌∙◌, Bool, true, false, not, Option, List, [], ◌∷◌, ◌++◌, map, Text, is_empty,
  int64, keep, if◌then◌else◌,
}
use cisco_netconf_mac_db.Proto.{
  Field, name, children, get_string_value, get_uint32_value, Telemetry,
}
use cisco_netconf_mac_db.Payload.{MacEntry}
use cisco_netconf_mac_db.Collector.IfName.{expand_if_name}
use cisco_netconf_mac_db.Collector.Publish.{Message}
use cisco_netconf_mac_db.Collector.Leaves.{
  walk_row, walk_row-eq-foldl, leaves, last_of, get_or, read_last, read_last-eq-last_of,
  skip-append,
}
use cisco_netconf_mac_db.Collector.Mac.{
  MacLeaf, address, port, vlan, type, other, mac_leaf, set_mac, apply_mac, new_mac, mac_rows,
  publish_entries, publish_mac,
}

abbrev pub is_leaf : MacLeaf → MacLeaf → Bool
is_leaf address address = true
is_leaf port port = true
is_leaf vlan vlan = true
is_leaf type type = true
is_leaf _ _ = false

-- The last leaf of a kind.
abbrev pub last_leaf : MacLeaf → List Field → Option Field
last_leaf k fs = last_of (λ f. is_leaf k (mac_leaf (name f))) fs

-- The entry that a row stands for: each member is that of the last leaf of its kind.
abbrev pub described : Telemetry → Field → MacEntry
described t row =
    let fs = leaves (children row) in
    record {
      timestamp = int64 t.msg_timestamp;
      node_id = t.node_id_str;
      mac_address = get_or get_string_value [] (last_leaf address fs);
      interface = get_or (λ f. expand_if_name (get_string_value f)) [] (last_leaf port fs);
      vlan = get_or get_uint32_value 0 (last_leaf vlan fs);
      type = get_or get_string_value [] (last_leaf type fs);
    }

abbrev reading {ℓ} : {A : Type ℓ} → MacLeaf → (Field → A) → List Field → A → A
reading k get fs d = read_last (λ f. is_leaf k (mac_leaf (name f))) get fs d

abbrev read : MacEntry → List Field → MacEntry
read e fs = record e {
  mac_address = reading address get_string_value fs e.mac_address;
  interface = reading port (λ f. expand_if_name (get_string_value f)) fs e.interface;
  vlan = reading vlan get_uint32_value fs e.vlan;
  type = reading type get_string_value fs e.type;
}

-- What one leaf of the kind `k` sets.
abbrev set_at : MacLeaf → MacEntry → Field → MacEntry
set_at k e f = record e {
  mac_address = if is_leaf address k then get_string_value f else e.mac_address;
  interface = if is_leaf port k then expand_if_name (get_string_value f) else e.interface;
  vlan = if is_leaf vlan k then get_uint32_value f else e.vlan;
  type = if is_leaf type k then get_string_value f else e.type;
}

set_mac-eq-set_at : (k : MacLeaf) (e : MacEntry) (f : Field) → set_mac k e f ≡ set_at k e f
unfolding set_mac
set_mac-eq-set_at address e f = refl
set_mac-eq-set_at port e f = refl
set_mac-eq-set_at vlan e f = refl
set_mac-eq-set_at type e f = refl
set_mac-eq-set_at other e f = refl

foldl-apply_mac : (fs : List Field) (e : MacEntry) → foldl apply_mac e fs ≡ read e fs
unfolding read_last
foldl-apply_mac [] e = refl
foldl-apply_mac (f ∷ fs) e =
    foldl-apply_mac fs (apply_mac e f)
    ∙ unfold apply_mac in rw (set_mac-eq-set_at (mac_leaf (name f)) e f) refl

walk_row-eq-described :
    (t : Telemetry) (row : Field) → walk_row apply_mac (new_mac t) (children row) ≡ described t row
unfolding new_mac
walk_row-eq-described t row =
    walk_row-eq-foldl apply_mac (new_mac t) (children row)
    ∙ foldl-apply_mac (leaves (children row)) (new_mac t)
    ∙ simp read_last-eq-last_of

abbrev pub has_address : MacEntry → Bool
has_address e = not (is_empty e.mac_address)

mac_rows-eq-keep :
    (t : Telemetry) (rows : List Field) (es : List MacEntry)
    → mac_rows t rows es ≡ es ++ keep has_address (map (described t) rows)
unfolding mac_rows
mac_rows-eq-keep t [] es = sym (append-nil es)
mac_rows-eq-keep t (row ∷ rows) es =
    mac_rows-eq-keep t rows _
    ∙ skip-append (is_empty entry.mac_address) entry es (keep has_address (map (described t) rows))
    ∙ rw (walk_row-eq-described t row) refl
  where
    entry : MacEntry
    entry = walk_row apply_mac (new_mac t) (children row)

-- A message of MAC rows is published as one batch under its node: an entry for each row that has a
-- MAC address, in order, made of the last leaf of each kind in the row. With no such row nothing is
-- sent.
pub publish_mac-eq-described :
    (accepts : List Message → Message → Bool) (marshal : List MacEntry → Option Text)
    (t : Telemetry) (log : List Message)
    → publish_mac accepts marshal t log
      ≡ publish_entries accepts marshal t (keep has_address (map (described t) t.data_gpbkv)) log
unfolding publish_mac
publish_mac-eq-described accepts marshal t log = rw (mac_rows-eq-keep t t.data_gpbkv []) refl
