-- ===== src/Collector/Arp/Laws.antt =====
-- The ARP batch against a description of it: each row gives the last leaf of each kind.
use mathlib.Core.List.{foldl, append-nil}
use cisco_netconf_mac_db.Common.{
  ◌≡◌, refl, sym, ◌∙◌, Bool, true, false, not, Option, List, [], ◌∷◌, ◌++◌, map, Text, is_empty,
  int64, keep, if◌then◌else◌,
}
use cisco_netconf_mac_db.Proto.{
  Field, name, children, get_string_value, get_uint32_value, Telemetry,
}
use cisco_netconf_mac_db.Payload.{ArpEntry}
use cisco_netconf_mac_db.Collector.IfName.{expand_if_name}
use cisco_netconf_mac_db.Collector.Publish.{Message}
use cisco_netconf_mac_db.Collector.Leaves.{
  walk_row, walk_row-eq-foldl, leaves, last_of, get_or, read_last, read_last-eq-last_of,
  skip-append,
}
use cisco_netconf_mac_db.Collector.Arp.{
  ArpLeaf, address, hardware, port, time_to_live, other, arp_leaf, set_arp, apply_arp, new_arp,
  arp_rows, publish_entries, publish_arp,
}

abbrev pub is_leaf : ArpLeaf → ArpLeaf → Bool
is_leaf address address = true
is_leaf hardware hardware = true
is_leaf port port = true
is_leaf time_to_live time_to_live = true
is_leaf _ _ = false

-- The last leaf of a kind.
abbrev pub last_leaf : ArpLeaf → List Field → Option Field
last_leaf k fs = last_of (λ f. is_leaf k (arp_leaf (name f))) fs

-- The entry that a row stands for: each member is that of the last leaf of its kind.
abbrev pub described : Telemetry → Field → ArpEntry
described t row =
    let fs = leaves (children row) in
    record {
      timestamp = int64 t.msg_timestamp;
      node_id = t.node_id_str;
      ip_address = get_or get_string_value [] (last_leaf address fs);
      mac_address = get_or get_string_value [] (last_leaf hardware fs);
      interface = get_or (λ f. expand_if_name (get_string_value f)) [] (last_leaf port fs);
      age = get_or get_uint32_value 0 (last_leaf time_to_live fs);
    }

abbrev reading {ℓ} : {A : Type ℓ} → ArpLeaf → (Field → A) → List Field → A → A
reading k get fs d = read_last (λ f. is_leaf k (arp_leaf (name f))) get fs d

abbrev read : ArpEntry → List Field → ArpEntry
read e fs = record e {
  ip_address = reading address get_string_value fs e.ip_address;
  mac_address = reading hardware get_string_value fs e.mac_address;
  interface = reading port (λ f. expand_if_name (get_string_value f)) fs e.interface;
  age = reading time_to_live get_uint32_value fs e.age;
}

-- What one leaf of the kind `k` sets.
abbrev set_at : ArpLeaf → ArpEntry → Field → ArpEntry
set_at k e f = record e {
  ip_address = if is_leaf address k then get_string_value f else e.ip_address;
  mac_address = if is_leaf hardware k then get_string_value f else e.mac_address;
  interface = if is_leaf port k then expand_if_name (get_string_value f) else e.interface;
  age = if is_leaf time_to_live k then get_uint32_value f else e.age;
}

set_arp-eq-set_at : (k : ArpLeaf) (e : ArpEntry) (f : Field) → set_arp k e f ≡ set_at k e f
unfolding set_arp
set_arp-eq-set_at address e f = refl
set_arp-eq-set_at hardware e f = refl
set_arp-eq-set_at port e f = refl
set_arp-eq-set_at time_to_live e f = refl
set_arp-eq-set_at other e f = refl

foldl-apply_arp : (fs : List Field) (e : ArpEntry) → foldl apply_arp e fs ≡ read e fs
unfolding read_last
foldl-apply_arp [] e = refl
foldl-apply_arp (f ∷ fs) e =
    foldl-apply_arp fs (apply_arp e f)
    ∙ unfold apply_arp in rw (set_arp-eq-set_at (arp_leaf (name f)) e f) refl

walk_row-eq-described :
    (t : Telemetry) (row : Field) → walk_row apply_arp (new_arp t) (children row) ≡ described t row
unfolding new_arp
walk_row-eq-described t row =
    walk_row-eq-foldl apply_arp (new_arp t) (children row)
    ∙ foldl-apply_arp (leaves (children row)) (new_arp t)
    ∙ simp read_last-eq-last_of

abbrev pub has_address : ArpEntry → Bool
has_address e = not (is_empty e.ip_address)

arp_rows-eq-keep :
    (t : Telemetry) (rows : List Field) (es : List ArpEntry)
    → arp_rows t rows es ≡ es ++ keep has_address (map (described t) rows)
unfolding arp_rows
arp_rows-eq-keep t [] es = sym (append-nil es)
arp_rows-eq-keep t (row ∷ rows) es =
    arp_rows-eq-keep t rows _
    ∙ skip-append (is_empty entry.ip_address) entry es (keep has_address (map (described t) rows))
    ∙ rw (walk_row-eq-described t row) refl
  where
    entry : ArpEntry
    entry = walk_row apply_arp (new_arp t) (children row)

-- A message of ARP rows is published as one batch under its node: an entry for each row that has an
-- IP address, in order, made of the last leaf of each kind in the row. With no such row nothing is
-- sent.
pub publish_arp-eq-described :
    (accepts : List Message → Message → Bool) (marshal : List ArpEntry → Option Text)
    (t : Telemetry) (log : List Message)
    → publish_arp accepts marshal t log
      ≡ publish_entries accepts marshal t (keep has_address (map (described t) t.data_gpbkv)) log
unfolding publish_arp
publish_arp-eq-described accepts marshal t log = rw (arp_rows-eq-keep t t.data_gpbkv []) refl
