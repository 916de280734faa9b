-- ===== src/Proto.antt =====
-- proto/telemetry.pb.go: the decoded telemetry message, a tree of named fields, and the getters
-- that the collector calls. A list of fields inside a field is the mutual type `Fields`; `children`
-- gives it as a list. Floating point values are their bit patterns, which the collector never reads.
use cisco_netconf_mac_db.Common.{ℕ, suc, ◌+◌, Option, some, Bool, List, [], ◌∷◌, Text, ℤ}

pub data Value : Type 0 where
  bytes_value : List ℕ → Value
  string_value : Text → Value
  bool_value : Bool → Value
  uint32_value : ℕ → Value
  uint64_value : ℕ → Value
  sint32_value : ℤ → Value
  sint64_value : ℤ → Value
  double_value : ℕ → Value
  float_value : ℕ → Value

mutual
  pub data Field : Type 0 where
    field : ℕ → Text → Option Value → Fields → Field

  pub data Fields : Type 0 where
    nil : Fields
    cons : Field → Fields → Fields

abbrev pub to_list : Fields → List Field
to_list nil = []
to_list (cons f fs) = f ∷ to_list fs

abbrev pub of_list : List Field → Fields
of_list [] = nil
of_list (f ∷ fs) = cons f (of_list fs)

abbrev pub name : Field → Text
name (field t n v fs) = n

abbrev pub children : Field → List Field
children (field t n v fs) = to_list fs

abbrev pub value_by_type : Field → Option Value
value_by_type (field t n v fs) = v

abbrev string_of : Option Value → Text
string_of (some (string_value s)) = s
string_of _ = []

abbrev uint32_of : Option Value → ℕ
uint32_of (some (uint32_value n)) = n
uint32_of _ = 0

-- `GetStringValue`: the empty string where the value is of another type, or absent.
unfoldable pub get_string_value : Field → Text
get_string_value f = string_of (value_by_type f)

-- `GetUint32Value`
unfoldable pub get_uint32_value : Field → ℕ
get_uint32_value f = uint32_of (value_by_type f)

pub record Telemetry : Type 0 where
  pub node_id_str : Text
  pub subscription_id_str : Text
  pub encoding_path : Text
  pub collection_id : ℕ
  pub collection_start_time : ℕ
  pub msg_timestamp : ℕ
  pub data_gpbkv : List Field

-- The number of fields in a tree.
unfoldable mutual
  pub size : Field → ℕ
  size (field t n v fs) = suc (sizes fs)

  pub sizes : Fields → ℕ
  sizes nil = 0
  sizes (cons f fs) = size f + sizes fs
