-- ===== src/Wire.antt =====
-- The JSON between collector/main.go and consumer/main.go: what `json.Marshal` makes of the collector's payload
-- structs, and what `json.Unmarshal` makes of that for the consumer's. An object is its members in order. The
-- texts of objects and of times are parameters: `format`, `parse_time` (time.RFC3339Nano), `print` and `parse`.
pub mod Json
pub mod Encode
pub mod Decode
pub mod Laws
pub mod Arrays
pub mod Arrives
pub mod Tests
