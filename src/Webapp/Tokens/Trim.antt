-- ===== src/Webapp/Tokens/Trim.antt =====
-- `strings.TrimSpace` on UTF-8 bytes: the encodings of the white space characters are taken off both
-- ends. Each round takes at least one byte, so the length is fuel enough.
use cisco_netconf_mac_db.Common.{
  ℕ, zero, suc, List, [], ◌∷◌, Option, none, some, Text, has_prefix, drop, length, map, reverse,
  if◌then◌else◌,
}

abbrev pub spaces : List Text
spaces =
    (0x09 ∷ [])
    ∷ (0x0a ∷ [])
    ∷ (0x0b ∷ [])
    ∷ (0x0c ∷ [])
    ∷ (0x0d ∷ [])
    ∷ (0x20 ∷ [])
    ∷ (0xc2 ∷ 0x85 ∷ [])
    ∷ (0xc2 ∷ 0xa0 ∷ [])
    ∷ (0xe1 ∷ 0x9a ∷ 0x80 ∷ [])
    ∷ (0xe2 ∷ 0x80 ∷ 0x80 ∷ [])
    ∷ (0xe2 ∷ 0x80 ∷ 0x81 ∷ [])
    ∷ (0xe2 ∷ 0x80 ∷ 0x82 ∷ [])
    ∷ (0xe2 ∷ 0x80 ∷ 0x83 ∷ [])
    ∷ (0xe2 ∷ 0x80 ∷ 0x84 ∷ [])
    ∷ (0xe2 ∷ 0x80 ∷ 0x85 ∷ [])
    ∷ (0xe2 ∷ 0x80 ∷ 0x86 ∷ [])
    ∷ (0xe2 ∷ 0x80 ∷ 0x87 ∷ [])
    ∷ (0xe2 ∷ 0x80 ∷ 0x88 ∷ [])
    ∷ (0xe2 ∷ 0x80 ∷ 0x89 ∷ [])
    ∷ (0xe2 ∷ 0x80 ∷ 0x8a ∷ [])
    ∷ (0xe2 ∷ 0x80 ∷ 0xa8 ∷ [])
    ∷ (0xe2 ∷ 0x80 ∷ 0xa9 ∷ [])
    ∷ (0xe2 ∷ 0x80 ∷ 0xaf ∷ [])
    ∷ (0xe2 ∷ 0x81 ∷ 0x9f ∷ [])
    ∷ (0xe3 ∷ 0x80 ∷ 0x80 ∷ [])
    ∷ []

-- The rest behind the first of some texts that is a prefix.
unfoldable pub strip : List Text → Text → Option Text
strip [] s = none
strip (p ∷ ps) s = if has_prefix s p then some (drop (length p) s) else strip ps s

unfoldable pub strip_all : ℕ → List Text → Text → Text
strip_all zero ps s = s
strip_all (suc fuel) ps s = elim (strip ps s) [ none ↦ s | some rest ↦ strip_all fuel ps rest ]

unfoldable pub trim_space : Text → Text
trim_space s =
    let left = strip_all (length s) spaces s in
    reverse (strip_all (length left) (map reverse spaces) (reverse left))
