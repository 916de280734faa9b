-- ===== src/Collector/Mask.antt =====
-- `maskToPrefixLen` of collector/main.go. `net.ParseIP(mask).To4()` is the parameter `parse_ip4`: the
-- four bytes of an IPv4 address, `none` for nil. `size` is `IPMask.Size` of the Go library.
pub mod Laws
use cisco_netconf_mac_db.Common.{
  ℕ, zero, suc, ◌+◌, ◌*◌, ◌-◌, ◌^◌, ◌%◌, ◌==◌, ltb, Bool, true, false, Option, none, some, List, [],
  ◌∷◌, Text, if◌then◌else◌, ◌&&◌, all, ◌<|>◌,
}
use mathlib.Core.Option

-- The leading one bits of a byte whose other bits are zero, `none` for any other byte.
unfoldable pub byte_ones : ℕ → Option ℕ
byte_ones b =
    if b == 0xff
    then some 8
    else if b == 0xfe
    then some 7
    else if b == 0xfc
    then some 6
    else if b == 0xf8
    then some 5
    else if b == 0xf0
    then some 4
    else if b == 0xe0
    then some 3
    else if b == 0xc0
    then some 2
    else if b == 0x80
    then some 1
    else if b == 0
    then some 0
    else none

-- The ones of a mask, `none` where a zero bit stands before a one bit.
unfoldable pub mask_ones : List ℕ → Option ℕ
unfolding byte_ones
mask_ones [] = some 0
mask_ones (b ∷ bs) =
    if b == 0xff
    then Option.map (λ n. 8 + n) (mask_ones bs)
    else if all (λ c. c == 0) bs
    then byte_ones b
    else none

-- the first result of `IPMask.Size`, 0 for a mask that is no prefix
unfoldable pub size : List ℕ → ℕ
unfolding mask_ones
size mask = elim (mask_ones mask) [ none ↦ 0 | some ones ↦ ones ]

unfoldable pub mask_to_prefix_len : (Text → Option (List ℕ)) → Text → ℕ
unfolding size
mask_to_prefix_len parse_ip4 mask = elim (parse_ip4 mask) [ none ↦ 0 | some ip ↦ size ip ]
