-- ===== src/Collector/Mask/Laws.antt =====
-- `mask_to_prefix_len` inverts the making of a mask from a prefix length.
use cisco_netconf_mac_db.Common.{
  ℕ, zero, suc, ◌-◌, ◌^◌, ◌≤◌, ◌<◌, ◌≡◌, refl, ◌==◌, ==_iff, Bool, true, Option, some, List, [],
  ◌∷◌, Text, if◌then◌else◌, ◌&&◌, arith, leb,
}
use cisco_netconf_mac_db.Collector.Mask.{size, mask_to_prefix_len}

-- The byte with n leading ones, at most 8.
abbrev pub byte_of : ℕ → ℕ
byte_of n = if leb 8 n then 0xff else 256 - 2 ^ (8 - n)

-- The mask of a prefix length.
abbrev pub mask_of : ℕ → List ℕ
mask_of n = byte_of n ∷ byte_of (n - 8) ∷ byte_of (n - 16) ∷ byte_of (n - 24) ∷ []

-- Every prefix length up to a bound is the length of its mask.
fits_to : ℕ → Bool
fits_to zero = true
fits_to (suc bound) = size (mask_of bound) == bound && fits_to bound

fits_to_sound : (bound n : ℕ) → fits_to bound ≡ true → n < bound → size (mask_of n) ≡ n
unfolding fits_to
fits_to_sound zero n fits below = absurd (omega arith)
fits_to_sound (suc bound) n fits below =
    ground (arith, fits_to_sound bound n, ==_iff (size (mask_of bound)) bound)

fits_to-33 : fits_to 33 ≡ true
unfolding fits_to size
fits_to-33 = refl

size-mask_of : (n : ℕ) → n ≤ 32 → size (mask_of n) ≡ n
size-mask_of n h = fits_to_sound 33 n fits_to-33 (omega arith)

-- A text that parses as the mask of a prefix length of at most 32 gives that length.
pub mask_to_prefix_len-mask_of :
    (parse_ip4 : Text → Option (List ℕ)) (mask : Text) (n : ℕ)
    → n ≤ 32
    → parse_ip4 mask ≡ some (mask_of n)
    → mask_to_prefix_len parse_ip4 mask ≡ n
unfolding mask_to_prefix_len
mask_to_prefix_len-mask_of parse_ip4 mask n h e = rw (e, mask_to_prefix_len) (size-mask_of n h)
