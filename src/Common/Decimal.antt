-- ===== src/Common/Decimal.antt =====
-- `%d` of an unsigned number: its decimal digits, as text. The loop puts out at most one digit for
-- each unit of fuel; `suc n` is enough.
use Prim.Native.Nat.{ℕ, zero, suc, ◌+◌, ◌*◌, ◌/◌, ◌%◌, ◌-◌, ◌<◌}
use mathlib.Core.Path.{◌≡◌, refl, sym, ap, ◌∙◌}
use mathlib.Core.List.{[], ◌∷◌, ◌++◌}
use native.Mathlib.Omega.{arith}
use mathlib.Core.Logic.{inl, inr}
use cisco_netconf_mac_db.Common.Tests.{if◌then◌else◌, ltb, Bool-cases}
use cisco_netconf_mac_db.Common.Strings.{Text}

unfoldable pub decimal_from : ℕ → ℕ → Text
decimal_from zero n = []
decimal_from (suc fuel) n =
    let more = decimal_from fuel (n / 10) in
    if ltb n 10 then (b'0' + n) ∷ [] else more ++ (b'0' + n % 10) ∷ []

unfoldable pub decimal : ℕ → Text
unfolding decimal_from
decimal n = decimal_from (suc n) n

-- The number that a text of digits stands for.
pub value_from : ℕ → Text → ℕ
value_from acc [] = acc
value_from acc (c ∷ s) = value_from (acc * 10 + (c - b'0')) s

value_from-append :
    (s : Text) (acc c : ℕ) → value_from acc (s ++ c ∷ []) ≡ value_from acc s * 10 + (c - b'0')
unfolding value_from
value_from-append [] acc c = refl
value_from-append (d ∷ s) acc c = value_from-append s (acc * 10 + (d - b'0')) c

value-decimal_from : (fuel n : ℕ) → n < fuel → value_from 0 (decimal_from fuel n) ≡ n
unfolding value_from decimal_from
value-decimal_from zero n h = elim h [ ]
value-decimal_from (suc fuel) n h = elim (Bool-cases (ltb n 10)) [
  | inl e ↦ rw e (omega arith)
  | inr e ↦ rw e (
      rw (value_from-append (decimal_from fuel (n / 10)) 0 (b'0' + n % 10))
        (ground (arith, value-decimal_from fuel (n / 10))))
]

pub value-decimal : (n : ℕ) → value_from 0 (decimal n) ≡ n
value-decimal n = unfold decimal in value-decimal_from (suc n) n (omega arith)

-- Numbers are told apart by their digits.
pub decimal_injective : (m n : ℕ) → decimal m ≡ decimal n → m ≡ n
decimal_injective m n e = sym (value-decimal m) ∙ ap (value_from 0) e ∙ value-decimal n
