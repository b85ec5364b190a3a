-- ===== src/Base/Text/Decimal.antt =====
-- Go's `%d` on a number that is not negative.
use mathlib.Core.Path.{◌≡◌}
use mathlib.Core.List.{[], ◌∷◌, ◌++◌}
use mathlib.Core.Logic.{inl, inr}
use Prim.Native.Nat.{ℕ, zero, suc, ◌+◌, ◌-◌, ◌*◌, ◌/◌, ◌%◌, ◌<◌}
use native.Mathlib.Omega.{arith}
use stream_api.Base.Tests.{if◌then◌else◌, ltb, Bool-cases}
use stream_api.Base.Equality.{Str}

-- One digit for each unit of fuel; `decimal_value` shows that `suc n` is enough.
digits : ℕ → ℕ → Str
digits zero n = []
digits (suc fuel) n =
    let rest = digits fuel (n / 10) ++ (b'0' + n % 10) ∷ [] in
    if ltb n 10 then (b'0' + n) ∷ [] else rest

unfoldable pub decimal : ℕ → Str
unfolding digits
decimal n = digits (suc n) n

-- The number that a text of digits stands for, after a number that was read before.
unfoldable pub value_from : ℕ → Str → ℕ
value_from n [] = n
value_from n (c ∷ s) = value_from (n * 10 + c - b'0') s

value_from-append :
    (n d : ℕ) (s : Str) → value_from n (s ++ (b'0' + d) ∷ []) ≡ value_from n s * 10 + d
unfolding value_from
value_from-append n d [] = omega arith
value_from-append n d (c ∷ s) = value_from-append (n * 10 + c - b'0') d s

value-digits : (fuel n : ℕ) → n < fuel → value_from 0 (digits fuel n) ≡ n
unfolding digits value_from
value-digits zero n h = absurd (omega arith)
value-digits (suc fuel) n h = elim (Bool-cases (ltb n 10)) [
  | inl small ↦ rw small (omega arith)
  | inr large ↦ rw large (
      let shorter : n / 10 < fuel = ground arith in
      ground (
        arith,
        value_from-append 0 (n % 10) (digits fuel (n / 10)),
        value-digits fuel (n / 10) shorter,
      ))
]

-- Reading the digits gives the number back, so none is missing.
pub decimal_value : (n : ℕ) → value_from 0 (decimal n) ≡ n
unfolding decimal
decimal_value n = value-digits (suc n) n (omega arith)
