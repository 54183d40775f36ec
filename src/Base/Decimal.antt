-- ===== src/Base/Decimal.antt =====
-- `String(n)` of a whole number.
use net_conductor.Base.Tests.{ltb, if◌then◌else◌}
use net_conductor.Base.Text.{Text, codes}
use Prim.Native.Nat.{ℕ, zero, suc, ◌+◌, ◌/◌, ◌%◌}
use mathlib.Core.List.{[], ◌∷◌, ◌++◌}
use mathlib.Core.Path.{◌≡◌, refl}

unfoldable pub digits : ℕ → ℕ → Text
digits zero n = []
digits (suc fuel) n =
    let rest = digits fuel (n / 10) in
    if ltb n 10 then (b'0' + n) ∷ [] else rest ++ (b'0' + n % 10) ∷ []

-- A number has at most as many digits as its value plus one.
unfoldable pub decimal : ℕ → Text
unfolding digits
decimal n = digits (suc n) n

decimal_test : decimal 24000 ≡ codes "24000"
unfolding decimal
decimal_test = refl
