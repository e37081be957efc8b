-- ===== src/Base/Text.antt =====
-- Decimal numerals: Python's `str(n)` for `0 ≤ n`.
use Prim.Native.Nat.{ℕ, zero, suc, ◌/◌, ◌%◌}
use Prim.Native.String.{String, ◌++◌ as ◌<>◌}
use klados.Base.Tests.{◌==◌, ltb, if◌then◌else◌}
use mathlib.Core.Path.{◌≡◌, refl}

digit : ℕ → String
digit n =
    if n == 0
    then "0"
    else if n == 1
    then "1"
    else if n == 2
    then "2"
    else if n == 3
    then "3"
    else if n == 4
    then "4"
    else if n == 5
    then "5"
    else if n == 6
    then "6"
    else if n == 7
    then "7"
    else if n == 8
    then "8"
    else "9"

-- the digits, with fuel for them
str_fuel : ℕ → ℕ → String
unfolding digit
str_fuel zero n = ""
str_fuel (suc fuel) n =
    let higher = str_fuel fuel (n / 10) in if ltb n 10 then digit n else higher <> digit (n % 10)

-- A number below 10 ^ n has at most n digits, so its successor is fuel enough.
unfoldable pub str : ℕ → String
unfolding str_fuel
str n = str_fuel (suc n) n

str_runs : str 1070 ≡ "1070"
unfolding str
str_runs = refl
