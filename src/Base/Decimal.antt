-- ===== src/Base/Decimal.antt =====
-- `%d`: an integer in decimal digits.
use Prim.Native.Nat.{ℕ, zero, suc, ◌/◌, ◌%◌}
use Prim.Native.String.{String, ◌++◌ as ◌<>◌}
use mactainer.Base.Tests.{ltb, if◌then◌else◌}
use mactainer.Base.Int.{ℤ, pos, negsuc}

digit : ℕ → String
digit n =
    if ltb n 1
    then "0"
    else if ltb n 2
    then "1"
    else if ltb n 3
    then "2"
    else if ltb n 4
    then "3"
    else if ltb n 5
    then "4"
    else if ltb n 6
    then "5"
    else if ltb n 7
    then "6"
    else if ltb n 8
    then "7"
    else if ltb n 9
    then "8"
    else "9"

-- One digit for each round: as many rounds as the number are more than enough.
decimal_from : ℕ → ℕ → String → String
unfolding digit
decimal_from zero n acc = digit (n % 10) <> acc
decimal_from (suc fuel) n acc =
    let more = decimal_from fuel (n / 10) (digit (n % 10) <> acc) in
    if ltb n 10 then digit (n % 10) <> acc else more

unfoldable pub decimal : ℤ → String
unfolding decimal_from
decimal (pos n) = decimal_from n n ""
decimal (negsuc n) = "-" <> decimal_from (suc n) (suc n) ""
