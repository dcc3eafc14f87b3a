-- ===== src/Prelude/Text.antt =====
-- Python's `str` as the native `String`: concatenation, `str.join`, and `str(n)` of a number.
use Prim.Native.Nat.{ℕ, zero, suc, ◌/◌, ◌%◌}
use Prim.Native.String.{String, ◌++◌}
use mathlib.Core.Bool.{Bool, not}
use mathlib.Core.List.{List, [], ◌∷◌}
use text.Mathlib.Text.{◌==◌}
use construction_harness.Prelude.Tests.{nat_beq, if◌then◌else◌}

-- The parts of an f-string, one after the other.
abbrev pub concat : List String → String
concat [] = ""
concat (s ∷ ss) = s ++ concat ss

-- sep.join(parts)
abbrev pub join : String → List String → String
join sep [] = ""
join sep (s ∷ []) = s
join sep (s ∷ t ∷ ss) = s ++ (sep ++ join sep (t ∷ ss))

abbrev digit : ℕ → String
digit d =
    if nat_beq d 0
    then "0"
    else if nat_beq d 1
    then "1"
    else if nat_beq d 2
    then "2"
    else if nat_beq d 3
    then "3"
    else if nat_beq d 4
    then "4"
    else if nat_beq d 5
    then "5"
    else if nat_beq d 6
    then "6"
    else if nat_beq d 7
    then "7"
    else if nat_beq d 8
    then "8"
    else "9"

decimal_digits : ℕ → ℕ → String
decimal_digits zero n = ""
decimal_digits (suc fuel) n =
    let higher = decimal_digits fuel (n / 10) in
    if nat_beq (n / 10) 0 then digit (n % 10) else higher ++ digit (n % 10)

-- str(n): a number has at most n + 1 digits.
unfoldable pub decimal : ℕ → String
unfolding decimal_digits
decimal n = decimal_digits (suc n) n

-- bool(s)
abbrev pub nonempty : String → Bool
nonempty s = not (s == "")

-- s[:n]
unfoldable pub first_chars : ℕ → String → String
first_chars zero s = ""
first_chars (suc n) String.[] = ""
first_chars (suc n) (String.◌∷◌ c s) = String.◌∷◌ c (first_chars n s)
