-- ===== src/Lvm/Decimal.antt =====
-- Decimal numbers of strconv: FormatUint(n, 10) and ParseUint(s, 10, 64).
use Prim.Native.Char.{Char, code}
use beanstore.Base.{
  ℕ, zero, suc, ◌+◌, ◌-◌, ◌*◌, ◌/◌, ◌%◌, ◌^◌, ◌≡◌, refl, String, Option, none, some, Bool, ◌&&◌,
  ltb, leb, ◌==◌, cat, if◌then◌else◌,
}

digit : ℕ → String
digit d =
    if d == 0
    then "0"
    else if d == 1
    then "1"
    else if d == 2
    then "2"
    else if d == 3
    then "3"
    else if d == 4
    then "4"
    else if d == 5
    then "5"
    else if d == 6
    then "6"
    else if d == 7
    then "7"
    else if d == 8
    then "8"
    else "9"

-- `fuel` is above the number of digits.
format_from : ℕ → ℕ → String
unfolding digit
format_from zero n = ""
format_from (suc fuel) n =
    let rest = format_from fuel (n / 10) in if ltb n 10 then digit n else cat rest (digit (n % 10))

unfoldable pub format_uint : ℕ → String
unfolding format_from cat
format_uint n = format_from (suc n) n

is_digit : Char → Bool
is_digit c = leb 48 (code c) && leb (code c) 57

-- The value so far is `acc`; a character that is no digit and a value past 64 bits are refused.
parse_from : ℕ → String → Option ℕ
unfolding is_digit
parse_from acc String.[] = some acc
parse_from acc (String.◌∷◌ c s) =
    let next : ℕ = acc * 10 + (code c - 48) in
    let rest = parse_from next s in if is_digit c && ltb next (2 ^ 64) then rest else none

unfoldable pub parse_uint : String → Option ℕ
unfolding parse_from
parse_uint String.[] = none
parse_uint (String.◌∷◌ c s) = parse_from 0 (String.◌∷◌ c s)

test_format : format_uint 1048576 ≡ "1048576"
unfolding format_uint
test_format = refl

test_parse : parse_uint "18446744073709551615" ≡ some 18446744073709551615
unfolding parse_uint
test_parse = refl

test_overflow : parse_uint "18446744073709551616" ≡ none
unfolding parse_uint
test_overflow = refl
