-- ===== src/Base/Texts.antt =====
-- Texts as code points, and what the program uses of Rust's `str` and `i64`: `trim` with
-- `is_empty`, `i64::from_str`, and the `Display` of an `i64`.
pub mod Decimal
use Prim.Native.Nat.{ℕ, zero, suc, ◌+◌, ◌-◌, ◌*◌, ◌/◌, ◌%◌, ◌^◌}
use Prim.Native.Char.{code}
use Prim.Native.String.{String}
use mathlib.Core.Bool.{Bool, true, false, ◌&&◌, ◌||◌}
use mathlib.Core.List.{List, [], ◌∷◌}
use mathlib.Core.Option
use mathlib.Core.Option.{Option, none, some}
use chain_data_service.Base.Tests.{ltb, leb, ◌==◌, if◌then◌else◌}
use chain_data_service.Base.Int.{ℤ, pos, negsuc}

abbrev pub codes : String → List ℕ
codes String.[] = []
codes (String.◌∷◌ c s) = code c ∷ codes s

-- `char::is_whitespace`: the code points of Unicode's White_Space.
is_whitespace : ℕ → Bool
is_whitespace c =
    (leb 9 c && leb c 13)
    || c == 32
    || c == 0x85
    || c == 0xa0
    || c == 0x1680
    || (leb 0x2000 c && leb c 0x200a)
    || c == 0x2028
    || c == 0x2029
    || c == 0x202f
    || c == 0x205f
    || c == 0x3000

all_whitespace : List ℕ → Bool
all_whitespace [] = true
all_whitespace (c ∷ cs) = is_whitespace c && all_whitespace cs

-- `s.trim().is_empty()`
unfoldable pub is_blank : String → Bool
unfolding is_whitespace all_whitespace
is_blank s = all_whitespace (codes s)

is_digit : ℕ → Bool
is_digit c = leb b'0' c && leb c b'9'

-- The value of the digits read so far, and of those that follow.
digits_value : ℕ → List ℕ → Option ℕ
unfolding is_digit
digits_value acc [] = some acc
digits_value acc (c ∷ cs) = if is_digit c then digits_value (acc * 10 + (c - b'0')) cs else none

at_most : ℕ → Option ℕ → Option ℕ
at_most most none = none
at_most most (some n) = if leb n most then some n else none

-- At least one digit, and a value that does not overflow.
magnitude : ℕ → List ℕ → Option ℕ
unfolding digits_value at_most
magnitude most [] = none
magnitude most (c ∷ cs) = at_most most (digits_value 0 (c ∷ cs))

abbrev pub negate : ℕ → ℤ
negate zero = pos 0
negate (suc n) = negsuc n

abbrev pub i64_max : ℕ
i64_max = 9223372036854775807

parse_signed : List ℕ → Option ℤ
unfolding magnitude
parse_signed [] = none
parse_signed (c ∷ cs) =
    if c == b'-'
    then Option.map negate (magnitude (i64_max + 1) cs)
    else if c == b'+'
    then Option.map pos (magnitude i64_max cs)
    else Option.map pos (magnitude i64_max (c ∷ cs))

-- `i64::from_str`; an error is `none`.
unfoldable pub from_str : String → Option ℤ
unfolding parse_signed
from_str s = parse_signed (codes s)

-- `from_str` of an unsigned type whose largest value is `most`; an error is `none`.
parse_unsigned : ℕ → List ℕ → Option ℕ
unfolding magnitude
parse_unsigned most [] = none
parse_unsigned most (c ∷ cs) = if c == b'+' then magnitude most cs else magnitude most (c ∷ cs)

unfoldable pub from_str_unsigned : ℕ → String → Option ℕ
unfolding parse_unsigned
from_str_unsigned most s = parse_unsigned most (codes s)

-- The decimal digits of `n` before `acc`, on fuel.
print_digits : ℕ → ℕ → List ℕ → List ℕ
print_digits zero n acc = acc
print_digits (suc fuel) n acc =
    let rest = print_digits fuel (n / 10) ((b'0' + n % 10) ∷ acc) in
    if ltb n 10 then (b'0' + n) ∷ acc else rest

-- `Display` of an `i64`, as code points.
unfoldable pub display : ℤ → List ℕ
unfolding print_digits
display (pos n) = print_digits (n + 1) n []
display (negsuc n) = b'-' ∷ print_digits (n + 2) (n + 1) []
