-- ===== src/Base/Texts/Decimal.antt =====
-- Reading back what `Display` prints for an `i64`, and the range of what is read.
use Prim.Native.Nat.{ℕ, zero, suc, ◌+◌, ◌-◌, ◌*◌, ◌/◌, ◌%◌, ◌≤◌, ◌<◌}
use Prim.Native.String.{String}
use mathlib.Core.Path.{◌≡◌, refl, ◌∙◌, ap}
use mathlib.Core.Logic.{inl, inr}
use mathlib.Core.List.{List, [], ◌∷◌}
use mathlib.Core.Option
use mathlib.Core.Option.{Option, none, some}
use native.Mathlib.Omega.{arith}
use native.Mathlib.Numerals.{add-one}
use chain_data_service.Base.Tests.{ltb, Bool-cases}
use chain_data_service.Base.Int.{ℤ, pos, negsuc, pos_part, neg_part}
use chain_data_service.Base.Texts.{
  codes, digits_value, at_most, magnitude, negate, i64_max, parse_signed, parse_unsigned, from_str,
  from_str_unsigned, print_digits, display,
}

-- Reading one more digit.
digits_value-digit :
    (a d n : ℕ) (acc : List ℕ)
    → d < 10
    → a * 10 + d ≡ n
    → digits_value a ((b'0' + d) ∷ acc) ≡ digits_value n acc
unfolding digits_value
digits_value-digit a d n acc h e =
    let same : a * 10 + (b'0' + d - b'0') ≡ n = omega arith in
    ground (arith, ap (λ (k : ℕ). digits_value k acc) same)

digits_value-print_digits :
    (fuel n : ℕ) (acc : List ℕ)
    → n < fuel
    → digits_value 0 (print_digits fuel n acc) ≡ digits_value n acc
unfolding print_digits
digits_value-print_digits zero n acc h = elim h [ ]
digits_value-print_digits (suc fuel) n acc h = elim (Bool-cases (ltb n 10)) [
  | inl small ↦ rw small (digits_value-digit 0 n n acc (ground arith) (omega arith))
  | inr large ↦ rw large (
      digits_value-print_digits fuel (n / 10) ((b'0' + n % 10) ∷ acc) (ground arith)
      ∙ digits_value-digit (n / 10) (n % 10) n acc (omega arith) (omega arith))
]

digits_value-nil : (n : ℕ) → digits_value n [] ≡ some n
unfolding digits_value
digits_value-nil n = refl

-- The printed digits begin with a digit, so never with a sign.
print_digits-head :
    (fuel n : ℕ) (acc : List ℕ)
    → n < fuel
    → (d : ℕ) × (rest : List ℕ) × (print_digits fuel n acc ≡ (b'0' + d) ∷ rest) × (d < 10)
unfolding print_digits
print_digits-head zero n acc h = elim h [ ]
print_digits-head (suc fuel) n acc h = elim (Bool-cases (ltb n 10)) [
  | inl small ↦ (n, acc, rw small, ground arith)
  | inr large ↦ rw large (print_digits-head fuel (n / 10) ((b'0' + n % 10) ∷ acc) (ground arith))
]

-- What is read from a text of digits is the number, if it does not overflow.
magnitude-print_digits :
    (most fuel n : ℕ) → n < fuel → n ≤ most → magnitude most (print_digits fuel n []) ≡ some n
unfolding magnitude at_most
magnitude-print_digits most fuel n h b =
    let (d, rest, e, _) = print_digits-head fuel n [] h in
    let v = digits_value-print_digits fuel n [] h ∙ digits_value-nil n in ground (arith, e, v)

parse_signed-display_pos : (n : ℕ) → n ≤ i64_max → parse_signed (display (pos n)) ≡ some (pos n)
unfolding parse_signed display
parse_signed-display_pos n b =
    let (d, rest, e, small) = print_digits-head (n + 1) n [] (omega arith) in
    let v = magnitude-print_digits i64_max (n + 1) n (omega arith) b in ground (arith, e, v)

negate-add_one : (n : ℕ) → negate (n + 1) ≡ negsuc n
negate-add_one n = rw add-one

parse_signed-display_negsuc :
    (n : ℕ) → n ≤ i64_max → parse_signed (display (negsuc n)) ≡ some (negsuc n)
unfolding parse_signed display
parse_signed-display_negsuc n b =
    rw (magnitude-print_digits (i64_max + 1) (n + 2) (n + 1) (omega arith) (omega arith))
      (ap some (negate-add_one n))

-- Every `i64` is read back from its printed form.
pub from_str-display :
    (s : String) (n : ℤ)
    → pos_part n ≤ i64_max
    → neg_part n ≤ i64_max + 1
    → codes s ≡ display n
    → from_str s ≡ some n
unfolding from_str
from_str-display s (pos n) h k e = rw e (parse_signed-display_pos n h)
from_str-display s (negsuc n) h k e = rw e (parse_signed-display_negsuc n (omega arith))

-- Every number of an unsigned type is read back from its printed form.
pub from_str_unsigned-display :
    (most : ℕ) (s : String) (n : ℕ)
    → n ≤ most
    → codes s ≡ display (pos n)
    → from_str_unsigned most s ≡ some n
unfolding from_str_unsigned parse_unsigned display
from_str_unsigned-display most s n b h =
    let (d, rest, e, small) = print_digits-head (n + 1) n [] (omega arith) in
    let v = magnitude-print_digits most (n + 1) n (omega arith) b in ground (arith, h, e, v)

magnitude-le : (most n : ℕ) (cs : List ℕ) → magnitude most cs ≡ some n → n ≤ most
unfolding magnitude at_most
magnitude-le most n [] h = cc
magnitude-le most n (c ∷ cs) h = ground arith

neg_part-negate : (n : ℕ) → (neg_part (negate n) ≡ n) × (pos_part (negate n) ≡ 0)
neg_part-negate zero = omega arith
neg_part-negate (suc n) = omega arith

abbrev pub InI64 : ℤ → Type 0
InI64 n = (pos_part n ≤ i64_max) × (neg_part n ≤ i64_max + 1)

map-pos-InI64 :
    (o : Option ℕ) (n : ℤ)
    → ((m : ℕ) → o ≡ some m → m ≤ i64_max)
    → Option.map pos o ≡ some n
    → InI64 n
map-pos-InI64 none n h e = cc
map-pos-InI64 (some m) n h e = ground (arith, h m refl)

map-negate-InI64 :
    (o : Option ℕ) (n : ℤ)
    → ((m : ℕ) → o ≡ some m → m ≤ i64_max + 1)
    → Option.map negate o ≡ some n
    → InI64 n
map-negate-InI64 none n h e = cc
map-negate-InI64 (some m) n h e = ground (arith, h m refl, neg_part-negate m)

parse_signed-InI64 : (cs : List ℕ) (n : ℤ) → parse_signed cs ≡ some n → InI64 n
unfolding parse_signed
parse_signed-InI64 [] n e = cc
parse_signed-InI64 (c ∷ cs) n e = ground (
  arith,
  map-negate-InI64 (magnitude (i64_max + 1) cs) n (λ m. magnitude-le _ m cs),
  map-pos-InI64 (magnitude i64_max cs) n (λ m. magnitude-le _ m cs),
  map-pos-InI64 (magnitude i64_max (c ∷ cs)) n (λ m. magnitude-le _ m (c ∷ cs)),
)

-- What is read is an `i64`.
pub from_str-InI64 : (s : String) (n : ℤ) → from_str s ≡ some n → InI64 n
unfolding from_str
from_str-InI64 s n h = parse_signed-InI64 (codes s) n h

parse_unsigned-le : (most n : ℕ) (cs : List ℕ) → parse_unsigned most cs ≡ some n → n ≤ most
unfolding parse_unsigned
parse_unsigned-le most n [] h = absurd (ground (arith, h))
parse_unsigned-le most n (c ∷ cs) h =
    ground (arith, h, magnitude-le most n cs, magnitude-le most n (c ∷ cs))

-- A number that is read does not exceed the largest value of its type.
pub from_str_unsigned-le : (most n : ℕ) (s : String) → from_str_unsigned most s ≡ some n → n ≤ most
unfolding from_str_unsigned
from_str_unsigned-le most n s h = parse_unsigned-le most n (codes s) h
