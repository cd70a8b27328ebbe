-- ===== src/Decimal.antt =====
-- strconv.FormatInt and strconv.ParseInt at base 10 and 64 bits, as storage/dav.go calls them.
pub mod RoundTrip
pub mod Width
use dcalcon.Base.{
  ℕ, zero, suc, ◌+◌, ◌-◌, ◌*◌, ◌/◌, ◌%◌, ◌^◌, Bool, ◌&&◌, Option, none, some, List, [], ◌∷◌, ◌≡◌,
  refl, Text, codes, ltb, leb, ◌==◌, if◌then◌else◌,
}

-- An int64 that may be negative: `negsuc n` is -(n + 1).
pub data ℤ : Type 0 where
  pos : ℕ → ℤ
  negsuc : ℕ → ℤ

abbrev pub max_int64 : ℕ
max_int64 = 2 ^ 63 - 1

-- The digits of a number before those already written; the fuel exceeds the number.
pub digits : ℕ → ℕ → Text → Text
digits zero n out = out
digits (suc f) n out =
    let longer = (b'0' + n % 10) ∷ out in
    let rest = digits f (n / 10) longer in if ltb n 10 then longer else rest

unfoldable pub format_int : ℕ → Text
unfolding digits
format_int n = digits (suc n) n []

pub scan : Text → ℕ → Option ℕ
scan [] n = some n
scan (c ∷ s) n = if leb b'0' c && leb c b'9' then scan s (n * 10 + (c - b'0')) else none

pub scan_digits : Text → Option ℕ
unfolding scan
scan_digits [] = none
scan_digits (c ∷ s) = scan (c ∷ s) 0

pub within : ℕ → Option ℕ → Option ℕ
within top none = none
within top (some n) = if leb n top then some n else none

pub positive : Option ℕ → Option ℤ
positive none = none
positive (some n) = some (pos n)

pub negative : Option ℕ → Option ℤ
negative none = none
negative (some zero) = some (pos 0)
negative (some (suc n)) = some (negsuc n)

-- An optional sign and at least one digit; a value outside int64 is an error.
unfoldable pub parse_int : Text → Option ℤ
unfolding scan_digits within positive negative
parse_int [] = none
parse_int (c ∷ s) =
    if c == b'-'
    then negative (within (2 ^ 63) (scan_digits s))
    else if c == b'+'
    then positive (within max_int64 (scan_digits s))
    else positive (within max_int64 (scan_digits (c ∷ s)))

format_int-example : format_int 9223372036854775807 ≡ codes "9223372036854775807"
unfolding format_int
format_int-example = refl

parse_int-overflow : parse_int (codes "9223372036854775808") ≡ none
unfolding parse_int
parse_int-overflow = refl

parse_int-minus : parse_int (codes "-12") ≡ some (negsuc 11)
unfolding parse_int
parse_int-minus = refl
