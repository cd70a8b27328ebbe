-- ===== src/Decimal/RoundTrip.antt =====
-- A number that is printed is read back.
use dcalcon.Base.{
  Bool, true, ◌&&◌, leb, all, none_pass, is_space, ℕ, zero, suc, ◌+◌, ◌/◌, ◌%◌, ◌≤◌, ◌<◌, some, [],
  ◌∷◌, ◌≡◌, refl, Text, arith, inl, inr, Bool-cases, ltb,
}
use dcalcon.Decimal.{max_int64, digits, format_int, scan, within, positive, parse_int, pos}

scan-digits : (f n : ℕ) (out : Text) → n < f → scan (digits f n out) 0 ≡ scan out n
unfolding digits scan
scan-digits zero n out h = absurd (omega arith)
scan-digits (suc f) n out h = ground (arith, scan-digits f (n / 10) ((b'0' + n % 10) ∷ out))

-- The first character of a text is a digit.
abbrev DigitFirst : Text → Type 0
DigitFirst [] = ⊥
DigitFirst (c ∷ s) = (b'0' ≤ c) × (c ≤ b'9')

digits-DigitFirst : (f n : ℕ) (out : Text) → n < f → DigitFirst (digits f n out)
unfolding digits
digits-DigitFirst zero n out h = absurd (omega arith)
digits-DigitFirst (suc f) n out h = elim (Bool-cases (ltb n 10)) [
  | inl few ↦ rw few (omega arith)
  | inr many ↦ rw many (digits-DigitFirst f (n / 10) _ (ground arith))
]

parse_int-unsigned :
    (t : Text) → DigitFirst t → parse_int t ≡ positive (within max_int64 (scan t 0))
unfolding parse_int
parse_int-unsigned [] h = absurd h
parse_int-unsigned (c ∷ s) h = ground arith

-- Every int64 that is not negative is read back from its print.
pub parse_int-format_int : (n : ℕ) → n ≤ max_int64 → parse_int (format_int n) ≡ some (pos n)
unfolding format_int
parse_int-format_int n h =
    rw (parse_int-unsigned (digits (suc n) n []) (digits-DigitFirst (suc n) n [] (omega arith)))
      (rw (scan-digits (suc n) n [] (omega arith)) (unfold scan positive within in ground arith))

abbrev pub is_digit : ℕ → Bool
is_digit c = leb b'0' c && leb c b'9'

digits-all : (f n : ℕ) (out : Text) → all is_digit out ≡ true → all is_digit (digits f n out) ≡ true
unfolding digits all
digits-all zero n out h = h
digits-all (suc f) n out h = ground (arith, digits-all f (n / 10) ((b'0' + n % 10) ∷ out))

pub spaceless-digits : (s : Text) → all is_digit s ≡ true → none_pass is_space s ≡ true
unfolding all is_space
spaceless-digits [] h = refl
spaceless-digits (c ∷ s) h = ground (arith, spaceless-digits s)

pub format_int-digits : (n : ℕ) → all is_digit (format_int n) ≡ true
unfolding format_int
format_int-digits n = digits-all (suc n) n [] (unfold all in refl)

-- A printed number holds no white space.
pub format_int-spaceless : (n : ℕ) → none_pass is_space (format_int n) ≡ true
unfolding format_int
format_int-spaceless n = spaceless-digits (digits (suc n) n []) (format_int-digits n)
