-- ===== src/Otp/Codes.antt =====
-- The texts that generateAt of src/svc/internal/otp/otp.go makes.
use dcalcon.Base.{
  ℕ, zero, suc, ◌-◌, ◌%◌, ◌<◌, true, Option, some, List, Text, length, length-append, all,
  all-append, ◌≡◌, refl, ap, sym, to_upper, trim_space, arith, Option-cases, inl, inr,
}
use dcalcon.Decimal.{format_int}
use dcalcon.Decimal.RoundTrip.{is_digit, format_int-digits}
use dcalcon.Decimal.Width.{power_of_ten, length-format_int}
use dcalcon.Otp.{number_of_digits, zeros, pad, truncated, put_uint64, generate_at}

length-zeros : (n : ℕ) → length (zeros n) ≡ n
length-zeros zero = refl
length-zeros (suc n) = ap suc (length-zeros n)

all-zeros : (n : ℕ) → all is_digit (zeros n) ≡ true
unfolding all
all-zeros zero = refl
all-zeros (suc n) = all-zeros n

-- A number below ten to the width is padded to the width with digits.
pad-digits :
    (k n : ℕ)
    → n < power_of_ten (suc k)
    → (length (pad (suc k) n) ≡ suc k) × (all is_digit (pad (suc k) n) ≡ true)
unfolding pad
pad-digits k n b =
    let fits = length-format_int n k b in
    (
      rw (length-append (zeros (suc k - length (format_int n))) (format_int n), length-zeros)
          (omega (arith, fits)),
      rw
          (
            all-append is_digit (zeros (suc k - length (format_int n))) (format_int n),
            all-zeros,
            format_int-digits n,
          )
          refl,
    )

-- Whatever the secret decodes to and whatever the sum of HMAC is, a code has as many digits as it
-- should, and nothing else.
pub generate_at-digits :
    (table : ℕ → ℕ) (decode : Text → Option (List ℕ)) (hmac : List ℕ → List ℕ → List ℕ)
    (secret code : Text) (counter : ℕ)
    → generate_at table decode hmac secret counter ≡ some code
    → (length code ≡ number_of_digits) × (all is_digit code ≡ true)
unfolding generate_at
generate_at-digits table decode hmac secret code counter h =
    elim (Option-cases (decode (to_upper table (trim_space secret)))) [
      | inl e ↦ let g = rw e at h in absurd cc
      | inr (key, e) ↦
          let g = rw e at h in
          let n = truncated (hmac key (put_uint64 counter)) in
          let same_code : pad 6 (n % 1000000) ≡ code = cc in
          rw (sym same_code) (pad-digits 5 (n % 1000000) (omega arith))
    ]
