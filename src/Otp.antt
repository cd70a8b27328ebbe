-- ===== src/Otp.antt =====
-- One-time codes: src/svc/internal/otp/otp.go. A time is Unix seconds. HMAC-SHA1 is the argument
-- `hmac`, of the key and the message, and base32's decoder without padding the argument `decode`;
-- bytes are numbers below 256.
pub mod Codes
pub mod Window
use dcalcon.Base.{
  ℕ, zero, suc, ◌+◌, ◌-◌, ◌*◌, ◌/◌, ◌%◌, ◌^◌, Bool, true, false, not, ◌||◌, Option, none, some,
  List, [], ◌∷◌, ◌++◌, Text, length, same, drop, byte_len, trim_space, to_upper, opt_map, ◌==◌,
  if◌then◌else◌,
}
use dcalcon.Decimal.{format_int}
use dcalcon.Decimal.Width.{power_of_ten}

abbrev pub period : ℕ
period = 30

abbrev pub number_of_digits : ℕ
number_of_digits = 6

-- sum[i]; the sums of SHA-1 have 20 bytes, which covers each i that is read.
abbrev pub byte_at : List ℕ → ℕ → ℕ
byte_at [] i = 0
byte_at (b ∷ bytes) zero = b
byte_at (b ∷ bytes) (suc i) = byte_at bytes i

-- binary.BigEndian.PutUint64
unfoldable pub put_uint64 : ℕ → List ℕ
put_uint64 n =
    n / 2 ^ 56 % 256
    ∷ n / 2 ^ 48 % 256
    ∷ n / 2 ^ 40 % 256
    ∷ n / 2 ^ 32 % 256
    ∷ n / 2 ^ 24 % 256
    ∷ n / 2 ^ 16 % 256
    ∷ n / 2 ^ 8 % 256
    ∷ n % 256
    ∷ []

abbrev pub zeros : ℕ → Text
zeros zero = []
zeros (suc n) = b'0' ∷ zeros n

-- fmt.Sprintf("%0*d", width, n)
unfoldable pub pad : ℕ → ℕ → Text
pad width n = let s = format_int n in zeros (width - length s) ++ s

-- The number that is read from the sum: four bytes, the first without its highest bit.
unfoldable pub truncated : List ℕ → ℕ
truncated sum =
    let off = byte_at sum (length sum - 1) % 16 in
    byte_at sum off % 128 * 2 ^ 24
    + byte_at sum (off + 1) * 2 ^ 16
    + byte_at sum (off + 2) * 2 ^ 8
    + byte_at sum (off + 3)

-- err == nil && hmac.Equal(want, code)
abbrev pub is_wanted : Text → Option Text → Bool
is_wanted code none = false
is_wanted code (some want) = same want code

module _ (table : ℕ → ℕ) (decode : Text → Option (List ℕ)) (hmac : List ℕ → List ℕ → List ℕ) where
  -- generateAt, of a counter that is already a uint64.
  unfoldable pub generate_at : Text → ℕ → Option Text
  unfolding put_uint64 truncated pad
  generate_at secret counter =
      opt_map
        (λ (key : List ℕ).
          pad number_of_digits
            (truncated (hmac key (put_uint64 counter)) % power_of_ten number_of_digits))
        (decode (to_upper table (trim_space secret)))

  -- Valid; the counter before the first is -1, which is 2 ^ 64 - 1 as a uint64.
  unfoldable pub valid : ℕ → Text → Text → Bool
  unfolding generate_at
  valid now code secret =
      let t = trim_space code in
      let step = now / period in
      if not (byte_len t == number_of_digits)
      then false
      else is_wanted t (generate_at secret ((step + (2 ^ 64 - 1)) % 2 ^ 64))
        || (is_wanted t (generate_at secret (step % 2 ^ 64))
            || is_wanted t (generate_at secret ((step + 1) % 2 ^ 64)))

  -- Code, at a time that is not zero.
  unfoldable pub code : Text → ℕ → Option Text
  unfolding generate_at
  code secret at = generate_at secret (at / period)
