-- ===== src/Otp/Window.antt =====
-- When Valid of src/svc/internal/otp/otp.go accepts a code that Code made.
use dcalcon.Base.{
  ℕ, ◌+◌, ◌-◌, ◌/◌, ◌%◌, ◌^◌, ◌<◌, Bool, true, ◌||◌, Option, some, List, [], ◌∷◌, Text, length, all,
  byte_len, rune_len, same_refl, trim_space, trim_space_id, ◌≡◌, refl, ◌∙◌, arith, ◌⊎◌, inl, inr,
}
use dcalcon.Decimal.RoundTrip.{is_digit, spaceless-digits}
use dcalcon.Otp.{period, number_of_digits, is_wanted, generate_at, valid, code}
use dcalcon.Otp.Codes.{generate_at-digits}

byte_len-digits : (s : Text) → all is_digit s ≡ true → byte_len s ≡ length s
unfolding byte_len rune_len all
byte_len-digits [] h = refl
byte_len-digits (c ∷ s) h = ground (arith, byte_len-digits s)

module _ (table : ℕ → ℕ) (decode : Text → Option (List ℕ)) (hmac : List ℕ → List ℕ → List ℕ)
    (secret c : Text) (now : ℕ) where
  -- Valid on a text that is a code.
  tried : Bool
  tried =
      is_wanted c (generate_at table decode hmac secret ((now / period + (2 ^ 64 - 1)) % 2 ^ 64))
      || (is_wanted c (generate_at table decode hmac secret (now / period % 2 ^ 64))
          || is_wanted c (generate_at table decode hmac secret ((now / period + 1) % 2 ^ 64)))

  valid-tried :
      length c ≡ number_of_digits
      → all is_digit c ≡ true
      → valid table decode hmac now c secret ≡ tried
  unfolding valid tried
  valid-tried l d =
      let whole : trim_space c ≡ c = trim_space_id c (spaceless-digits c d) in
      let bytes : byte_len c ≡ 6 = byte_len-digits c d ∙ l in rw (whole, bytes) refl

  found :
      (counter : ℕ) (k : ℕ)
      → k ≡ counter
      → generate_at table decode hmac secret counter ≡ some c
      → is_wanted c (generate_at table decode hmac secret k) ≡ true
  found counter k e g = rw (e, g) (same_refl c)

  tried-near :
      (at : ℕ)
      → now < 2 ^ 63
      → (at / period ≡ now / period)
        ⊎ ((at / period + 1 ≡ now / period) ⊎ (at / period ≡ now / period + 1))
      → generate_at table decode hmac secret (at / period) ≡ some c
      → tried ≡ true
  unfolding tried
  tried-near at early (inl e) g =
      let h = found (at / period) (now / period % 2 ^ 64) (omega (arith, early, e)) g in
      ground (arith, h)
  tried-near at early (inr (inl e)) g =
      let h =
        found (at / period) ((now / period + (2 ^ 64 - 1)) % 2 ^ 64) (omega (arith, early, e)) g in
      ground (arith, h)
  tried-near at early (inr (inr e)) g =
      let h = found (at / period) ((now / period + 1) % 2 ^ 64) (omega (arith, early, e)) g in
      ground (arith, h)

-- A code that is made at a time is valid throughout its period, the one before and the one after.
pub valid-code :
    (table : ℕ → ℕ) (decode : Text → Option (List ℕ)) (hmac : List ℕ → List ℕ → List ℕ)
    (secret c : Text) (at now : ℕ)
    → code table decode hmac secret at ≡ some c
    → now < 2 ^ 63
    → (at / period ≡ now / period)
      ⊎ ((at / period + 1 ≡ now / period) ⊎ (at / period ≡ now / period + 1))
    → valid table decode hmac now c secret ≡ true
unfolding code
valid-code table decode hmac secret c at now made early near =
    let (l, d) = generate_at-digits table decode hmac secret c (at / period) made in
    valid-tried table decode hmac secret c now l d
    ∙ tried-near table decode hmac secret c now at early near made
