-- ===== src/Decimal/Width.antt =====
-- How many digits strconv.FormatInt writes.
use dcalcon.Base.{
  ℕ, zero, suc, ◌+◌, ◌*◌, ◌/◌, ◌%◌, ◌≤◌, ◌<◌, [], ◌∷◌, Text, length, ltb, arith, Bool-cases, inl,
  inr,
}
use dcalcon.Decimal.{digits, format_int}

abbrev pub power_of_ten : ℕ → ℕ
power_of_ten zero = 1
power_of_ten (suc i) = power_of_ten i * 10

length-digits :
    (f n k : ℕ) (out : Text)
    → n < f
    → n < power_of_ten (suc k)
    → length (digits f n out) ≤ suc k + length out
unfolding digits
length-digits zero n k out h b = absurd (omega arith)
length-digits (suc f) n zero out h b = ground arith
length-digits (suc f) n (suc k) out h b = elim (Bool-cases (ltb n 10)) [
  | inl few ↦ rw few (omega arith)
  | inr many ↦
      let rest =
        length-digits f (n / 10) k ((b'0' + n % 10) ∷ out) (ground arith) (omega (arith, b)) in
      rw many (omega (arith, rest))
]

-- A number below a power of ten has at most as many digits as the exponent.
pub length-format_int : (n k : ℕ) → n < power_of_ten (suc k) → length (format_int n) ≤ suc k
unfolding format_int
length-format_int n k b = let h = length-digits (suc n) n k [] (omega arith) b in omega (arith, h)
