-- ===== src/Base/TextLaws.antt =====
-- Laws of the text functions.
use mathlib.Core.Path.{◌≡◌, refl}
use mathlib.Core.Bool.{Bool, true, not}
use mathlib.Core.List.{[], ◌∷◌, ◌++◌}
use mathlib.Core.Option.{some}
use native.Mathlib.Omega.{arith}
use Prim.Native.Nat.{ℕ}
use dcalcon.Base.Lists.{all}
use dcalcon.Base.Strings.{
  Text, is_space, trim_left, trim_right, trim, trim_space, has_prefix, strip, trim_prefix,
}

pub has_prefix-append : (p s : Text) → has_prefix (p ++ s) p ≡ true
unfolding has_prefix
has_prefix-append [] [] = refl
has_prefix-append [] (c ∷ s) = refl
has_prefix-append (d ∷ p) s = ground (arith, has_prefix-append p s)

strip-append : (p s : Text) → strip (p ++ s) p ≡ some s
unfolding strip
strip-append [] [] = refl
strip-append [] (c ∷ s) = refl
strip-append (d ∷ p) s = ground (arith, strip-append p s)

pub trim_prefix-append : (p s : Text) → trim_prefix (p ++ s) p ≡ s
unfolding trim_prefix
trim_prefix-append p s = rw (strip-append p s)

-- A text in which no character passes the test is not trimmed.
abbrev pub none_pass : (ℕ → Bool) → Text → Bool
none_pass p s = all (λ c. not (p c)) s

pub trim_left_id : (p : ℕ → Bool) (s : Text) → none_pass p s ≡ true → trim_left p s ≡ s
unfolding trim_left all
trim_left_id p [] h = refl
trim_left_id p (c ∷ s) h = ground arith

pub trim_right_id : (p : ℕ → Bool) (s : Text) → none_pass p s ≡ true → trim_right p s ≡ s
unfolding trim_right all
trim_right_id p [] h = refl
trim_right_id p (c ∷ []) h = ground arith
trim_right_id p (c ∷ d ∷ s) h =
    let tail : trim_right p (d ∷ s) ≡ d ∷ s = trim_right_id p (d ∷ s) (ground arith) in rw tail

pub trim_id : (p : ℕ → Bool) (s : Text) → none_pass p s ≡ true → trim p s ≡ s
unfolding trim
trim_id p s h = rw (trim_left_id p s h) (trim_right_id p s h)

pub trim_space_id : (s : Text) → none_pass is_space s ≡ true → trim_space s ≡ s
unfolding trim_space
trim_space_id s h = trim_id is_space s h
