-- ===== src/Base/Strings.antt =====
-- Text as the list of its code points, and the functions of Go's package strings that the
-- program calls. Text that is not valid UTF-8 is outside the model.
use Prim.Native.Nat.{ℕ, ◌+◌, ◌-◌}
use Prim.Native.Char.{code}
use Prim.Native.String.{String}
use mathlib.Core.Path.{◌≡◌, refl}
use mathlib.Core.Logic.{◌↔◌}
use mathlib.Core.Bool.{Bool, true, false, ◌&&◌, ◌||◌}
use mathlib.Core.List.{List, [], ◌∷◌, ◌++◌, map}
use mathlib.Core.Option.{Option, none, some}
use native.Mathlib.Omega.{arith}
use dcalcon.Base.Tests.{ltb, leb, ◌==◌, if◌then◌else◌}

abbrev pub Text : Type 0
Text = List ℕ

-- The code points of a literal.
abbrev pub codes : String → Text
codes String.[] = []
codes (String.◌∷◌ c s) = code c ∷ codes s

-- s == t
unfoldable pub same : Text → Text → Bool
same [] [] = true
same [] (d ∷ t) = false
same (c ∷ s) [] = false
same (c ∷ s) (d ∷ t) = c == d && same s t

pub same_refl : (s : Text) → same s s ≡ true
unfolding same
same_refl [] = refl
same_refl (c ∷ s) = ground (arith, same_refl s)

pub eq_of_same : (s t : Text) → same s t ≡ true → s ≡ t
unfolding same
eq_of_same [] [] h = refl
eq_of_same [] (d ∷ t) h = cc
eq_of_same (c ∷ s) [] h = cc
eq_of_same (c ∷ s) (d ∷ t) h = ground (arith, eq_of_same s t)

pub same_of_eq : (s t : Text) → s ≡ t → same s t ≡ true
same_of_eq s t e = rw e (same_refl t)

pub same_iff : (s t : Text) → (same s t ≡ true) ↔ (s ≡ t)
same_iff s t = (eq_of_same s t, same_of_eq s t)

-- The number of bytes in UTF-8: what Go's `len` returns.
unfoldable pub rune_len : ℕ → ℕ
rune_len c = if ltb c 0x80 then 1 else if ltb c 0x800 then 2 else if ltb c 0x10000 then 3 else 4

unfoldable pub byte_len : Text → ℕ
unfolding rune_len
byte_len [] = 0
byte_len (c ∷ s) = rune_len c + byte_len s

-- unicode.IsSpace
unfoldable pub is_space : ℕ → Bool
is_space c =
    (leb 9 c && leb c 13)
    || c == 0x20
    || c == 0x85
    || c == 0xa0
    || c == 0x1680
    || (leb 0x2000 c && leb c 0x200a)
    || c == 0x2028
    || c == 0x2029
    || c == 0x202f
    || c == 0x205f
    || c == 0x3000

-- strings.TrimLeft and strings.TrimRight, with the cut set as a test.
unfoldable pub trim_left : (ℕ → Bool) → Text → Text
trim_left p [] = []
trim_left p (c ∷ s) = if p c then trim_left p s else c ∷ s

-- The text without its trailing characters that pass the test: a character stays if it fails the
-- test or something behind it stays.
unfoldable pub keep_before : (ℕ → Bool) → ℕ → Text → Text
keep_before p c [] = if p c then [] else c ∷ []
keep_before p c (d ∷ s) = c ∷ d ∷ s

unfoldable pub trim_right : (ℕ → Bool) → Text → Text
unfolding keep_before
trim_right p [] = []
trim_right p (c ∷ s) = keep_before p c (trim_right p s)

unfoldable pub trim : (ℕ → Bool) → Text → Text
unfolding trim_left trim_right
trim p s = trim_right p (trim_left p s)

-- strings.TrimSpace
unfoldable pub trim_space : Text → Text
unfolding trim is_space
trim_space s = trim is_space s

-- strings.HasPrefix
unfoldable pub has_prefix : Text → Text → Bool
has_prefix s [] = true
has_prefix [] (d ∷ p) = false
has_prefix (c ∷ s) (d ∷ p) = c == d && has_prefix s p

-- strings.TrimPrefix
unfoldable pub strip : Text → Text → Option Text
strip s [] = some s
strip [] (d ∷ p) = none
strip (c ∷ s) (d ∷ p) = if c == d then strip s p else none

unfoldable pub or_else : Option Text → Text → Text
or_else none s = s
or_else (some t) s = t

unfoldable pub trim_prefix : Text → Text → Text
unfolding strip or_else
trim_prefix s p = or_else (strip s p) s

-- The part of a text before the first separator, which is all of it if there is none:
-- the first result of strings.Cut.
unfoldable pub before : ℕ → Text → Text
before sep [] = []
before sep (c ∷ s) = if c == sep then [] else c ∷ before sep s

-- strings.Contains
unfoldable pub contains : Text → Text → Bool
unfolding has_prefix
contains [] p = has_prefix [] p
contains (c ∷ s) p = has_prefix (c ∷ s) p || contains s p

unfoldable pub contains_rune : Text → ℕ → Bool
contains_rune [] x = false
contains_rune (c ∷ s) x = c == x || contains_rune s x

-- strings.ReplaceAll of one character.
unfoldable pub replace_rune : ℕ → Text → Text → Text
replace_rune x r [] = []
replace_rune x r (c ∷ s) = if c == x then r ++ replace_rune x r s else c ∷ replace_rune x r s

-- strings.ToLower and strings.ToUpper: ASCII is written out, and the rest of Unicode's case
-- mapping is an argument.
unfoldable pub lower_rune : (ℕ → ℕ) → ℕ → ℕ
lower_rune table c =
    if ltb c 0x80 then (if leb b'A' c && leb c b'Z' then c + 32 else c) else table c

unfoldable pub upper_rune : (ℕ → ℕ) → ℕ → ℕ
upper_rune table c =
    if ltb c 0x80 then (if leb b'a' c && leb c b'z' then c - 32 else c) else table c

unfoldable pub to_lower : (ℕ → ℕ) → Text → Text
unfolding lower_rune
to_lower table = map (lower_rune table)

unfoldable pub to_upper : (ℕ → ℕ) → Text → Text
unfolding upper_rune
to_upper table = map (upper_rune table)

-- The order of SQLite's BINARY collation: by code point, which is by byte of UTF-8.
unfoldable pub text_leb : Text → Text → Bool
text_leb [] t = true
text_leb (c ∷ s) [] = false
text_leb (c ∷ s) (d ∷ t) = if ltb c d then true else if ltb d c then false else text_leb s t

-- SQLite's NOCASE folds ASCII alone.
unfoldable pub nocase : Text → Text
unfolding lower_rune
nocase = map (lower_rune (λ c. c))

-- strings.EqualFold; `folding` maps a character outside ASCII to the representative of its case orbit.
unfoldable pub equal_fold : (ℕ → ℕ) → Text → Text → Bool
unfolding to_lower
equal_fold folding s t = same (to_lower folding s) (to_lower folding t)

-- strings.TrimSuffix of one character.
unfoldable pub trim_suffix_rune : ℕ → Text → Text
trim_suffix_rune x [] = []
trim_suffix_rune x (c ∷ []) = if c == x then [] else c ∷ []
trim_suffix_rune x (c ∷ d ∷ s) = c ∷ trim_suffix_rune x (d ∷ s)

unfoldable pub cons_head : ℕ → List Text → List Text
cons_head c [] = (c ∷ []) ∷ []
cons_head c (p ∷ ps) = (c ∷ p) ∷ ps

-- strings.Split at one character.
unfoldable pub split : ℕ → Text → List Text
unfolding cons_head
split sep [] = [] ∷ []
split sep (c ∷ s) = let rest = split sep s in if c == sep then [] ∷ rest else cons_head c rest
