-- ===== src/Storage/Dates/Alarms.antt =====
-- The list of alarms that quoteJoin of src/svc/internal/storage/users.go writes and
-- parseJSONStringSlice reads.
use dcalcon.Base.{
  ℕ, Bool, true, false, not, ◌&&◌, List, [], ◌∷◌, ◌++◌, Text, codes, same, all, is_space,
  keep_before, trim, trim_left, trim_right, trim_space, none_pass, trim_right_id, trim_prefix,
  trim_suffix_rune, replace_rune, contains_rune, split, cons_head, map, ◌==◌, ==_refl,
  if◌then◌else◌, ◌≡◌, refl, ap, ◌∙◌, arith, Bool-cases, inl, inr,
}
use dcalcon.Storage.Dates.{quoted, join, gather_parts, parse_json_string_slice, alarms_json}

-- An alarm that is not empty and holds neither a quote nor a comma.
unfoldable pub is_plain : Text → Bool
is_plain s = not (same s []) && (not (contains_rune s b'"') && not (contains_rune s b','))

replace-absent : (x : ℕ) (s : Text) → contains_rune s x ≡ false → replace_rune x [] s ≡ s
unfolding replace_rune contains_rune
replace-absent x [] h = refl
replace-absent x (c ∷ s) h = ground (arith, replace-absent x s)

-- The last character is trimmed, or keeps the text as it is.
trim_right-last :
    (p : ℕ → Bool) (s : Text) (c : ℕ)
    → trim_right p (s ++ c ∷ []) ≡ (if p c then trim_right p s else s ++ c ∷ [])
unfolding trim_right keep_before
trim_right-last p [] c = ground arith
trim_right-last p (d ∷ s) c = elim (Bool-cases (p c)) [
  | inl out ↦ rw (trim_right-last p s c, out) refl
  | inr stays ↦ rw (trim_right-last p s c, stays) (kept s)
]
  where
    kept : (t : Text) → keep_before p d (t ++ c ∷ []) ≡ d ∷ t ++ c ∷ []
    kept [] = refl
    kept (e ∷ t) = refl

not_quote : (s : Text) → contains_rune s b'"' ≡ false → none_pass (λ c. c == b'"') s ≡ true
unfolding contains_rune all
not_quote [] h = refl
not_quote (c ∷ s) h = ground (arith, not_quote s)

-- A closing quote is trimmed.
unclosed :
    (s : Text)
    → contains_rune s b'"' ≡ false
    → trim_right (λ c. c == b'"') (trim_left (λ c. c == b'"') (s ++ b'"' ∷ [])) ≡ s
unfolding contains_rune trim_left
unclosed [] h = unfold trim_right in refl
unclosed (c ∷ s) h =
    let other : (c == b'"') ≡ false = ground arith in
    rw (other, trim_right-last (λ d. d == b'"') (c ∷ s) b'"')
      (trim_right_id (λ d. d == b'"') (c ∷ s) (not_quote (c ∷ s) h))

-- A quoted alarm is unquoted.
unquote :
    (s : Text)
    → contains_rune s b'"' ≡ false
    → trim (λ c. c == b'"') (trim_space (b'"' ∷ s ++ b'"' ∷ [])) ≡ s
unfolding trim trim_space trim_left is_space
unquote s h = rw (trim_right-last is_space (b'"' ∷ s) b'"') (unclosed s h)

split-part :
    (sep : ℕ) (s rest : Text)
    → contains_rune s sep ≡ false
    → split sep (s ++ sep ∷ rest) ≡ s ∷ split sep rest
unfolding split cons_head contains_rune
split-part sep [] rest h = ground arith
split-part sep (c ∷ s) rest h =
    let other : (c == sep) ≡ false = ground arith in
    rw (other, split-part sep s rest (ground arith)) refl

split-whole : (sep : ℕ) (s : Text) → contains_rune s sep ≡ false → split sep s ≡ s ∷ []
unfolding split cons_head contains_rune
split-whole sep [] h = refl
split-whole sep (c ∷ s) h = ground (arith, split-whole sep s)

no_comma :
    (s : Text) → contains_rune s b',' ≡ false → contains_rune (b'"' ∷ s ++ b'"' ∷ []) b',' ≡ false
unfolding contains_rune
no_comma [] h = refl
no_comma (c ∷ s) h = ground (arith, no_comma s)

bare : (s : Text) → is_plain s ≡ true → replace_rune b'"' [] s ≡ s
unfolding is_plain
bare s h = replace-absent b'"' s (ground arith)

gather-quoted :
    (s : Text) (parts : List Text)
    → is_plain s ≡ true
    → gather_parts ((b'"' ∷ s ++ b'"' ∷ []) ∷ parts) ≡ s ∷ gather_parts parts
unfolding gather_parts is_plain
gather-quoted s parts h =
    let given : same s [] ≡ false = ground arith in rw (unquote s (ground arith), given) refl

-- The parts of the joined list.
gather-join :
    (s : Text) (ss : List Text)
    → all is_plain (s ∷ ss) ≡ true
    → gather_parts (split b',' (join (map quoted (s ∷ ss)))) ≡ s ∷ ss
unfolding join all
gather-join s [] h =
    let plain : is_plain s ≡ true = ground arith in
    let free : contains_rune (b'"' ∷ s ++ b'"' ∷ []) b',' ≡ false =
      no_comma s (unfold is_plain in ground arith) in
    rw (bare s plain, split-whole b',' (b'"' ∷ s ++ b'"' ∷ []) free)
      (gather-quoted s [] plain ∙ unfold gather_parts in refl)
gather-join s (t ∷ ss) h =
    let plain : is_plain s ≡ true = ground arith in
    let free : contains_rune (b'"' ∷ s ++ b'"' ∷ []) b',' ≡ false =
      no_comma s (unfold is_plain in ground arith) in
    rw (bare s plain, split-part b',' (b'"' ∷ s ++ b'"' ∷ []) (join (map quoted (t ∷ ss))) free)
      (gather-quoted s _ plain ∙ ap (λ r. s ∷ r) (gather-join t ss (ground arith)))

trim_suffix_last : (x : ℕ) (s : Text) → trim_suffix_rune x (s ++ x ∷ []) ≡ s
unfolding trim_suffix_rune
trim_suffix_last x [] = rw (==_refl x) refl
trim_suffix_last x (c ∷ []) = rw (==_refl x) refl
trim_suffix_last x (c ∷ d ∷ s) = ap (λ t. c ∷ t) (trim_suffix_last x (d ∷ s))

quote_stays : (t : Text) → same (keep_before is_space b'"' t) [] ≡ false
unfolding keep_before is_space same
quote_stays [] = refl
quote_stays (c ∷ t) = refl

-- A text that begins with a quote is not blank.
not_blank : (s : Text) → same (trim_space (b'"' ∷ s)) [] ≡ false
unfolding trim_space trim trim_left trim_right is_space
not_blank s = quote_stays (trim_right is_space s)

not_blank-join :
    (s : Text) (ss : List Text) → same (trim_space (join (map quoted (s ∷ ss)))) [] ≡ false
unfolding join
not_blank-join s [] = not_blank (replace_rune b'"' [] s ++ b'"' ∷ [])
not_blank-join s (t ∷ ss) =
    not_blank ((replace_rune b'"' [] s ++ b'"' ∷ []) ++ b',' ∷ join (map quoted (t ∷ ss)))

-- A list of plain alarms that is not empty is read back from what is stored.
pub parse_json_string_slice-alarms_json :
    (s : Text) (ss : List Text)
    → all is_plain (s ∷ ss) ≡ true
    → parse_json_string_slice (alarms_json (s ∷ ss)) ≡ s ∷ ss
unfolding parse_json_string_slice alarms_json
parse_json_string_slice-alarms_json s ss h =
    let listed = join (map quoted (s ∷ ss)) in
    let whole : trim_space (b'[' ∷ listed ++ b']' ∷ []) ≡ b'[' ∷ listed ++ b']' ∷ [] =
      unfold trim_space trim trim_left is_space in trim_right-last is_space (b'[' ∷ listed) b']' in
    let inner : trim_suffix_rune b']' (trim_prefix (b'[' ∷ listed ++ b']' ∷ []) (codes "["))
        ≡ listed =
      unfold trim_prefix in trim_suffix_last b']' listed in
    rw (whole, inner, not_blank-join s ss) (gather-join s ss h)
