-- ===== src/Davpath/Hrefs.antt =====
-- The names that CheckObjectHref of src/svc/internal/davpath/paths.go accepts, and the paths made of
-- them.
use dcalcon.Base.{
  ℕ, Bool, true, false, not, ◌||◌, [], ◌∷◌, ◌++◌, append_assoc, Text, codes, ◌≡◌, refl, sym, ◌∙◌,
  arith, same, trim_space, trim, trim_right, keep_before, has_prefix-append, trim_prefix-append,
  contains, contains_rune, to_lower, none_pass, all, same_iff,
}
use dcalcon.Davpath.{
  is_slash, slash, calendar_home, calendar_path, object_path, slug_under, calendar_slug,
  object_href, path_base, check_object_href, first_is,
}
use dcalcon.Davpath.RoundTrip.{
  before-append, trim_left-first, trim_right-slash, object_href-object_path,
}

none_pass-slash : (s : Text) → contains_rune s b'/' ≡ false → none_pass is_slash s ≡ true
unfolding contains_rune all
none_pass-slash [] h = refl
none_pass-slash (c ∷ s) h = ground (arith, none_pass-slash s)

trim_right-slashless : (s : Text) → contains_rune s b'/' ≡ false → trim_right is_slash s ≡ s
unfolding trim_right contains_rune
trim_right-slashless [] h = refl
trim_right-slashless (c ∷ []) h = ground arith
trim_right-slashless (c ∷ d ∷ s) h =
    let rest : trim_right is_slash (d ∷ s) ≡ d ∷ s = trim_right-slashless (d ∷ s) (ground arith) in
    rw rest

-- A text with no slash is its own base name.
path_base_id : (s : Text) → same s [] ≡ false → contains_rune s b'/' ≡ false → path_base s ≡ s
unfolding path_base same
path_base_id [] e h = cc
path_base_id (c ∷ s) e h = rw (trim_right-slashless (c ∷ s) h, h)

-- The forms that CheckObjectHref refuses, read off the trimmed href.
unfoldable pub is_refused : (ℕ → ℕ) → Text → Bool
is_refused table href =
    same href []
    || same href (codes ".")
    || same href (codes "..")
    || contains_rune href b'/'
    || contains_rune href b'\\'
    || contains (to_lower table href) (codes "%2f")
    || contains (to_lower table href) (codes "%5c")
    || contains (to_lower table href) (codes "%2e%2e")

-- CheckObjectHref refuses exactly the empty name, ".", "..", names with a slash or a backslash, and
-- names with "%2f", "%5c" or "%2e%2e" in either case: its last test, of path.Base, refuses nothing
-- more.
pub check_object_href-eq-not :
    (table : ℕ → ℕ) (raw : Text)
    → check_object_href table raw ≡ not (is_refused table (trim_space raw))
unfolding check_object_href is_refused
check_object_href-eq-not table raw =
    let href = trim_space raw in ground (arith, path_base_id href, same_iff (path_base href) href)

keep_before-ne : (c : ℕ) (u : Text) → same u [] ≡ false → keep_before is_slash c u ≡ c ∷ u
unfolding keep_before same
keep_before-ne c [] h = cc
keep_before-ne c (d ∷ u) h = refl

append-ne : (s u : Text) → same u [] ≡ false → same (s ++ u) [] ≡ false
unfolding same
append-ne [] u h = h
append-ne (c ∷ s) u h = refl

trim_right-append :
    (s t : Text)
    → same (trim_right is_slash t) [] ≡ false
    → trim_right is_slash (s ++ t) ≡ s ++ trim_right is_slash t
unfolding trim_right
trim_right-append [] t h = refl
trim_right-append (c ∷ s) t h = rw (trim_right-append s t h) (keep_before-ne c _ (append-ne s _ h))

cons-slash :
    (href : Text)
    → contains_rune href b'/' ≡ false
    → same href [] ≡ false
    → trim_right is_slash (b'/' ∷ href) ≡ b'/' ∷ href
unfolding trim_right
cons-slash href h e = rw (trim_right-slashless href h) (keep_before-ne b'/' href e)

first_slash : (s : Text) → contains_rune s b'/' ≡ false → first_is is_slash s ≡ false
unfolding contains_rune
first_slash [] h = refl
first_slash (c ∷ s) h = ground arith

first-append : (s t : Text) → same s [] ≡ false → first_is is_slash (s ++ t) ≡ first_is is_slash s
unfolding same
first-append [] t h = cc
first-append (c ∷ s) t h = refl

module _ (slug href : Text) (named : same slug [] ≡ false) (plain : contains_rune slug b'/' ≡ false)
    (there : same href [] ≡ false) (flat : contains_rune href b'/' ≡ false) where
  member_path :
      (home : Text) → object_path (home ++ (slug ++ slash)) href ≡ home ++ (slug ++ b'/' ∷ href)
  unfolding object_path
  member_path home =
      let stays = trim_right-slash slug (none_pass-slash slug plain) in
      rw
        (
          trim_right-append home (slug ++ slash) (rw stays named),
          stays,
          trim_left-first href (first_slash href flat),
        )
        (append_assoc home slug (b'/' ∷ href))

  slug_under-member : (home : Text) → slug_under home (home ++ (slug ++ b'/' ∷ href)) ≡ slug
  unfolding slug_under trim
  slug_under-member home =
      let rest = slug ++ b'/' ∷ href in
      rw
        (
          has_prefix-append home rest,
          trim_prefix-append home rest,
          trim_left-first rest (first-append slug _ named ∙ first_slash slug plain),
          trim_right-append slug (b'/' ∷ href)
              (rw (cons-slash href flat there) (unfold same in refl)),
          cons-slash href flat there,
        )
        (before-append slug href (none_pass-slash slug plain))

accepted :
    (table : ℕ → ℕ) (href : Text)
    → trim_space href ≡ href
    → check_object_href table href ≡ true
    → (same href [] ≡ false) × (contains_rune href b'/' ≡ false)
accepted table href tidy ok =
    let plain : not (is_refused table href) ≡ true =
      rw (← tidy) (sym (check_object_href-eq-not table href) ∙ ok) in
    unfold is_refused in ground arith

-- An href with no outer white space that CheckObjectHref accepts names a member of a calendar whose
-- slug is not empty and has no slash: from the object's path the slug and the href are read back.
pub accepted_member :
    (table : ℕ → ℕ) (username slug href : Text)
    → same slug [] ≡ false
    → contains_rune slug b'/' ≡ false
    → trim_space href ≡ href
    → check_object_href table href ≡ true
    → (calendar_slug (object_path (calendar_path username slug) href) username ≡ slug)
      × (object_href (object_path (calendar_path username slug) href) (calendar_path username slug)
          ≡ href)
unfolding calendar_slug calendar_path
accepted_member table username slug href named plain tidy ok =
    let (there, flat) = accepted table href tidy ok in
    (
      rw (member_path slug href named plain there flat (calendar_home username))
          (slug_under-member slug href named plain there flat (calendar_home username)),
      object_href-object_path (calendar_path username slug) href (first_slash href flat),
    )
