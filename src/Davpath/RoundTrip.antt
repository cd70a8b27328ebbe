-- ===== src/Davpath/RoundTrip.antt =====
-- The paths of src/svc/internal/davpath/paths.go, built and taken apart.
use dcalcon.Base.{
  true, false, [], ◌∷◌, ◌++◌, append_assoc, Text, ◌≡◌, refl, arith, trim, trim_left, trim_right,
  has_prefix-append, trim_prefix-append, before, none_pass, all,
}
use dcalcon.Davpath.{
  is_slash, slash, calendar_home, address_book_home, calendar_path, address_book_path, object_path,
  slug_under, calendar_slug, address_book_slug, object_href, first_is,
}

pub before-append : (s t : Text) → none_pass is_slash s ≡ true → before b'/' (s ++ b'/' ∷ t) ≡ s
unfolding before all
before-append [] t h = ground arith
before-append (c ∷ s) t h = ground (arith, before-append s t)

before_id : (s : Text) → none_pass is_slash s ≡ true → before b'/' s ≡ s
unfolding before all
before_id [] h = refl
before_id (c ∷ s) h = ground (arith, before_id s)

pub trim_right-slash :
    (s : Text) → none_pass is_slash s ≡ true → trim_right is_slash (s ++ slash) ≡ s
unfolding trim_right all
trim_right-slash [] h = ground arith
trim_right-slash (c ∷ s) h = ground (arith, trim_right-slash s)

trim_slug : (s : Text) → none_pass is_slash s ≡ true → trim is_slash (s ++ slash) ≡ s
unfolding trim trim_left all
trim_slug [] h = unfold trim_right in ground arith
trim_slug (c ∷ s) h = ground (arith, trim_right-slash (c ∷ s))

slug_under-home :
    (home slug : Text)
    → none_pass is_slash slug ≡ true
    → slug_under home (home ++ (slug ++ slash)) ≡ slug
unfolding slug_under
slug_under-home home slug h =
    rw
      (
        has_prefix-append home (slug ++ slash),
        trim_prefix-append home (slug ++ slash),
        trim_slug slug h,
      )
      (before_id slug h)

-- The slug of a calendar's path is the slug it was built from, if that holds no slash; so for an
-- address book's.
pub calendar_slug-calendar_path :
    (username slug : Text)
    → none_pass is_slash slug ≡ true
    → (calendar_slug (calendar_path username slug) username ≡ slug)
      × (address_book_slug (address_book_path username slug) username ≡ slug)
unfolding calendar_slug calendar_path address_book_slug address_book_path
calendar_slug-calendar_path username slug h = (
  slug_under-home (calendar_home username) slug h,
  slug_under-home (address_book_home username) slug h,
)

-- A text that does not begin with a slash is not trimmed on the left.
pub trim_left-first : (s : Text) → first_is is_slash s ≡ false → trim_left is_slash s ≡ s
unfolding trim_left
trim_left-first [] h = refl
trim_left-first (c ∷ s) h = ground arith

-- The href of an object's path is the href it was built from, whatever the collection's path, if
-- the href does not begin with a slash.
pub object_href-object_path :
    (collection_path href : Text)
    → first_is is_slash href ≡ false
    → object_href (object_path collection_path href) collection_path ≡ href
unfolding object_href object_path
object_href-object_path collection_path href h =
    rw (trim_left-first href h, ← append_assoc (trim_right is_slash collection_path) slash href)
      (trim_prefix-append (trim_right is_slash collection_path ++ slash) href)
