-- ===== src/Davpath.antt =====
-- src/svc/internal/davpath/paths.go: the paths of principals, collections and objects, and slugs.
-- `table` is Unicode's case mapping outside ASCII.
pub mod RoundTrip
pub mod Hrefs
use dcalcon.Base.{
  ℕ, zero, suc, ◌+◌, ◌-◌, Bool, true, false, not, ◌&&◌, ◌||◌, Option, none, some, List, [], ◌∷◌,
  ◌++◌, Text, codes, same, byte_len, is_space, trim_space, trim, trim_left, trim_right, has_prefix,
  trim_prefix, before, contains, contains_rune, to_lower, take, all, replace_rune, ltb, leb, ◌==◌,
  if◌then◌else◌, ◌≡◌, refl,
}

abbrev pub is_slash : ℕ → Bool
is_slash c = c == b'/'

abbrev pub slash : Text
slash = b'/' ∷ []

abbrev pub principals_root : Text
principals_root = codes "/dav/principals/"

abbrev pub calendars_root : Text
calendars_root = codes "/dav/calendars/"

abbrev pub address_books_root : Text
address_books_root = codes "/dav/addressbooks/"

-- PrincipalPath
unfoldable pub principal_path : Text → Text
principal_path username = principals_root ++ (username ++ slash)

-- CalendarHome
unfoldable pub calendar_home : Text → Text
calendar_home username = calendars_root ++ (username ++ slash)

-- AddressBookHome
unfoldable pub address_book_home : Text → Text
address_book_home username = address_books_root ++ (username ++ slash)

-- CalendarPath
unfoldable pub calendar_path : Text → Text → Text
calendar_path username slug = calendar_home username ++ (slug ++ slash)

-- AddressBookPath
unfoldable pub address_book_path : Text → Text → Text
address_book_path username slug = address_book_home username ++ (slug ++ slash)

-- ObjectPath
unfoldable pub object_path : Text → Text → Text
object_path collection_path href =
    trim_right is_slash collection_path ++ b'/' ∷ trim_left is_slash href

-- The slug that follows a home: CalendarSlug and AddressBookSlug differ in the home alone.
unfoldable pub slug_under : Text → Text → Text
slug_under home path =
    if not (has_prefix path home) then [] else before b'/' (trim is_slash (trim_prefix path home))

-- CalendarSlug
unfoldable pub calendar_slug : Text → Text → Text
unfolding slug_under
calendar_slug path username = slug_under (calendar_home username) path

-- AddressBookSlug
unfoldable pub address_book_slug : Text → Text → Text
unfolding slug_under
address_book_slug path username = slug_under (address_book_home username) path

-- ObjectHref
unfoldable pub object_href : Text → Text → Text
object_href obj_path collection_path =
    trim_prefix obj_path (trim_right is_slash collection_path ++ slash)

-- What follows the last separator: all of a text that has none.
unfoldable pub after_last : ℕ → Text → Text
after_last sep [] = []
after_last sep (c ∷ s) = if contains_rune (c ∷ s) sep then after_last sep s else c ∷ s

-- path.Base of Go's package path.
unfoldable pub path_base : Text → Text
unfolding after_last
path_base s =
    if same s []
    then codes "."
    else (let last = after_last b'/' (trim_right is_slash s) in
        if same last [] then slash else last)

-- CheckObjectHref; true is a nil error.
unfoldable pub check_object_href : (ℕ → ℕ) → Text → Bool
unfolding path_base
check_object_href table raw =
    let href = trim_space raw in
    let low = to_lower table href in
    if same href [] || same href (codes ".") || same href (codes "..")
    then false
    else if contains_rune href b'/'
        || contains_rune href b'\\'
        || contains low (codes "%2f")
        || contains low (codes "%5c")
        || contains low (codes "%2e%2e")
    then false
    else same (path_base href) href

-- ObjectFileHref; `fresh` is what uuid.NewString returns.
unfoldable pub object_file_href : (ℕ → ℕ) → Text → Text → Text → Text
unfolding check_object_href
object_file_href table fresh uid raw_ext =
    let ext =
      if not (same raw_ext []) && not (has_prefix raw_ext (codes "."))
      then b'.' ∷ raw_ext
      else raw_ext in
    let href = trim_space uid ++ ext in if check_object_href table href then href else fresh ++ ext

abbrev pub is_slug_char : ℕ → Bool
is_slug_char c = (leb b'a' c && leb c b'z') || (leb b'0' c && leb c b'9') || c == b'-'

abbrev pub is_dash : ℕ → Bool
is_dash c = c == b'-'

abbrev pub first_is : (ℕ → Bool) → Text → Bool
first_is p [] = false
first_is p (c ∷ s) = p c

abbrev pub last_is : (ℕ → Bool) → Text → Bool
last_is p [] = false
last_is p (c ∷ []) = p c
last_is p (c ∷ d ∷ s) = last_is p (d ∷ s)

-- ValidSlug
unfoldable pub valid_slug : Text → Bool
valid_slug s =
    if ltb (byte_len s) 1 || ltb 63 (byte_len s)
    then false
    else if first_is is_dash s || last_is is_dash s
    then false
    else all is_slug_char s

abbrev pub becomes_dash : ℕ → Bool
becomes_dash r = is_space r || r == b'_' || r == b'-' || r == b'.'

abbrev pub is_alphanumeric : ℕ → Bool
is_alphanumeric r = (leb b'a' r && leb r b'z') || (leb b'0' r && leb r b'9')

-- The loop of Slugify over the runes: what is written so far, and lastDash.
unfoldable pub write_slug : Text → Text → Bool → Text
write_slug [] b last_dash = b
write_slug (r ∷ s) b last_dash =
    let keep = write_slug s (b ++ r ∷ []) false in
    let dash = write_slug s (b ++ b'-' ∷ []) true in
    let skip = write_slug s b last_dash in
    if is_alphanumeric r
    then keep
    else if becomes_dash r && not (same b []) && not last_dash
    then dash
    else skip

-- Slugify. What is written is ASCII, so the 63 bytes of the cut are 63 characters.
unfoldable pub slugify : (ℕ → ℕ) → Text → Text → Text
unfolding write_slug
slugify table slug name =
    let s = trim_space slug in
    let chosen = if same s [] then trim_space name else s in
    let out = trim is_dash (write_slug (to_lower table chosen) [] false) in
    let short = if ltb 63 (byte_len out) then trim is_dash (take 63 out) else out in
    if valid_slug short then short else codes "calendar"

-- WriteXML: what is appended to the builder.
unfoldable pub escape_xml : Text → Text
escape_xml s = replace_rune b'"' (codes "&quot;") (
    replace_rune b'>' (codes "&gt;")
      (replace_rune b'<' (codes "&lt;") (replace_rune b'&' (codes "&amp;") s)))
