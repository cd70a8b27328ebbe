-- ===== src/Davext.antt =====
-- src/svc/internal/davext/wrap.go: the collection that a request's path names.
pub mod Sync
use dcalcon.Base.{
  Bool, not, ◌||◌, Option, none, some, List, [], ◌∷◌, ◌++◌, Text, same, has_prefix, trim_prefix,
  trim, trim_suffix_rune, split, if◌then◌else◌,
}
use dcalcon.Storage.{Collection, calendar, addressbook}
use dcalcon.Davpath.{is_slash, slash, calendars_root, address_books_root}

-- collectionRef
pub record CollectionRef : Type 0 where
  pub kind : Collection
  pub username : Text
  pub slug : Text

-- The two parts of the path behind a root, neither of them empty.
unfoldable pub two_parts : Collection → List Text → Option CollectionRef
two_parts kind (user ∷ slug ∷ []) =
    if same user [] || same slug []
    then none
    else some (record { kind = kind; username = user; slug = slug })
two_parts kind _ = none

-- parseCollection
unfoldable pub parse_collection : Text → Option CollectionRef
unfolding two_parts
parse_collection raw =
    let path = trim_suffix_rune b'/' raw ++ slash in
    if has_prefix path calendars_root
    then two_parts calendar (split b'/' (trim is_slash (trim_prefix path calendars_root)))
    else if has_prefix path address_books_root
    then two_parts addressbook (split b'/' (trim is_slash (trim_prefix path address_books_root)))
    else none
