-- ===== src/Storage/Books.antt =====
-- Address books and contacts: the statements of src/svc/internal/storage/dav.go on tables
-- addressbooks and address_objects.
use dcalcon.Base.{
  ℕ, ◌+◌, Bool, true, false, not, ◌&&◌, ◌||◌, List, [], ◌∷◌, ◌++◌, map, Text, codes, same,
  find_first, any, select, count, update_where, sort_by, text_leb, nocase, trim_space, ltb, leb,
  ◌==◌, if◌then◌else◌,
}
use dcalcon.Decimal.{format_int}
use dcalcon.Storage.{
  addressbook, AddressBook, AddressObject, ContactData, not_found, constraint, Result, ok, err, Db,
}
use dcalcon.Storage.Changes.{record_change}
use dcalcon.Storage.Calendars.{or_not_found}
use dcalcon.Storage.Objects.{ObjectRef}

abbrev pub book_of : Db → ℕ → AddressObject → (AddressBook → Bool) → Bool
book_of db user o p =
    any (λ (b : AddressBook). b.id == o.book_id && (b.user_id == user && p b)) db.books

-- CountContacts
unfoldable pub count_contacts : Db → ℕ → ℕ
count_contacts db user =
    count
      (λ (o : AddressObject).
        book_of db user o (λ (b : AddressBook). not (same b.slug (codes "people"))))
      db.contacts

-- CASE slug WHEN 'contacts' THEN 0 WHEN 'people' THEN 2 ELSE 1 END
abbrev pub slug_rank : Text → ℕ
slug_rank slug =
    if same slug (codes "contacts") then 0 else if same slug (codes "people") then 2 else 1

unfoldable pub book_before : AddressBook → AddressBook → Bool
book_before a b =
    if ltb (slug_rank a.slug) (slug_rank b.slug)
    then true
    else if ltb (slug_rank b.slug) (slug_rank a.slug)
    then false
    else text_leb a.name b.name

-- ListAddressBooks
unfoldable pub list_address_books : Db → ℕ → List AddressBook
unfolding book_before
list_address_books db user =
    sort_by book_before (select (λ (b : AddressBook). b.user_id == user) db.books)

-- AddressBookBySlug
unfoldable pub address_book_by_slug : Db → ℕ → Text → Result AddressBook
address_book_by_slug db user slug =
    or_not_found (find_first (λ (b : AddressBook). b.user_id == user && same b.slug slug) db.books)

-- AddressBookByID
unfoldable pub address_book_by_id : Db → ℕ → ℕ → Result AddressBook
address_book_by_id db user id =
    or_not_found (find_first (λ (b : AddressBook). b.user_id == user && b.id == id) db.books)

-- bumpAddressBook
unfoldable pub bump_address_book : ℕ → Text → Db → Db
bump_address_book id now db = record db {
  books =
      update_where (λ (b : AddressBook). b.id == id)
        (λ (b : AddressBook). record b {
          ctag = b.ctag + 1;
          sync_token = format_int (b.ctag + 1);
          updated_at = now;
        })
        db.books;
}

-- ListAddressObjectRefs
unfoldable pub list_address_object_refs : Db → ℕ → List ObjectRef
list_address_object_refs db book =
    map (λ (o : AddressObject). record { href = o.href; etag = o.etag })
      (select (λ (o : AddressObject). o.book_id == book) db.contacts)

-- ORDER BY fn COLLATE NOCASE, id
unfoldable pub contact_before : AddressObject → AddressObject → Bool
contact_before a b =
    let x = nocase a.full_name in
    let y = nocase b.full_name in if same x y then leb a.id b.id else text_leb x y

-- ListAddressObjects
unfoldable pub list_address_objects : Db → ℕ → List AddressObject
unfolding contact_before
list_address_objects db book =
    sort_by contact_before (select (λ (o : AddressObject). o.book_id == book) db.contacts)

abbrev pub contact_at : ℕ → Text → AddressObject → Bool
contact_at book href o = o.book_id == book && same o.href href

-- AddressObjectByHref
unfoldable pub address_object_by_href : Db → ℕ → Text → Result AddressObject
address_object_by_href db book href = or_not_found (find_first (contact_at book href) db.contacts)

-- AddressObjectByUID; the table is in the order of the ids.
unfoldable pub address_object_by_uid : Db → ℕ → Text → Result AddressObject
address_object_by_uid db book uid =
    let wanted = trim_space uid in
    if same wanted []
    then err not_found
    else or_not_found
        (find_first (λ (o : AddressObject). o.book_id == book && same o.uid wanted) db.contacts)

-- INSERT … ON CONFLICT(addressbook_id, href) DO UPDATE
unfoldable pub write_contact : ℕ → ContactData → Text → Db → Db
write_contact book o now db =
    if any (contact_at book o.href) db.contacts
    then record db {
      contacts =
          update_where (contact_at book o.href)
            (λ (old : AddressObject). record old { fields = o; updated_at = now }) db.contacts;
    }
    else record db {
      contacts =
          db.contacts
          ++ record { id = db.next_contact; book_id = book; fields = o; updated_at = now } ∷ [];
      next_contact = db.next_contact + 1;
    }

-- UpsertAddressObject; an address book that does not exist breaks the foreign key.
unfoldable pub upsert_address_object : ℕ → ContactData → Text → Db → Result (Unit {0}) × Db
upsert_address_object book o now db =
    if any (λ (b : AddressBook). b.id == book) db.books
    then (
      ok tt,
      bump_address_book book now
          (record_change addressbook book o.href false (write_contact book o now db)),
    )
    else (err constraint, db)

-- DELETE FROM address_objects WHERE addressbook_id = ? AND href = ?
unfoldable pub remove_contact : ℕ → Text → Db → Db
remove_contact book href db = record db {
  contacts = select (λ (o : AddressObject). not (contact_at book href o)) db.contacts;
}

-- DeleteAddressObject
unfoldable pub delete_address_object : ℕ → Text → Text → Db → Result (Unit {0}) × Db
delete_address_object book href now db =
    if any (contact_at book href) db.contacts
    then (
      ok tt,
      bump_address_book book now
          (record_change addressbook book href true (remove_contact book href db)),
    )
    else (err not_found, db)

-- ContactsWithDates
unfoldable pub contacts_with_dates : Db → ℕ → List AddressObject
contacts_with_dates db user =
    select
      (λ (o : AddressObject).
        book_of db user o (λ b. true) && (not (same o.bday []) || not (same o.anniversary [])))
      db.contacts
