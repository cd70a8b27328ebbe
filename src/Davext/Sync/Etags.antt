-- ===== src/Davext/Sync/Etags.antt =====
-- The etags that handleSync (src/svc/internal/davext/sync.go) collects from the listing.
use dcalcon.Base.{
  ℕ, ◌≤◌, true, false, ◌&&◌, ◌||◌, Option, none, some, List, [], ◌∷◌, map, Text, ◌≡◌, refl, ◌∙◌,
  arith, same, Bool-cases, inl, inr, find_first, count, select, opt_map, if◌then◌else◌,
}
use dcalcon.Storage.{CalendarObject, Db}
use dcalcon.Storage.Objects.{ObjectRef, at_href, in_calendar, list_calendar_object_refs}
use dcalcon.Storage.Objects.Sql.{like_prefix}
use dcalcon.Storage.Objects.Tracking.{etag_at}
use dcalcon.Storage.Objects.Unique.{HrefUnique}
use dcalcon.Davext.Sync.{Member, etags_of, item_member}

-- The client's copy: the etag it has for an href.
unfoldable pub apply_members : List Member → (Text → Option Text) → Text → Option Text
apply_members [] copy h = copy h
apply_members (m ∷ members) copy h =
    apply_members members
      (λ j. if same m.href j then (if m.deleted then none else some m.etag) else copy j) h

-- What is there, or else a text that was known.
abbrev pub else_known : Option Text → Text → Text
else_known none known = known
else_known (some etag) known = etag

abbrev or_held : Option Text → Option Text → Option Text
or_held none held = held
or_held (some etag) held = some etag

or_held-none : (o : Option Text) → or_held o none ≡ o
or_held-none none = refl
or_held-none (some etag) = refl

module _ (id : ℕ) (h : Text) where
  refs : List CalendarObject → List ObjectRef
  refs rows =
      map (λ (o : CalendarObject). record { href = o.href; etag = o.etag })
        (select (λ (o : CalendarObject). in_calendar id o && (same [] [] || like_prefix [] o.href))
          rows)

  abbrev etag_in : List CalendarObject → Option Text
  etag_in rows = opt_map (λ (o : CalendarObject). o.etag) (find_first (at_href id h) rows)

  refs-inside :
      (o : CalendarObject) (rows : List CalendarObject)
      → in_calendar id o ≡ true
      → refs (o ∷ rows) ≡ record { href = o.href; etag = o.etag } ∷ refs rows
  unfolding refs select same
  refs-inside o rows inside = rw inside

  refs-outside :
      (o : CalendarObject) (rows : List CalendarObject)
      → in_calendar id o ≡ false
      → refs (o ∷ rows) ≡ refs rows
  unfolding refs select same
  refs-outside o rows outside = rw outside

  absent : (rows : List CalendarObject) → count (at_href id h) rows ≤ 0 → etag_in rows ≡ none
  unfolding count find_first
  absent [] u = refl
  absent (o ∷ rows) u = ground (arith, absent rows)

  etags_of-refs :
      (rows : List CalendarObject) (m : Text → Text)
      → count (at_href id h) rows ≤ 1
      → etags_of (refs rows) m h ≡ else_known (etag_in rows) (m h)
  unfolding etags_of count find_first
  etags_of-refs [] m u = unfold refs select in refl
  etags_of-refs (o ∷ rows) m u = elim (Bool-cases (in_calendar id o)) [
    | inl inside ↦ rw (refs-inside o rows inside) (
        ground (
          arith,
          inside,
          etags_of-refs rows (λ j. if same o.href j then o.etag else m j),
          absent rows,
        ))
    | inr outside ↦ rw (refs-outside o rows outside) (ground (arith, outside, etags_of-refs rows m))
  ]

  -- The etag that the handler looks up is that of the object at the href.
  pub etags_of-list :
      (db : Db) (m : Text → Text)
      → HrefUnique db
      → etags_of (list_calendar_object_refs db id []) m h ≡ else_known (etag_at db id h) (m h)
  unfolding refs list_calendar_object_refs etag_at
  etags_of-list db m u = etags_of-refs db.objects m (u.once id h)

  copied :
      (rows : List CalendarObject) (v : Text → Option Text)
      → count (at_href id h) rows ≤ 1
      → apply_members (map item_member (refs rows)) v h ≡ or_held (etag_in rows) (v h)
  unfolding apply_members item_member count find_first
  copied [] v u = unfold refs select in refl
  copied (o ∷ rows) v u = elim (Bool-cases (in_calendar id o)) [
    | inl inside ↦ rw (refs-inside o rows inside) (
        ground (
          arith,
          inside,
          copied rows (λ j. if same o.href j then some o.etag else v j),
          absent rows,
        ))
    | inr outside ↦ rw (refs-outside o rows outside) (ground (arith, outside, copied rows v))
  ]

  -- The listing, applied to an empty copy, gives the etags of the objects.
  pub apply-list :
      (db : Db)
      → HrefUnique db
      → apply_members (map item_member (list_calendar_object_refs db id [])) (λ _. none) h
        ≡ etag_at db id h
  unfolding refs list_calendar_object_refs etag_at
  apply-list db u = copied db.objects (λ _. none) (u.once id h) ∙ or_held-none (etag_in db.objects)
