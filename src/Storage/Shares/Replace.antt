-- ===== src/Storage/Shares/Replace.antt =====
-- What the writes of src/svc/internal/storage/shares.go leave each user of a calendar's sharing.
use dcalcon.Base.{
  ℕ, ◌≤◌, Bool, true, false, not, ◌&&◌, ◌||◌, ◌⊎◌, Option, none, some, List, [], ◌∷◌, ◌++◌,
  find_first, any, select, count, filter_map, update_where, insert_by, sort_by, is_some, opt_map,
  ltb, ◌==◌, ==_iff, if◌then◌else◌, ◌≡◌, refl, ◌∙◌, arith, Bool-cases, Option-cases, inl, inr, Text,
}
use dcalcon.Storage.{Access, User, Share, CalendarRow, Result, ok, err, constraint, Db}
use dcalcon.Storage.Calendars.{bump_calendar}
use dcalcon.Storage.Shares.{
  SharedWith, with_grantee, list_shares, is_share, write_share, put_share, delete_share, ShareGrant,
  grant_of, grant, wanted, drop_unwanted, put_all, and_then, parse_access, replace_shares,
}

-- The access that a calendar's sharing gives a user.
unfoldable pub access_at : Db → ℕ → ℕ → Option Access
access_at db calendar_id user =
    opt_map (λ (s : Share). s.access) (find_first (is_share calendar_id user) db.shares)

module _ (c j : ℕ) where
  abbrev access_in : List Share → Option Access
  access_in rows = opt_map (λ (s : Share). s.access) (find_first (is_share c j) rows)

  access_in-absent : (rows : List Share) → any (is_share c j) rows ≡ false → access_in rows ≡ none
  unfolding any find_first
  access_in-absent [] e = refl
  access_in-absent (s ∷ rows) e = ground (arith, access_in-absent rows)

  access_in-update :
      (d k : ℕ) (a : Access) (rows : List Share)
      → access_in (update_where (is_share d k) (λ (s : Share). record s { access = a }) rows)
        ≡ (if (d == c && k == j) && any (is_share d k) rows then some a else access_in rows)
  unfolding any find_first update_where
  access_in-update d k a [] = ground arith
  access_in-update d k a (s ∷ rows) = ground (arith, access_in-update d k a rows)

  access_in-append :
      (rows : List Share) (s : Share)
      → access_in (rows ++ s ∷ []) ≡ (
          if is_some (access_in rows)
          then access_in rows
          else if is_share c j s
          then some s.access
          else none)
  unfolding find_first
  access_in-append [] s = ground arith
  access_in-append (r ∷ rows) s = ground (arith, access_in-append rows s)

  access_in-delete :
      (d k : ℕ) (rows : List Share)
      → access_in (select (λ (s : Share). not (is_share d k s)) rows)
        ≡ (if d == c && k == j then none else access_in rows)
  unfolding select find_first
  access_in-delete d k [] = ground arith
  access_in-delete d k (s ∷ rows) = ground (arith, access_in-delete d k rows)

  access_at-write :
      (d k : ℕ) (a : Access) (db : Db)
      → access_at (write_share d k a db) c j
        ≡ (if d == c && k == j then some a else access_at db c j)
  unfolding access_at write_share
  access_at-write d k a db = elim (Bool-cases (any (is_share d k) db.shares)) [
    | inl there ↦ rw there (rw (access_in-update d k a db.shares) (rw there (ground arith)))
    | inr new ↦ rw new (
        rw
          (access_in-append db.shares
            (record { id = db.next_share; calendar_id = d; grantee_id = k; access = a }))
          (ground (arith, access_in-absent db.shares)))
  ]

  access_at-delete :
      (d k : ℕ) (db : Db)
      → access_at (delete_share d k db).1 c j
        ≡ (if d == c && k == j then none else access_at db c j)
  unfolding access_at delete_share
  access_at-delete d k db = elim (Bool-cases (any (is_share d k) db.shares)) [
    | inl there ↦ rw there (access_in-delete d k db.shares)
    | inr absent ↦ rw absent (ground (arith, access_in-absent db.shares))
  ]

abbrev or_held : Option Access → Option Access → Option Access
or_held none held = held
or_held (some a) held = some a

granted-none :
    (want : List (ℕ × Access)) (j : ℕ)
    → count (λ (e : ℕ × Access). e.0 == j) want ≤ 0
    → grant_of want j ≡ none
unfolding count grant_of
granted-none [] j h = refl
granted-none ((k, a) ∷ want) j h = ground (arith, granted-none want j)

put_share-refused :
    (c k : ℕ) (a : Access) (db : Db)
    → ((put_share c k a db).0 ≡ ok tt) ⊎ ((put_share c k a db).0 ≡ err constraint)
unfolding put_share
put_share-refused c k a db =
    elim (Bool-cases (
      any (λ (r : CalendarRow). r.id == c) db.calendars
      && any (λ (u : User). u.id == k) db.users)) [
        | inl known ↦ rw known (inl refl)
        | inr unknown ↦ rw unknown (inr refl)
      ]

access_at-put_share :
    (c k : ℕ) (a : Access) (db : Db) (d j : ℕ)
    → (put_share c k a db).0 ≡ ok tt
    → access_at (put_share c k a db).1 d j ≡ (if c == d && k == j then some a else access_at db d j)
unfolding put_share
access_at-put_share c k a db d j done =
    elim (Bool-cases (
      any (λ (r : CalendarRow). r.id == c) db.calendars
      && any (λ (u : User). u.id == k) db.users)) [
        | inl known ↦ rw known (access_at-write d j c k a db)
        | inr unknown ↦ cc (refused unknown, done)
      ]
  where
    refused :
        (any (λ (r : CalendarRow). r.id == c) db.calendars
            && any (λ (u : User). u.id == k) db.users)
          ≡ false
        → (put_share c k a db).0 ≡ err constraint
    refused unknown = rw unknown refl

and_then-ok :
    (r : Result (Unit {0}) × Db) (f : Db → Result (Unit {0}) × Db)
    → (and_then r f).0 ≡ ok tt
    → (r.0 ≡ ok tt) × (and_then r f ≡ f r.1)
and_then-ok (ok u, next) f e = (refl, refl)
and_then-ok (err e', left) f e = cc e

access_at-put_all :
    (c : ℕ) (want : List (ℕ × Access)) (db : Db) (d j : ℕ)
    → count (λ (e : ℕ × Access). e.0 == j) want ≤ 1
    → (put_all c want db).0 ≡ ok tt
    → access_at (put_all c want db).1 d j
      ≡ (if c == d then or_held (grant_of want j) (access_at db d j) else access_at db d j)
unfolding put_all grant_of count
access_at-put_all c [] db d j once done = ground arith
access_at-put_all c ((k, a) ∷ want) db d j once done =
    let (first, rest) = and_then-ok (put_share c k a db) (put_all c want) done in
    let next = (put_share c k a db).1 in
    rw rest (
      ground (
        arith,
        access_at-put_all c want next d j,
        access_at-put_share c k a db d j first,
        granted-none want j,
        rest,
      ))

access_at-drop_unwanted :
    (c : ℕ) (want : List (ℕ × Access)) (shares : List SharedWith) (db : Db) (d j : ℕ)
    → access_at (drop_unwanted c want shares db) d j ≡ (
        if c == d
          && (any (λ (s : SharedWith). s.share.grantee_id == j) shares
              && not (is_some (grant_of want j)))
        then none
        else access_at db d j)
unfolding drop_unwanted any
access_at-drop_unwanted c want [] db d j = ground arith
access_at-drop_unwanted c want (s ∷ shares) db d j =
    access_at-drop_unwanted c want shares _ d j
    ∙ elim (Bool-cases (is_some (grant_of want s.share.grantee_id))) [
      | inl kept ↦ rw kept (ground (arith, ==_iff s.share.grantee_id j))
      | inr unwanted ↦ rw unwanted (
          rw (access_at-delete d j c s.share.grantee_id db)
            (ground (arith, ==_iff s.share.grantee_id j)))
    ]

any-insert_by :
    {A : Type 0} (before : A → A → Bool) (p : A → Bool) (a : A) (xs : List A)
    → any p (insert_by before a xs) ≡ (p a || any p xs)
unfolding any insert_by
any-insert_by before p a [] = ground arith
any-insert_by before p a (x ∷ xs) = ground (arith, any-insert_by before p a xs)

any-sort_by :
    {A : Type 0} (before : A → A → Bool) (p : A → Bool) (xs : List A)
    → any p (sort_by before xs) ≡ any p xs
unfolding any sort_by
any-sort_by before p [] = refl
any-sort_by before p (x ∷ xs) =
    any-insert_by before p x (sort_by before xs) ∙ rw (any-sort_by before p xs) (ground arith)

abbrev has_user : Db → ℕ → Bool
has_user db j = is_some (find_first (λ (u : User). u.id == j) db.users)

grantee-missing :
    (db : Db) (s : Share) (rows : List Share)
    → find_first (λ (u : User). u.id == s.grantee_id) db.users ≡ none
    → filter_map (with_grantee db) (s ∷ rows) ≡ filter_map (with_grantee db) rows
unfolding filter_map
grantee-missing db s rows e = rw (e, filter_map) refl

grantee-found :
    (db : Db) (s : Share) (rows : List Share) (u : User)
    → find_first (λ (u : User). u.id == s.grantee_id) db.users ≡ some u
    → filter_map (with_grantee db) (s ∷ rows)
      ≡ record { share = s; username = u.username; display_name = u.display_name }
        ∷ filter_map (with_grantee db) rows
unfolding filter_map
grantee-found db s rows u e = rw (e, filter_map) refl

any-with_grantee :
    (db : Db) (j : ℕ) (rows : List Share)
    → has_user db j ≡ true
    → any (λ (s : SharedWith). s.share.grantee_id == j) (filter_map (with_grantee db) rows)
      ≡ any (λ (s : Share). s.grantee_id == j) rows
unfolding any
any-with_grantee db j [] known = unfold filter_map in refl
any-with_grantee db j (s ∷ rows) known =
    elim (Option-cases (find_first (λ (u : User). u.id == s.grantee_id) db.users)) [
      | inl missing ↦
          rw (grantee-missing db s rows missing)
            (ground (arith, any-with_grantee db j rows, ==_iff s.grantee_id j, missing))
      | inr (u, found) ↦
          rw (grantee-found db s rows u found) (ground (arith, any-with_grantee db j rows))
    ]

any-select :
    (c j : ℕ) (rows : List Share)
    → any (λ (s : Share). s.grantee_id == j) (select (λ (s : Share). s.calendar_id == c) rows)
      ≡ any (is_share c j) rows
unfolding any select
any-select c j [] = refl
any-select c j (s ∷ rows) = ground (arith, any-select c j rows)

any-list_shares :
    (db : Db) (c j : ℕ)
    → has_user db j ≡ true
    → any (λ (s : SharedWith). s.share.grantee_id == j) (list_shares db c)
      ≡ any (is_share c j) db.shares
unfolding list_shares
any-list_shares db c j known =
    any-sort_by _ _ _ ∙ any-with_grantee db j _ known ∙ any-select c j db.shares

-- The access that the last grant to a user that names a real access asks for.
unfoldable pub asked : (ℕ → ℕ) → List ShareGrant → ℕ → Option Access
asked table [] j = none
asked table (g ∷ grants) j =
    or_held (asked table grants j)
      (if g.grantee_id == j && not (ltb g.grantee_id 1) then parse_access table g.access else none)

grant_of-grant :
    (want : List (ℕ × Access)) (k : ℕ) (a : Access) (j : ℕ)
    → grant_of (grant want k a) j ≡ (if k == j then some a else grant_of want j)
unfolding grant_of grant
grant_of-grant [] k a j = refl
grant_of-grant ((i, b) ∷ want) k a j = ground (arith, grant_of-grant want k a j)

grant_of-wanted :
    (table : ℕ → ℕ) (grants : List ShareGrant) (want : List (ℕ × Access)) (j : ℕ)
    → grant_of (wanted table grants want) j ≡ or_held (asked table grants j) (grant_of want j)
unfolding wanted asked
grant_of-wanted table [] want j = refl
grant_of-wanted table (g ∷ grants) want j = elim (Option-cases (parse_access table g.access)) [
  | inl bad ↦ rw (bad, wanted) (ground (arith, grant_of-wanted table grants want j))
  | inr (a, good) ↦
      rw (good, wanted)
        (elim (Bool-cases (ltb g.grantee_id 1)) [
          | inl zero_id ↦ rw zero_id (ground (arith, grant_of-wanted table grants want j))
          | inr real ↦ rw real (
              ground (
                arith,
                grant_of-wanted table grants (grant want g.grantee_id a) j,
                grant_of-grant want g.grantee_id a j,
              ))
        ])
]

-- Go ranges over each entry of a map once, in any order.
pub record Ranges (order : List (ℕ × Access) → List (ℕ × Access)) (want : List (ℕ × Access))
    : Type 0 where
  pub once : (j : ℕ) → count (λ (e : ℕ × Access). e.0 == j) (order want) ≤ 1
  pub entries : (j : ℕ) → grant_of (order want) j ≡ grant_of want j

access_at-bump :
    (c : ℕ) (now : Text) (db : Db) (d j : ℕ)
    → access_at (bump_calendar c now db) d j ≡ access_at db d j
unfolding access_at bump_calendar
access_at-bump c now db d j = refl

any-access_at : (db : Db) (c j : ℕ) → any (is_share c j) db.shares ≡ false → access_at db c j ≡ none
unfolding access_at
any-access_at db c j e = access_in-absent c j db.shares e

-- ReplaceShares, when it succeeds, gives each user of the table of users the access that the last of
-- its grants with a real access asks for, or none if it has no such grant, and leaves the sharing of
-- the other calendars as it was, in whatever order Go ranges over the map.
pub access_at-replace_shares :
    (table : ℕ → ℕ) (order : List (ℕ × Access) → List (ℕ × Access)) (c : ℕ)
    (grants : List ShareGrant) (now : Text) (db : Db) (d j : ℕ)
    → Ranges order (wanted table grants [])
    → has_user db j ≡ true
    → (replace_shares table order c grants now db).0 ≡ ok tt
    → access_at (replace_shares table order c grants now db).1 d j
      ≡ (if c == d then asked table grants j else access_at db d j)
unfolding replace_shares
access_at-replace_shares table order c grants now db d j r known done =
    let want = wanted table grants [] in
    let kept = drop_unwanted c want (list_shares db c) db in
    let (put, rest) =
      and_then-ok (put_all c (order want) kept) (λ next. (ok tt, bump_calendar c now next)) done in
    rw rest (
      access_at-bump c now _ d j
      ∙ access_at-put_all c (order want) kept d j (r.once j) put
      ∙ ground (
        arith,
        access_at-drop_unwanted c want (list_shares db c) db d j,
        any-list_shares db c j known,
        r.entries j,
        grant_of-wanted table grants [] j,
        any-access_at db c j,
        ==_iff c d,
      ))
