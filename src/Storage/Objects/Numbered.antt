-- ===== src/Storage/Objects/Numbered.antt =====
-- The order of the ids of the change log (table dav_changes).
use dcalcon.Base.{
  ℕ, ◌+◌, ◌<◌, ◌≤◌, Bool, true, false, ◌&&◌, List, [], ◌∷◌, ◌++◌, Text, ◌≡◌, refl, arith, all, any,
  select, ltb, Bool-cases, inl, inr,
}
use dcalcon.Storage.{Collection, calendar, Change, ObjectData, Db}
use dcalcon.Storage.Changes.{record_change, is_since, max_id, latest_change_id}
use dcalcon.Storage.Objects.{at_href, remove_object, write_object, remove_prefix, record_deleted}
use dcalcon.Storage.Objects.Keeps.{Deletes, Kept, Kept-upsert}

unfoldable pub increasing : List Change → ℕ → Bool
increasing [] next = true
increasing (c ∷ rows) next =
    ltb c.id next && all (λ (b : Change). ltb c.id b.id) rows && increasing rows next

pub record IsNumbered (db : Db) : Type 0 where
  pub ids : increasing db.changes db.next_change ≡ true
  pub from_one : 0 < db.next_change

all_append :
    (p : Change → Bool) (rows : List Change) (c : Change)
    → all p rows ≡ true
    → p c ≡ true
    → all p (rows ++ c ∷ []) ≡ true
unfolding all
all_append p [] c h k = ground arith
all_append p (b ∷ rows) c h k = ground (arith, all_append p rows c)

increasing-append :
    (rows : List Change) (next : ℕ) (c : Change)
    → increasing rows next ≡ true
    → c.id ≡ next
    → increasing (rows ++ c ∷ []) (next + 1) ≡ true
unfolding increasing all
increasing-append [] next c h e = ground arith
increasing-append (b ∷ rows) next c h e =
    ground (arith, increasing-append rows next c, all_append (λ (x : Change). ltb b.id x.id) rows c)

IsNumbered-log :
    (kind : Collection) (id : ℕ) (href : Text) (deleted : Bool) (db : Db)
    → IsNumbered db
    → IsNumbered (record_change kind id href deleted db)
unfolding record_change
IsNumbered-log kind id href deleted db n = record {
  ids = increasing-append db.changes db.next_change _ n.ids refl;
  from_one = omega arith;
}

IsNumbered-log_deleted :
    (id : ℕ) (hrefs : List Text) (db : Db) → IsNumbered db → IsNumbered (record_deleted id hrefs db)
unfolding record_deleted
IsNumbered-log_deleted id [] db n = n
IsNumbered-log_deleted id (h ∷ hrefs) db n =
    IsNumbered-log_deleted id hrefs _ (IsNumbered-log calendar id h true db n)

IsNumbered-write :
    (id : ℕ) (o : ObjectData) (now : Text) (db : Db)
    → IsNumbered db
    → IsNumbered (write_object id o now db)
unfolding write_object
IsNumbered-write id o now db n = elim (Bool-cases (any (at_href id o.href) db.objects)) [
  | inl there ↦ rw there (record { ids = n.ids; from_one = n.from_one })
  | inr absent ↦ rw absent (record { ids = n.ids; from_one = n.from_one })
]

IsNumbered-remove :
    (id : ℕ) (href : Text) (db : Db) → IsNumbered db → IsNumbered (remove_object id href db)
unfolding remove_object
IsNumbered-remove id href db n = record { ids = n.ids; from_one = n.from_one }

IsNumbered-clear :
    (id : ℕ) (prefix : Text) (db : Db) → IsNumbered db → IsNumbered (remove_prefix id prefix db)
unfolding remove_prefix
IsNumbered-clear id prefix db n = record { ids = n.ids; from_one = n.from_one }

IsNumbered-Deletes : Deletes IsNumbered
IsNumbered-Deletes = record {
  calendars = λ rows next db n. record { ids = n.ids; from_one = n.from_one };
  removes = λ id href db n. IsNumbered-log calendar id href true _ (IsNumbered-remove id href db n);
  clears = λ id prefix db n. IsNumbered-log_deleted id _ _ (IsNumbered-clear id prefix db n);
}

pub IsNumbered-Kept : Kept IsNumbered
IsNumbered-Kept = record {
  deletes = IsNumbered-Deletes;
  upserts =
      Kept-upsert IsNumbered-Deletes
        λ id o now db n. IsNumbered-log calendar id o.href false _ (IsNumbered-write id o now db n);
}

max_id-lt :
    (kind : Collection) (id next : ℕ) (rows : List Change)
    → increasing rows next ≡ true
    → 0 < next
    → max_id kind id rows < next
unfolding increasing max_id
max_id-lt kind id next [] h pos_next = pos_next
max_id-lt kind id next (c ∷ rows) h pos_next = ground (arith, max_id-lt kind id next rows)

-- The latest change id of a collection is one that has been given out.
pub latest_change_id-lt :
    (db : Db) (kind : Collection) (id : ℕ)
    → IsNumbered db
    → latest_change_id db kind id < db.next_change
unfolding latest_change_id
latest_change_id-lt db kind id n = max_id-lt kind id db.next_change db.changes n.ids n.from_one

select-none :
    (kind : Collection) (id since : ℕ) (rows : List Change)
    → max_id kind id rows ≤ since
    → select (is_since kind id since) rows ≡ []
unfolding select max_id
select-none kind id since [] h = refl
select-none kind id since (c ∷ rows) h = ground (arith, select-none kind id since rows)

-- No change of the collection is newer than its latest change id.
pub select-latest :
    (db : Db) (kind : Collection) (id : ℕ)
    → select (is_since kind id (latest_change_id db kind id)) db.changes ≡ []
unfolding latest_change_id
select-latest db kind id = select-none kind id _ db.changes (omega arith)

-- The latest change id never falls.
le-max_id-append :
    (kind : Collection) (id : ℕ) (rows : List Change) (c : Change)
    → max_id kind id rows ≤ max_id kind id (rows ++ c ∷ [])
unfolding max_id
le-max_id-append kind id [] c = omega arith
le-max_id-append kind id (b ∷ rows) c = ground (arith, le-max_id-append kind id rows c)

pub record Past (kind : Collection) (id n : ℕ) (db : Db) : Type 0 where
  pub reached : n ≤ latest_change_id db kind id

module _ {kind : Collection} {id n : ℕ} where
  Past-log :
      (k : Collection) (j : ℕ) (href : Text) (deleted : Bool) (db : Db)
      → Past kind id n db
      → Past kind id n (record_change k j href deleted db)
  unfolding record_change latest_change_id
  Past-log k j href deleted db p = record {
    reached = omega (arith, p.reached, le-max_id-append kind id db.changes _);
  }

  Past-log_deleted :
      (j : ℕ) (hrefs : List Text) (db : Db)
      → Past kind id n db
      → Past kind id n (record_deleted j hrefs db)
  unfolding record_deleted
  Past-log_deleted j [] db p = p
  Past-log_deleted j (h ∷ hrefs) db p = Past-log_deleted j hrefs _ (Past-log calendar j h true db p)

  Past-write :
      (j : ℕ) (o : ObjectData) (now : Text) (db : Db)
      → Past kind id n db
      → Past kind id n (write_object j o now db)
  unfolding write_object latest_change_id
  Past-write j o now db p = elim (Bool-cases (any (at_href j o.href) db.objects)) [
    | inl there ↦ rw there (record { reached = p.reached })
    | inr absent ↦ rw absent (record { reached = p.reached })
  ]

  Past-Deletes : Deletes (Past kind id n)
  unfolding remove_object remove_prefix latest_change_id
  Past-Deletes = record {
    calendars = λ rows next db p. record { reached = p.reached };
    removes = λ j href db p. Past-log calendar j href true _ (record { reached = p.reached });
    clears = λ j prefix db p. Past-log_deleted j _ _ (record { reached = p.reached });
  }

  pub Past-Kept : Kept (Past kind id n)
  Past-Kept = record {
    deletes = Past-Deletes;
    upserts =
        Kept-upsert Past-Deletes
          λ j o now db p. Past-log calendar j o.href false _ (Past-write j o now db p);
  }
