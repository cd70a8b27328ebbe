-- ===== src/Storage/Dates/Saved.antt =====
-- What GetImportantDates of src/svc/internal/storage/users.go reads after SaveImportantDates.
use dcalcon.Base.{
  ℕ, true, some, List, [], ◌∷◌, Text, all, any, update_where, find_first, find_first-append,
  find_first-absent, ◌==◌, ==_refl, ◌≡◌, refl, ap, arith, Bool-cases, inl, inr,
}
use dcalcon.Storage.{ImportantDates, ok, Db}
use dcalcon.Storage.Users.{is_user}
use dcalcon.Storage.Dates.{
  Settings, is_of, settings_row, alarms_json, parse_json_string_slice, or_day_before,
  get_important_dates, save_important_dates,
}
use dcalcon.Storage.Dates.Alarms.{is_plain, parse_json_string_slice-alarms_json}

-- A table that has a row is not rewritten to one that has none.
found_row :
    (user : ℕ) (row : ImportantDates) (rows : List ImportantDates)
    → row.user_id ≡ user
    → any (is_of user) rows ≡ true
    → find_first (is_of user) (update_where (is_of user) (λ r. row) rows) ≡ some row
unfolding find_first update_where any
found_row user row [] own h = absurd cc
found_row user row (r ∷ rows) own h = elim (Bool-cases (r.user_id == user)) [
  | inl hit ↦ rw (hit, own, ==_refl user) refl
  | inr miss ↦ rw (miss, miss) (found_row user row rows own (ground arith))
]

stored_row :
    (user : ℕ) (s : Settings) (db : Db)
    → (save_important_dates user s db).0 ≡ ok tt
    → find_first (is_of user) (save_important_dates user s db).1.important
      ≡ some (settings_row user s)
unfolding save_important_dates
stored_row user s db h = elim (Bool-cases (any (is_of user) db.important)) [
  | inl old ↦ rw old (found_row user (settings_row user s) db.important refl old)
  | inr new ↦ elim (Bool-cases (any (is_user user) db.users)) [
    | inr absent ↦ let g = rw (new, absent) at h in absurd cc
    | inl known ↦
        rw (new, known)
          (rw
            (
              find_first-append (is_of user) db.important (settings_row user s ∷ []),
              find_first-absent (is_of user) db.important new,
            )
            (unfold find_first in rw (==_refl user) refl))
  ]
]

-- Settings that SaveImportantDates stores are read back by GetImportantDates, if the list of alarms
-- is not empty and each alarm is not empty and holds neither a quote nor a comma.
pub get_important_dates-save_important_dates :
    (user : ℕ) (s : Settings) (alarm : Text) (alarms : List Text) (db : Db)
    → s.alarm_offsets ≡ alarm ∷ alarms
    → all is_plain (alarm ∷ alarms) ≡ true
    → (save_important_dates user s db).0 ≡ ok tt
    → get_important_dates (save_important_dates user s db).1 user ≡ s
unfolding get_important_dates
get_important_dates-save_important_dates user s alarm alarms db listed plain h =
    let back : or_day_before (parse_json_string_slice (alarms_json s.alarm_offsets))
        ≡ s.alarm_offsets =
      rw listed (rw (parse_json_string_slice-alarms_json alarm alarms plain) refl) in
    rw (stored_row user s db h, get_important_dates) (ap (λ l. record s { alarm_offsets = l }) back)
