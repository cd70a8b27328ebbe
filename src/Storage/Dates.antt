-- ===== src/Storage/Dates.antt =====
-- The settings for birthdays and anniversaries: GetImportantDates and SaveImportantDates of
-- src/svc/internal/storage/users.go, with the list of alarms that they write as JSON.
pub mod Alarms
pub mod Saved
use dcalcon.Base.{
  ℕ, Bool, true, false, not, ◌&&◌, Option, none, some, List, [], ◌∷◌, ◌++◌, Text, codes, same,
  find_first, any, update_where, trim, trim_space, trim_prefix, trim_suffix_rune, replace_rune,
  split, map, ◌==◌, if◌then◌else◌,
}
use dcalcon.Storage.{User, ImportantDates, constraint, Result, ok, err, Db}
use dcalcon.Storage.Users.{is_user}

-- ImportantDatesSettings
pub record Settings : Type 0 where
  pub enabled : Bool
  pub include_birthdays : Bool
  pub include_anniversaries : Bool
  pub alarm_offsets : List Text

abbrev pub day_before : List Text
day_before = codes "-P1D" ∷ []

abbrev pub quoted : Text → Text
quoted s = b'"' ∷ replace_rune b'"' [] s ++ b'"' ∷ []

-- strings.Join with ",".
unfoldable pub join : List Text → Text
join [] = []
join (s ∷ []) = s
join (s ∷ t ∷ rest) = s ++ b',' ∷ join (t ∷ rest)

-- quoteJoin
unfoldable pub quote_join : List Text → Text
unfolding join
quote_join ss = join (map quoted ss)

-- The loop of parseJSONStringSlice.
unfoldable pub gather_parts : List Text → List Text
gather_parts [] = []
gather_parts (p ∷ parts) =
    let s = trim (λ c. c == b'"') (trim_space p) in
    let rest = gather_parts parts in if same s [] then rest else s ∷ rest

-- parseJSONStringSlice
unfoldable pub parse_json_string_slice : Text → List Text
unfolding gather_parts
parse_json_string_slice raw =
    let inner = trim_suffix_rune b']' (trim_prefix (trim_space raw) (codes "[")) in
    if same (trim_space inner) [] then [] else gather_parts (split b',' inner)

-- The text that SaveImportantDates stores.
unfoldable pub alarms_json : List Text → Text
unfolding quote_join
alarms_json [] = codes "[\"-P1D\"]"
alarms_json (s ∷ ss) = b'[' ∷ quote_join (s ∷ ss) ++ b']' ∷ []

abbrev pub or_day_before : List Text → List Text
or_day_before [] = day_before
or_day_before (s ∷ ss) = s ∷ ss

abbrev pub is_of : ℕ → ImportantDates → Bool
is_of user r = r.user_id == user

-- GetImportantDates
unfoldable pub get_important_dates : Db → ℕ → Settings
unfolding parse_json_string_slice
get_important_dates db user = elim (find_first (is_of user) db.important) [
  | none ↦ record {
    enabled = false;
    include_birthdays = true;
    include_anniversaries = true;
    alarm_offsets = day_before;
  }
  | some r ↦ record {
    enabled = r.enabled;
    include_birthdays = r.include_birthdays;
    include_anniversaries = r.include_anniversaries;
    alarm_offsets = or_day_before (parse_json_string_slice r.alarm_offsets_json);
  }
]

-- The row that SaveImportantDates writes.
abbrev pub settings_row : ℕ → Settings → ImportantDates
settings_row user s = record {
  user_id = user;
  enabled = s.enabled;
  include_birthdays = s.include_birthdays;
  include_anniversaries = s.include_anniversaries;
  alarm_offsets_json = alarms_json s.alarm_offsets;
}

-- SaveImportantDates; a user that does not exist breaks the foreign key.
unfoldable pub save_important_dates : ℕ → Settings → Db → Result (Unit {0}) × Db
unfolding alarms_json
save_important_dates user s db =
    if any (is_of user) db.important
    then (
      ok tt,
      record db {
        important =
            update_where (is_of user) (λ (r : ImportantDates). settings_row user s) db.important;
      },
    )
    else if not (any (is_user user) db.users)
    then (err constraint, db)
    else (ok tt, record db { important = db.important ++ settings_row user s ∷ [] })
