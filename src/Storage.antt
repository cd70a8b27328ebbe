-- ===== src/Storage.antt =====
-- The tables of the SQLite database (src/svc/internal/storage/migrations) as the queries of
-- src/svc/internal/storage see them: one list of rows for each table, and the
-- next identifier that AUTOINCREMENT gives out. A row is appended when it is inserted. A NULL text
-- is the empty text, as each query reads it by COALESCE. The only statement that fails is one that
-- breaks a constraint; an error of the disk or of the driver is outside the model.
pub mod Changes
pub mod Calendars
pub mod Objects
pub mod Shares
pub mod Books
pub mod Schedule
pub mod Provision
pub mod Users
pub mod Dates
pub mod Sessions
pub mod AppPasswords
pub mod Recovery
pub mod OauthStates
pub mod Purge
pub mod Audit
use dcalcon.Base.{ℕ, Text, List, Bool, Option, ◌≡◌, refl, ◌⊎◌, inl, inr}

-- CHECK (kind IN (...)) of table calendars.
pub data Kind : Type 0 where
  personal important_dates inbox outbox shared : Kind

-- Calendar.Access: "", "owner", "read" or "write".
pub data Access : Type 0 where
  unset owner read write : Access

-- dav_changes.kind
pub data Collection : Type 0 where
  calendar addressbook : Collection

pub data Error : Type 0 where
  not_found conflict reserved_slug bad_access constraint unauthorized password_too_long : Error

pub data Result {ℓ} (A : Type ℓ) : Type ℓ where
  ok : A → Result A
  err : Error → Result A

pub Result-cases {ℓ} :
    {A : Type ℓ} (r : Result A) → ((e : Error) × (r ≡ err e)) ⊎ ((a : A) × (r ≡ ok a))
Result-cases (ok a) = inr (a, refl)
Result-cases (err e) = inl (e, refl)

-- CHECK (role IN (...)) of table users.
pub data Role : Type 0 where
  role_admin role_user : Role

-- A row of table users but its times; the status is active or disabled. The struct User has the
-- columns that are not secret.
pub record User : Type 0 where
  pub id : ℕ
  pub username : Text
  pub email : Text
  pub display_name : Text
  pub role : Role
  pub is_active : Bool
  pub timezone : Text
  pub password_hash : Text
  pub totp_secret : Text
  pub totp_pending : Text
  pub totp_enabled : Bool

-- A row of table calendars.
pub record CalendarRow : Type 0 where
  pub id : ℕ
  pub user_id : ℕ
  pub slug : Text
  pub name : Text
  pub description : Text
  pub color : Text
  pub timezone : Text
  pub kind : Kind
  pub read_only : Bool
  pub ctag : ℕ
  pub sync_token : Text
  pub updated_at : Text

-- The struct Calendar, which a query fills from a row and, for a shared calendar, from the owner's
-- row and the share.
pub record Calendar : Type 0 where
  pub row : CalendarRow
  pub open row use *
  pub owner_username : Text
  pub is_shared : Bool
  pub access : Access

-- The columns that UpsertCalendarObject is given.
pub record ObjectData : Type 0 where
  pub href : Text
  pub uid : Text
  pub etag : Text
  pub component : Text
  pub ics : Text
  pub dtstart : Text
  pub dtend : Text
  pub summary : Text

-- A row of table calendar_objects.
pub record CalendarObject : Type 0 where
  pub id : ℕ
  pub calendar_id : ℕ
  pub fields : ObjectData
  pub open fields use *
  pub updated_at : Text

-- A row of table calendar_shares; the access is read or write.
pub record Share : Type 0 where
  pub id : ℕ
  pub calendar_id : ℕ
  pub grantee_id : ℕ
  pub access : Access

-- A row of table dav_changes.
pub record Change : Type 0 where
  pub id : ℕ
  pub kind : Collection
  pub collection_id : ℕ
  pub href : Text
  pub deleted : Bool

-- A row of table addressbooks.
pub record AddressBook : Type 0 where
  pub id : ℕ
  pub user_id : ℕ
  pub slug : Text
  pub name : Text
  pub description : Text
  pub read_only : Bool
  pub ctag : ℕ
  pub sync_token : Text
  pub updated_at : Text

-- The columns that UpsertAddressObject is given.
pub record ContactData : Type 0 where
  pub href : Text
  pub uid : Text
  pub etag : Text
  pub vcard : Text
  pub full_name : Text
  pub bday : Text
  pub anniversary : Text

-- A row of table address_objects.
pub record AddressObject : Type 0 where
  pub id : ℕ
  pub book_id : ℕ
  pub fields : ContactData
  pub open fields use *
  pub updated_at : Text

-- schedule_items.collection
pub data Box : Type 0 where
  in_box out_box : Box

-- schedule_items.status
pub data Status : Type 0 where
  pending accepted declined cancelled processed : Status

-- A row of table schedule_items.
pub record ScheduleItem : Type 0 where
  pub id : ℕ
  pub user_id : ℕ
  pub box : Box
  pub method : Text
  pub uid : Text
  pub organizer : Text
  pub attendee : Text
  pub status : Status
  pub ics : Text

-- A row of table sessions. A time is the milliseconds that the column's text has.
pub record Session : Type 0 where
  pub id : Text
  pub user_id : ℕ
  pub expires_at : ℕ

-- A row of table app_passwords but its time created_at.
pub record AppPassword : Type 0 where
  pub id : ℕ
  pub user_id : ℕ
  pub name : Text
  pub prefix : Text
  pub password_hash : Text
  pub last_used_at : Option ℕ

-- A row of table password_reset_tokens.
pub record PasswordReset : Type 0 where
  pub id : ℕ
  pub user_id : ℕ
  pub token_hash : Text
  pub expires_at : ℕ
  pub used_at : Option ℕ

-- OAuthState, of src/svc/internal/storage/accounts.go, a row of table oauth_states. The time is the
-- seconds of the text that src/svc/internal/api/mail.go writes.
pub record OauthState : Type 0 where
  pub state : Text
  pub user_id : ℕ
  pub provider : Text
  pub origin : Text
  pub code_verifier : Text
  pub expires_at : ℕ

-- recovery_outbox.delivered
pub data Delivery : Type 0 where
  logged sent error : Delivery

-- A row of table recovery_outbox; its column recovery_url is always empty.
pub record RecoveryMessage : Type 0 where
  pub id : ℕ
  pub user_id : ℕ
  pub email : Text
  pub delivered : Delivery
  pub last_error : Text

-- A row of table audit_log but its time.
pub record AuditEntry : Type 0 where
  pub id : ℕ
  pub actor_id : ℕ
  pub actor : Text
  pub action : Text
  pub detail : Text

-- A row of table important_dates_settings.
pub record ImportantDates : Type 0 where
  pub user_id : ℕ
  pub enabled : Bool
  pub include_birthdays : Bool
  pub include_anniversaries : Bool
  pub alarm_offsets_json : Text

pub record Db : Type 0 where
  pub users : List User
  pub calendars : List CalendarRow
  pub objects : List CalendarObject
  pub shares : List Share
  pub changes : List Change
  pub books : List AddressBook
  pub contacts : List AddressObject
  pub schedule : List ScheduleItem
  pub sessions : List Session
  pub app_passwords : List AppPassword
  pub resets : List PasswordReset
  pub oauth_states : List OauthState
  pub important : List ImportantDates
  pub recovery_outbox : List RecoveryMessage
  pub next_calendar : ℕ
  pub next_object : ℕ
  pub next_share : ℕ
  pub next_change : ℕ
  pub next_contact : ℕ
  pub next_item : ℕ
  pub audit_log : List AuditEntry
  pub next_user : ℕ
  pub next_book : ℕ
  pub next_app_password : ℕ
  pub next_reset : ℕ
  pub next_message : ℕ
  pub next_entry : ℕ
