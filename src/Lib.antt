-- ===== src/Lib.antt =====
-- dcalcon is a server for calendars and contacts over CalDAV and CardDAV. This library models the
-- core of its Go code under src/svc/internal and proves what keeps clients and server in step.
--
-- The parts, and where they are modelled:
-- src/svc/internal/storage/dav.go and src/svc/internal/storage/shares.go, the statements on the
-- SQLite database. Storage has the tables as lists of rows (Db). Storage/Changes has the change
-- log and the sync tokens (recordChange, LatestChangeID, ChangesSince, SyncToken, ParseSyncToken);
-- Storage/Calendars the calendars and what a user sees of them (CalendarBySlug, ListCalendars,
-- CreateCalendar, ...); Storage/Objects the calendar objects (UpsertCalendarObject,
-- DeleteCalendarObject, ...); Storage/Shares the sharing (UpsertShare, ReplaceShares, ...);
-- Storage/Books the address books and contacts; Storage/Schedule the schedule inbox. An operation
-- is a function of the database, with a Result where the code returns an error. A write of an
-- object changes three tables: the objects, the log, and the ctag and token of the calendar.
-- src/svc/internal/davpath/paths.go: Davpath, the paths of collections and objects and the slugs.
-- src/svc/internal/davext/wrap.go (parseCollection) and src/svc/internal/davext/sync.go: Davext
-- and Davext/Sync, the REPORT sync-collection, which reads a collection and the log and answers
-- with members and a token.
-- src/svc/internal/caldav/backend.go (calendarWriteError, componentAllowed) and
-- src/svc/internal/davcond/davcond.go: Caldav. privilegeXML, componentSetXML and normalizeColor of
-- src/svc/internal/davext (acl.go, inject.go, mkcalendar.go): Caldav/Advertised.
-- src/svc/internal/ratelimit/ratelimit.go: Ratelimit, the limiter of failed logins; Held
-- follows a lock through later calls.
-- src/svc/internal/schedule/identity.go: Identity, whom a local calendar address names.
-- src/svc/internal/httpx/clientip.go: Clientip, the address of a client behind proxies.
-- src/svc/internal/storage/users.go, app_passwords.go and recovery.go, the accounts. Storage/Users
-- has the table of users, Storage/Provision the collections that a new user gets, Storage/Dates the
-- settings for important dates, Storage/Sessions the sessions, Storage/AppPasswords the login of a
-- CalDAV client (with the restore of app passwords of user_backup.go), Storage/Recovery the tokens
-- that reset a password, Storage/Audit the log of ops.go, Storage/OauthStates the pending sign-ins
-- of accounts.go, and Storage/Purge the removal of expired rows (purge.go).
-- src/svc/internal/auth/auth.go: Auth, which composes them with the limiter (Basic) and the
-- sessions (SessionOrBearer). src/svc/internal/otp/otp.go: Otp, the one-time codes.
-- src/svc/internal/api: Api, the rules of validate.go, and the handlers in Api/Admin (admin.go),
-- Api/Login (login, logout, authenticateLogin, resetWithTOTP), Api/Totp (totp.go), Api/Recovery
-- (recovery.go) and Api/Account (patchMe, changePassword, revokeSessions, app_passwords.go). A
-- handler is a function of the decoded request and the database that gives a reply and the
-- database it leaves.
-- encoding/hex: Hex. strconv's FormatInt and ParseInt: Decimal. Base has the Go and SQL operations
-- on texts and lists that the code uses. A text is a list of code points. Tests has concrete runs.
--
-- Conventions. A number is a natural number; ids are rowids, from 1. int64 is bounded where a text
-- is parsed (max_int64), and theorems on tokens and slugs have that bound as a condition. Times are
-- arguments. Unicode's case mapping outside ASCII is the argument `table` or `folding`; the
-- ConditionalMatch of go-webdav, package net and Go's order over a map are arguments too, as are
-- bcrypt, SHA-256, HMAC-SHA1, base32, AES-GCM and net/mail's address parser (Crypto in Api). The
-- clock is nanoseconds; a stored time is the milliseconds that its text has, or the seconds in
-- table oauth_states. All recursion is on lists, but for the digits of a number n, for which n + 1
-- steps of fuel are enough.
--
-- Storage/Objects/Keeps and Writes carry invariants from single statements to sequences of calls;
-- Tracking and InStep relate the objects to the log; Unique, UniqueUid and Numbered are the
-- invariants; Davext/Sync/Etags and Converge follow a client that applies the reports.
--
-- Two requests that run at the same time are modelled only in handleSync and in the limiter: a
-- function of the database is one step, also where its statements are in no transaction, as in
-- CreateAppPassword and adminPatchUser.
--
-- Not modelled: errors of the disk, the driver and the XML encoder, transactions of callers, the
-- rest of the JSON API, attachments, webcal tokens, mail accounts, recurrences and iTIP, mail,
-- backups but for app passwords, the CardDAV handlers, and the branch of an address book in handleSync, which is the
-- argument `book`, and package secret, whose Seal and Open are arguments.
pub mod Base
pub mod Decimal
pub mod Davpath
pub mod Storage
pub mod Davext
pub mod Ratelimit
pub mod Caldav
pub mod Identity
pub mod Clientip
mod Tests
pub mod Auth
pub mod Otp
pub mod Api
pub mod Hex
