-- ===== src/Caldav/Advertised/Agrees.antt =====
-- What a client is told about a calendar, and what the server then allows.
use dcalcon.Base.{
  ℕ, Bool, true, false, not, is_some, all, any, Text, codes, same, to_upper, trim_space, ◌≡◌, ◌∙◌,
  sym, arith,
}
use dcalcon.Storage.{Kind, Calendar, ok, Db}
use dcalcon.Storage.Calendars.{is_scheduling, can_write, is_owner, calendar_by_slug}
use dcalcon.Caldav.{calendar_write_error, component_allowed}
use dcalcon.Caldav.Rights.{has_real_access, calendar_write_error-can_write}
use dcalcon.Caldav.Advertised.{privileges, components}

abbrev offers : Text → Calendar → Bool
offers name c = any (λ p. same p name) (privileges c)

write_content-can_write :
    (c : Calendar) → is_scheduling c.kind ≡ false → offers (codes "write-content") c ≡ can_write c
unfolding privileges any same can_write is_owner
write_content-can_write c k = ground arith

-- For a calendar that CalendarBySlug finds for a user and that is not an inbox or an outbox,
-- privilegeXML names the privilege write-content exactly when calendarWriteError has no error for a
-- write that is no deletion, where every share is to read or to write.
pub privileges-calendar_write_error :
    (db : Db) (user : ℕ) (slug : Text) (c : Calendar)
    → all has_real_access db.shares ≡ true
    → calendar_by_slug db user slug ≡ ok c
    → is_scheduling c.kind ≡ false
    → offers (codes "write-content") c ≡ not (is_some (calendar_write_error c false))
privileges-calendar_write_error db user slug c real found kind =
    write_content-can_write c kind
    ∙ sym (calendar_write_error-can_write db user slug c real found kind)

-- componentAllowed accepts a component, but for case and outer white space, exactly when
-- componentSetXML lists it for the kind of calendar.
pub component_allowed-components :
    (table : ℕ → ℕ) (kind : Kind) (comp : Text)
    → component_allowed table kind comp
      ≡ any (λ name. same (to_upper table (trim_space comp)) name) (components kind)
unfolding component_allowed components any
component_allowed-components table kind comp = ground arith
