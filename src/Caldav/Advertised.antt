-- ===== src/Caldav/Advertised.antt =====
-- What a client is told about a calendar: privilegeXML of src/svc/internal/davext/acl.go,
-- componentSetXML of src/svc/internal/davext/inject.go and normalizeColor of
-- src/svc/internal/davext/mkcalendar.go.
pub mod Agrees
use dcalcon.Base.{
  Bool, true, false, not, ◌&&◌, ◌||◌, List, [], ◌∷◌, ◌++◌, Text, codes, same, has_prefix,
  trim_space, if◌then◌else◌,
}
use dcalcon.Storage.{Kind, inbox, important_dates, Calendar}
use dcalcon.Storage.Calendars.{is_scheduling, is_important_dates, can_write, is_owner}

-- The names in the order in which privilegeXML writes them.
abbrev pub reading : List Text
reading = codes "read" ∷ codes "read-acl" ∷ []

abbrev pub writing : List Text
writing =
    codes "read"
    ∷ codes "write"
    ∷ codes "write-properties"
    ∷ codes "write-content"
    ∷ codes "bind"
    ∷ codes "unbind"
    ∷ codes "read-acl"
    ∷ []

abbrev pub is_inbox : Kind → Bool
is_inbox inbox = true
is_inbox _ = false

unfoldable pub privileges : Calendar → List Text
privileges c =
    if is_important_dates c.kind || (c.read_only && not (is_inbox c.kind))
    then reading
    else if is_inbox c.kind
    then codes "read" ∷ codes "unbind" ∷ codes "read-acl" ∷ []
    else if not (can_write c)
    then reading
    else if is_owner c
    then writing ++ codes "write-acl" ∷ []
    else writing

unfoldable pub write_privileges : List Text → Text
write_privileges [] = []
write_privileges (name ∷ names) =
    codes "<D:privilege><D:" ++ (name ++ (codes "/></D:privilege>" ++ write_privileges names))

-- privilegeXML
unfoldable pub privilege_xml : Calendar → Text
unfolding privileges write_privileges
privilege_xml c = write_privileges (privileges c)

-- comps
unfoldable pub components : Kind → List Text
components kind =
    if is_scheduling kind
    then codes "VEVENT" ∷ codes "VTODO" ∷ codes "VFREEBUSY" ∷ []
    else codes "VEVENT" ∷ codes "VTODO" ∷ []

unfoldable pub write_components : List Text → Text
write_components [] = []
write_components (name ∷ names) =
    codes "<C:comp name=\"" ++ (name ++ (codes "\"/>" ++ write_components names))

-- componentSetXML
unfoldable pub component_set_xml : Kind → Text
unfolding components write_components
component_set_xml kind =
    codes "<C:supported-calendar-component-set xmlns:C=\"urn:ietf:params:xml:ns:caldav\">"
    ++ (write_components (components kind) ++ codes "</C:supported-calendar-component-set>")

-- normalizeColor
unfoldable pub normalize_color : Text → Text
normalize_color s =
    let t = trim_space s in
    if same t [] then [] else if has_prefix t (codes "#") then t else b'#' ∷ t
