-- ===== src/Storage/Audit.antt =====
-- The audit log: Audit and ListAudit of src/svc/internal/storage/ops.go.
use dcalcon.Base.{ℕ, ◌+◌, ◌||◌, List, [], ◌∷◌, ◌++◌, Text, sort_by, take, ltb, leb, if◌then◌else◌}
use dcalcon.Storage.{AuditEntry, Db}

-- Audit; an error of the statement is dropped, and none arises from the table's constraints.
unfoldable pub audit : ℕ → Text → Text → Text → Db → Db
audit actor_id actor action detail db = record db {
  audit_log =
      db.audit_log
      ++ record {
        id = db.next_entry;
        actor_id = actor_id;
        actor = actor;
        action = action;
        detail = detail;
      }
        ∷ [];
  next_entry = db.next_entry + 1;
}

-- ListAudit; a limit below 0 counts as 0.
unfoldable pub list_audit : Db → ℕ → List AuditEntry
list_audit db limit =
    let n = if leb limit 0 || ltb 500 limit then 100 else limit in
    take n (sort_by (λ (a b : AuditEntry). ltb b.id a.id) db.audit_log)
