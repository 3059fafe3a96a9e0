-- ===== src/Store/Audit/Paging.antt =====
-- Reading the audit trail page by page (server/internal/store/audit.go).
use kubby.Prelude.{ℕ, zero, suc, ◌+◌, pos, List, [], ◌++◌}
use kubby.Store.Models.{AuditEvent}
use kubby.Store.Db.{Db, Result, ok, err}
use kubby.Store.Audit.{AuditFilter, list}

abbrev pub shown : Result (List AuditEvent) → List AuditEvent
shown (ok events) = events
shown (err e) = []

-- What so many requests show, each for the page behind that of the one before.
abbrev pub pages : AuditFilter → ℕ → ℕ → ℕ → Db → List AuditEvent
pages f n zero o db = []
pages f n (suc k) o db =
    let (page, db') = list (record f { limit = pos n; offset = pos o }) db in
    shown page ++ pages f n k (o + n) db'
