-- ===== src/Repositories/AuditLog.antt =====
-- app/repositories/audit_log.py: the administrator's listing. The writes are `Services/Audit`.
use paycore_backend.Base.{
  ℕ, String, Bool, true, ◌&&◌, Option, none, some, List, points_to, str_eq, leb,
}
use paycore_backend.Base.Table.{select, take, drop, length}
use paycore_backend.Models.Rows.{AuditLog}
use paycore_backend.Database.{Db}

pub record AuditFilter : Type 0 where
  pub actor_id : Option ℕ
  pub action : Option String
  pub from_date : Option ℕ
  pub to_date : Option ℕ

abbrev actor_matches : Option ℕ → AuditLog → Bool
actor_matches none e = true
actor_matches (some i) e = points_to e.actor_id i

abbrev action_matches : Option String → AuditLog → Bool
action_matches none e = true
action_matches (some action) e = str_eq e.action action

abbrev since : Option ℕ → AuditLog → Bool
since none e = true
since (some from_date) e = leb from_date e.created_at

abbrev until : Option ℕ → AuditLog → Bool
until none e = true
until (some to_date) e = leb e.created_at to_date

abbrev pub entry_matches : AuditFilter → AuditLog → Bool
entry_matches f e =
    actor_matches f.actor_id e
    && (action_matches f.action e && (since f.from_date e && until f.to_date e))

-- Newest first, as the table is kept.
unfoldable pub list_entries : AuditFilter → ℕ → ℕ → Db → List AuditLog
list_entries f limit offset db = take limit (drop offset (select (entry_matches f) db.audit_logs))

unfoldable pub count_entries : AuditFilter → Db → ℕ
count_entries f db = length (select (entry_matches f) db.audit_logs)
