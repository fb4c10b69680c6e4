-- ===== src/Services/Audit.antt =====
-- app/services/audit.py: the audit trail, written after the commit of the operation that it
-- reports. A failed write is rolled back and swallowed. `log_sync` is the same on a synchronous
-- session. The free-form `metadata` and the address of the caller are left out.
use paycore_backend.Base.{ℕ, String, Option, some, ◌∷◌, if◌then◌else◌}
use paycore_backend.Models.Rows.{ActorType, AuditLog}
use paycore_backend.Session.{Env, Action, rollback, commit, modify, uuid4, ◌>>=◌, ◌>>◌}

-- A call with any of the optional arguments.
abbrev pub write_entry :
    Env → Option ℕ → ActorType → String → Option String → Option ℕ → Action (Unit {0})
write_entry env actor_id actor_type action target_type target_id =
    if env.audit_up
    then (do
      id ← uuid4 env
      let entry : AuditLog = record {
        id = id;
        actor_id = actor_id;
        actor_type = actor_type;
        action = action;
        target_type = target_type;
        target_id = target_id;
        created_at = env.now;
      }
      modify (λ db. record db { audit_logs = entry ∷ db.audit_logs })
      commit)
    else rollback

-- With a target, as all services call it.
unfoldable pub log : Env → Option ℕ → ActorType → String → String → ℕ → Action (Unit {0})
log env actor_id actor_type action target_type target_id =
    write_entry env actor_id actor_type action (some target_type) (some target_id)
