-- ===== src/Meta/Audit.antt =====
-- internal/auditsink/sink.go with `SaveAuditEvent` of internal/repository/postgres.go: what the sink
-- does with the messages that it fetches, one after another. `decode` is `json.Unmarshal` into an
-- event, `marshal_metadata` is JSON; fetching, waiting and logging are left out.
pub mod Once
mod Tests
use n.Base.{
  ◌≡◌, refl, sym, ap, ◌∙◌, ℕ, Bool, true, false, not, ◌&&◌, ◌||◌, List, [], ◌∷◌, All, Option, none,
  some, Bytes, codes, eq, eq_iff, eq_refl, contains, if◌then◌else◌, Bool-cases, inl, inr, arith,
}
use n.Job.Backend.{Error, wrap, Result, ok, err}
use n.Worker.Value.{Fields}
use n.Worker.Pool.{Answer, terminated, retried, acknowledged}
use n.Meta.Postgres.{Cell, str, json, bool, time, Database}

pub record Event : Type 0 where
  pub id : Bytes
  pub tenant_id : Bytes
  pub actor_id : Bytes
  pub action : Bytes
  pub resource_type : Bytes
  pub resource_id : Bytes
  pub success : Bool
  pub error_message : Bytes
  pub metadata : Fields
  pub occurred_at : ℕ

unfoldable pub insert_audit_event : Bytes
insert_audit_event =
    codes
      "INSERT INTO audit_events (id, tenant_id, actor_id, action, resource_type, resource_id, success, error_message, metadata, occurred_at) VALUES ($1, $2, NULLIF($3, ''), $4, $5, NULLIF($6, ''), $7, NULLIF($8, ''), $9, $10) ON CONFLICT (id) DO NOTHING"

abbrev pub cells_of : Event → Bytes → List Cell
cells_of e metadata =
    str e.id
    ∷ str e.tenant_id
    ∷ str e.actor_id
    ∷ str e.action
    ∷ str e.resource_type
    ∷ str e.resource_id
    ∷ bool e.success
    ∷ str e.error_message
    ∷ json metadata
    ∷ time e.occurred_at
    ∷ []

module _ (db : Database) (decode : Bytes → Option Event)
    (marshal_metadata : Fields → Result Bytes) where
  abbrev pub inserted : Result ℕ × db.State → Option Error × db.State
  inserted (err e, s) = (some (wrap (codes "insert audit event") e), s)
  inserted (ok k, s) = (none, s)

  abbrev pub saved_with : Event → db.State → Result Bytes → Option Error × db.State
  saved_with e s (err x) = (some (wrap (codes "marshal audit metadata") x), s)
  saved_with e s (ok metadata) = inserted (db.exec insert_audit_event (cells_of e metadata) s)

  -- `SaveAuditEvent`.
  unfoldable pub save_audit_event : Event → db.State → Option Error × db.State
  save_audit_event e s = saved_with e s (marshal_metadata e.metadata)

  abbrev pub answered : Option Error × db.State → Answer × db.State
  answered (some e, s) = (retried, s)
  answered (none, s) = (acknowledged, s)

  abbrev pub with_event : db.State → Option Event → Answer × db.State
  with_event s none = (terminated, s)
  with_event s (some e) = answered (save_audit_event e s)

  -- The body of the loop over the messages.
  unfoldable pub handle_message : Bytes → db.State → Answer × db.State
  handle_message payload s = with_event s (decode payload)

  -- A batch, and the batches after it.
  unfoldable pub handle_messages : List Bytes → db.State → db.State
  handle_messages [] s = s
  handle_messages (payload ∷ rest) s = handle_messages rest (handle_message payload s).1

  -- The ID of an acknowledged event.
  abbrev pub acknowledged_id : Option Event → Answer → List Bytes
  acknowledged_id (some e) acknowledged = e.id ∷ []
  acknowledged_id (some e) retried = []
  acknowledged_id (some e) terminated = []
  acknowledged_id none answer = []
