-- ===== src/Audit.antt =====
-- The queue and the worker of internal/usecase/audit/service.go. The channel is the list of what
-- waits in it; the table is what InsertAuditEvent has written, and an insert that fails has written
-- nothing.
pub mod Delivery
pub mod Shutdown
pub mod Table
use cloud_zero_knowledge_sto.Base.{
  ℕ, suc, Bool, true, false, ◌&&◌, ◌||◌, List, [], ◌∷◌, ◌++◌, ltb, if◌then◌else◌, length, is_empty,
}
use cloud_zero_knowledge_sto.Store.{AuditEvent}

abbrev pub queue_size : ℕ
queue_size = 512

-- Where the worker stands: at the outer select, at the one that drains, in `insertWithRetry` with an
-- event and the number of tries that have failed, called from the drain or not, or returned.
pub data Worker : Type 0 where
  serving draining exited : Worker
  retrying : Bool → AuditEvent → ℕ → Worker

-- `gave_up` and `dropped` are the events of the two warnings, after three failures and on a full
-- queue. `cancelled` is the context.
pub record AuditLog : Type 0 where
  pub queue : List AuditEvent
  pub table : List AuditEvent
  pub gave_up : List AuditEvent
  pub dropped : List AuditEvent
  pub worker : Worker
  pub cancelled : Bool

abbrev pub new_service : AuditLog
new_service = record {
  queue = [];
  table = [];
  gave_up = [];
  dropped = [];
  worker = serving;
  cancelled = false;
}

abbrev pub has_room : AuditLog → Bool
has_room s = ltb (length s.queue) queue_size

-- `LogAsync`
abbrev pub log_async : AuditEvent → AuditLog → AuditLog
log_async x s =
    if has_room s
    then record s { queue = s.queue ++ x ∷ [] }
    else record s { dropped = s.dropped ++ x ∷ [] }

-- Where the worker goes on after `insertWithRetry`.
abbrev pub resume : Bool → Worker
resume true = draining
resume false = serving

-- One try of `insertWithRetry`, which has failed `tries` times, and its answer.
abbrev pub insert_with_retry : Bool → Bool → AuditEvent → ℕ → AuditLog → AuditLog
insert_with_retry done drain x tries s =
    if done
    then record s { table = s.table ++ x ∷ []; worker = resume drain }
    else if ltb (suc tries) 3
    then record s { worker = retrying drain x (suc tries) }
    else record s { gave_up = s.gave_up ++ x ∷ []; worker = resume drain }

-- `e := <-s.queue`, or what the select does with an empty queue.
abbrev pub receive : Bool → List AuditEvent → AuditLog → AuditLog → AuditLog
receive drain [] empty s = empty
receive drain (x ∷ rest) empty s = record s { queue = rest; worker = retrying drain x 0 }

-- One step of the worker. `picks_done` is what the outer select takes where both cases are ready,
-- and `done` whether a try succeeds. A worker that waits stays as it is, and so does one that has
-- returned.
abbrev pub work_from : Worker → Bool → Bool → AuditLog → AuditLog
work_from serving picks_done done s =
    if s.cancelled && (picks_done || is_empty s.queue)
    then record s { worker = draining }
    else receive false s.queue s s
work_from draining picks_done done s = receive true s.queue (record s { worker = exited }) s
work_from (retrying drain x tries) picks_done done s = insert_with_retry done drain x tries s
work_from exited picks_done done s = s

unfoldable pub work : Bool → Bool → AuditLog → AuditLog
work picks_done done s = work_from s.worker picks_done done s

-- The runs of a service from its start, with the events that were logged and those of them that the
-- queue took in. Callers log and the worker takes its steps in any order, between two tries too.
pub data Run : List AuditEvent → List AuditEvent → AuditLog → Type 0 where
  starts : Run [] [] new_service
  logs :
      {all taken : List AuditEvent} {s : AuditLog} (x : AuditEvent)
      → Run all taken s
      → Run (all ++ x ∷ []) (if has_room s then taken ++ x ∷ [] else taken) (log_async x s)
  works :
      {all taken : List AuditEvent} {s : AuditLog} (picks_done done : Bool)
      → Run all taken s
      → Run all taken (work picks_done done s)
  cancels :
      {all taken : List AuditEvent} {s : AuditLog}
      → Run all taken s
      → Run all taken (record s { cancelled = true })
