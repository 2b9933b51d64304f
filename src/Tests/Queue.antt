-- ===== src/Tests/Queue.antt =====
-- A run of the queue of internal/usecase/audit/service.go: an event whose first two tries fail, and
-- one that is logged between them, after which the context is cancelled.
use cloud_zero_knowledge_sto.Base.{
  ◌+◌, ◌*◌, ◌≤◌, true, false, none, [], ◌∷◌, ◌++◌, ◌≡◌, refl, length, List, Bool, arith,
}
use cloud_zero_knowledge_sto.Store.{AuditEvent}
use cloud_zero_knowledge_sto.Audit.{
  AuditLog, new_service, log_async, work, Run, starts, logs, works, cancels,
}
use cloud_zero_knowledge_sto.Audit.Delivery.{in_hand, IsAccounted, accounts-Run, table-Run}
use cloud_zero_knowledge_sto.Audit.Shutdown.{work_all, has_exited, IsStopped, work_all-IsStopped}

abbrev event : AuditEvent
event = record {
  id = 0;
  user_id = 1;
  event_type = [];
  ip_address = [];
  user_agent = [];
  resource_id = none;
  resource_name = [];
  created_at = 0;
}

abbrev second_event : AuditEvent
second_event = record event { id = 1 }

abbrev taken : AuditLog
taken = work false false (log_async event new_service)

abbrev tried_twice : AuditLog
tried_twice = work false false (log_async second_event (work false false taken))

abbrev cancelled : AuditLog
cancelled = record tried_twice { cancelled = true }

cancelled-Run : Run (event ∷ second_event ∷ []) (event ∷ second_event ∷ []) cancelled
unfolding work
cancelled-Run = cancels (
    works false false
      (logs second_event (works false false (works false false (logs event starts)))))

accounts-Run_example : IsAccounted (event ∷ second_event ∷ []) (event ∷ second_event ∷ []) cancelled
accounts-Run_example =
    accounts-Run (event ∷ second_event ∷ []) (event ∷ second_event ∷ []) cancelled cancelled-Run

gave_up_none : cancelled.gave_up ≡ []
unfolding work
gave_up_none = refl

table-Run_example :
    cancelled.table ++ (in_hand cancelled.worker ++ cancelled.queue) ≡ event ∷ second_event ∷ []
table-Run_example =
    table-Run (event ∷ second_event ∷ []) (event ∷ second_event ∷ []) cancelled cancelled-Run
      gave_up_none

-- The third try fails too, the second event is written.
abbrev answers : List (Bool × Bool)
answers =
    (false, false)
    ∷ (false, false)
    ∷ (false, true)
    ∷ (true, true)
    ∷ (true, true)
    ∷ (true, true)
    ∷ (true, true)
    ∷ (true, true)
    ∷ (true, true)
    ∷ []

is_working : has_exited cancelled.worker ≡ false
unfolding work
is_working = refl

are_enough : 4 * length cancelled.queue + 5 ≤ length answers
unfolding work
are_enough = omega arith

work_all-IsStopped_example : IsStopped (event ∷ second_event ∷ []) (work_all answers cancelled)
work_all-IsStopped_example =
    work_all-IsStopped (event ∷ second_event ∷ []) (event ∷ second_event ∷ []) cancelled answers
      cancelled-Run refl is_working are_enough

gives_up_first : (work_all answers cancelled).gave_up ≡ event ∷ []
unfolding work work_all
gives_up_first = refl
