-- ===== src/Audit/Shutdown.antt =====
-- The drain of the worker of internal/usecase/audit/service.go once its context is cancelled.
use cloud_zero_knowledge_sto.Base.{
  ℕ, suc, ◌+◌, ◌-◌, ◌*◌, ◌≤◌, ◌<◌, Bool, true, false, ◌&&◌, ◌||◌, List, [], ◌∷◌, ◌++◌, ◌≡◌, refl,
  sym, ap, ◌∙◌, arith, inl, inr, ltb, Bool-cases, is_empty, length, ⊤,
}
use cloud_zero_knowledge_sto.Store.{AuditEvent}
use cloud_zero_knowledge_sto.Audit.{
  Worker, serving, draining, exited, retrying, AuditLog, resume, insert_with_retry, receive,
  work_from, work, Run, works,
}
use cloud_zero_knowledge_sto.Audit.Delivery.{Merged, in_hand, IsAccounted, accounts-Run}

-- The steps of the worker, one for each pair of answers, with no event logged in between.
unfoldable pub work_all : List (Bool × Bool) → AuditLog → AuditLog
work_all [] s = s
work_all (answer ∷ answers) s = work_all answers (work answer.0 answer.1 s)

abbrev pub has_exited : Worker → Bool
has_exited exited = true
has_exited _ = false

abbrev back : Bool → ℕ
back true = 1
back false = 2

-- How many steps a cancelled worker takes at most, with so many events in the queue.
abbrev cost_of : Worker → ℕ → ℕ
cost_of serving n = 2 + 4 * n
cost_of draining n = 1 + 4 * n
cost_of (retrying drain x tries) n = suc (2 - tries) + (back drain + 4 * n)
cost_of exited n = 0

abbrev cost : AuditLog → ℕ
cost s = cost_of s.worker (length s.queue)

-- A worker that has returned has left nothing.
abbrev HasDrained : Worker → List AuditEvent → Type 0
HasDrained exited queue = queue ≡ []
HasDrained _ queue = ⊤

-- A step of a cancelled worker, from `n` more steps at most.
record IsStep (n : ℕ) (s : AuditLog) : Type 0 where
  cancelled : s.cancelled ≡ true
  drained : HasDrained s.worker s.queue
  lower : cost s ≤ n - 1

resume_cost : (drain : Bool) (n : ℕ) → cost_of (resume drain) n ≡ back drain + 4 * n
resume_cost true n = refl
resume_cost false n = refl

resume_drained : (drain : Bool) (queue : List AuditEvent) → HasDrained (resume drain) queue
resume_drained true queue = tt
resume_drained false queue = tt

module _ (s : AuditLog) (stop : s.cancelled ≡ true) where
  try-IsStep :
      (done drain : Bool) (x : AuditEvent) (tries : ℕ)
      → IsStep
          (cost_of (retrying drain x tries) (length s.queue))
          (insert_with_retry done drain x tries s)
  try-IsStep done drain x tries = elim (Bool-cases done) [
    | inl written ↦ rw written (record {
      cancelled = stop;
      drained = resume_drained drain s.queue;
      lower = omega (arith, resume_cost drain (length s.queue));
    })
    | inr failed ↦ elim (Bool-cases (ltb (suc tries) 3)) [
      | inl again ↦
          rw (failed, again)
            (record {
              cancelled = stop;
              drained = tt;
              lower = (let few : suc tries < 3 = ground (arith, again) in omega (arith, few));
            })
      | inr last ↦
          rw (failed, last)
            (record {
              cancelled = stop;
              drained = resume_drained drain s.queue;
              lower = omega (arith, resume_cost drain (length s.queue));
            })
    ]
  ]

  drain-IsStep :
      (queue : List AuditEvent)
      → s.queue ≡ queue
      → IsStep (1 + 4 * length queue) (receive true queue (record s { worker = exited }) s)
  drain-IsStep [] at = record { cancelled = stop; drained = at; lower = omega arith }
  drain-IsStep (x ∷ rest) at = record { cancelled = stop; drained = tt; lower = omega arith }

  serve-IsStep :
      (picks_done : Bool) (queue : List AuditEvent)
      → (picks_done || is_empty queue) ≡ false
      → IsStep (2 + 4 * length queue) (receive false queue s s)
  serve-IsStep true [] busy = absurd cc
  serve-IsStep false [] busy = absurd cc
  serve-IsStep picks_done (x ∷ rest) busy = record {
    cancelled = stop;
    drained = tt;
    lower = omega arith;
  }

  work-IsStep :
      (at : Worker) (picks_done done : Bool)
      → s.worker ≡ at
      → HasDrained at s.queue
      → IsStep (cost_of at (length s.queue)) (work_from at picks_done done s)
  work-IsStep serving picks_done done at h = elim (Bool-cases (picks_done || is_empty s.queue)) [
    | inl stops ↦
        let both : (s.cancelled && (picks_done || is_empty s.queue)) ≡ true = rw stop stops in
        rw both (record { cancelled = stop; drained = tt; lower = omega arith })
    | inr busy ↦
        let none : (s.cancelled && (picks_done || is_empty s.queue)) ≡ false = rw stop busy in
        rw none (serve-IsStep picks_done s.queue busy)
  ]
  work-IsStep draining picks_done done at h = drain-IsStep s.queue refl
  work-IsStep (retrying drain x tries) picks_done done at h = try-IsStep done drain x tries
  work-IsStep exited picks_done done at h = record {
    cancelled = stop;
    drained = rw at h;
    lower = rw at (omega arith);
  }

work_all-IsStep :
    (answers : List (Bool × Bool)) (n : ℕ) (s : AuditLog)
    → IsStep (suc n) s
    → n ≤ length answers
    → IsStep 1 (work_all answers s)
unfolding work_all work
work_all-IsStep [] n s h enough = record {
  cancelled = h.cancelled;
  drained = h.drained;
  lower = omega (arith, h.lower, enough);
}
work_all-IsStep (answer ∷ answers) n s h enough =
    let next = work-IsStep s h.cancelled s.worker answer.0 answer.1 refl h.drained in
    work_all-IsStep answers (n - 1) _
      (record {
        cancelled = next.cancelled;
        drained = next.drained;
        lower = omega (arith, next.lower, h.lower);
      })
      (omega (arith, enough))

work_all-Run :
    (answers : List (Bool × Bool)) (all taken : List AuditEvent) (s : AuditLog)
    → Run all taken s
    → Run all taken (work_all answers s)
unfolding work_all
work_all-Run [] all taken s r = r
work_all-Run (answer ∷ answers) all taken s r =
    work_all-Run answers all taken _ (works answer.0 answer.1 r)

-- The worker has returned, nothing waits or is held, and what the queue took in was, in its order,
-- written once or given up once.
pub record IsStopped (taken : List AuditEvent) (s : AuditLog) : Type 0 where
  pub worker : s.worker ≡ exited
  pub queue : s.queue ≡ []
  pub finished : Merged s.table s.gave_up taken

append_nil : (xs : List AuditEvent) → xs ++ [] ≡ xs
append_nil [] = refl
append_nil (x ∷ xs) = ap (λ l. x ∷ l) (append_nil xs)

stopped_lem :
    (all taken : List AuditEvent) (s : AuditLog) (at : Worker)
    → s.worker ≡ at
    → cost_of at (length s.queue) ≡ 0
    → HasDrained at s.queue
    → IsAccounted all taken s
    → IsStopped taken s
stopped_lem all taken s serving at none h x = absurd (omega (arith, none))
stopped_lem all taken s draining at none h x = absurd (omega (arith, none))
stopped_lem all taken s (retrying drain y tries) at none h x = absurd (omega (arith, none))
stopped_lem all taken s exited at none h x =
    let all_served : x.served ≡ taken =
      sym (append_nil x.served)
      ∙ ap (λ l. x.served ++ l) (sym (ap (λ w. in_hand w ++ s.queue) at ∙ h))
      ∙ x.pending in
    record { worker = at; queue = h; finished = rw (← all_served) x.finished }

still_drained :
    (at : Worker) (queue : List AuditEvent) → has_exited at ≡ false → HasDrained at queue
still_drained serving queue h = tt
still_drained draining queue h = tt
still_drained (retrying drain x tries) queue h = tt
still_drained exited queue h = absurd cc

cost_bound : (at : Worker) (n : ℕ) → cost_of at n ≤ 4 * n + 5
cost_bound serving n = omega arith
cost_bound draining n = omega arith
cost_bound (retrying true x tries) n = omega arith
cost_bound (retrying false x tries) n = omega arith
cost_bound exited n = omega arith

-- In every run, once the context is cancelled and before the worker has returned: whatever the
-- select picks and whichever tries fail, after 4 steps of the worker for each event that waits and 5
-- more, with nothing logged in between, the worker has returned with an empty queue, and every event
-- that the queue took in was, in its order, written to the table once or given up once. An insert
-- that fails is taken to have written nothing.
pub work_all-IsStopped :
    (all taken : List AuditEvent) (s : AuditLog) (answers : List (Bool × Bool))
    → Run all taken s
    → s.cancelled ≡ true
    → has_exited s.worker ≡ false
    → 4 * length s.queue + 5 ≤ length answers
    → IsStopped taken (work_all answers s)
work_all-IsStopped all taken s answers r stop working enough =
    let s' = work_all answers s in
    let last =
      work_all-IsStep answers (cost s) s
        (record {
          cancelled = stop;
          drained = still_drained s.worker s.queue working;
          lower = omega arith;
        })
        (omega (arith, cost_bound s.worker (length s.queue), enough)) in
    stopped_lem all taken s' s'.worker refl (omega (arith, last.lower)) last.drained
      (accounts-Run all taken s' (work_all-Run answers all taken s r))
