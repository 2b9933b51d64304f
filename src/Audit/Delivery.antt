-- ===== src/Audit/Delivery.antt =====
-- What becomes of the events that are logged with internal/usecase/audit/service.go.
use cloud_zero_knowledge_sto.Base.{
  ℕ, suc, Bool, true, false, ◌&&◌, ◌||◌, List, [], ◌∷◌, ◌++◌, ◌≡◌, refl, sym, ap, ◌∙◌, inl, inr,
  if◌then◌else◌, ltb, Bool-cases, is_empty,
}
use cloud_zero_knowledge_sto.Store.{AuditEvent}
use cloud_zero_knowledge_sto.Audit.{
  Worker, serving, draining, exited, retrying, AuditLog, has_room, log_async, resume,
  insert_with_retry, receive, work_from, work, Run, starts, logs, works, cancels,
}

-- `zs` is made of `xs` and `ys`: each event of it is the next one of either.
pub data Merged : List AuditEvent → List AuditEvent → List AuditEvent → Type 0 where
  nothing : Merged [] [] []
  left :
      {xs ys zs : List AuditEvent} (x : AuditEvent)
      → Merged xs ys zs
      → Merged (xs ++ x ∷ []) ys (zs ++ x ∷ [])
  right :
      {xs ys zs : List AuditEvent} (y : AuditEvent)
      → Merged xs ys zs
      → Merged xs (ys ++ y ∷ []) (zs ++ y ∷ [])

-- The event that the worker holds.
abbrev pub in_hand : Worker → List AuditEvent
in_hand (retrying drain x tries) = x ∷ []
in_hand _ = []

-- What was taken in is, in its order: what was written or given up, what the worker holds, and what
-- waits.
pub record IsAccounted (all taken : List AuditEvent) (s : AuditLog) : Type 0 where
  pub served : List AuditEvent
  pub finished : Merged s.table s.gave_up served
  pub pending : served ++ (in_hand s.worker ++ s.queue) ≡ taken
  pub offered : Merged taken s.dropped all

append_assoc : (xs ys zs : List AuditEvent) → (xs ++ ys) ++ zs ≡ xs ++ (ys ++ zs)
append_assoc [] ys zs = refl
append_assoc (x ∷ xs) ys zs = ap (λ l. x ∷ l) (append_assoc xs ys zs)

snoc_last :
    (xs ys zs : List AuditEvent) (z : AuditEvent)
    → xs ++ (ys ++ (zs ++ z ∷ [])) ≡ (xs ++ (ys ++ zs)) ++ z ∷ []
snoc_last xs ys zs z =
    ap (λ l. xs ++ l) (sym (append_assoc ys zs (z ∷ [])))
    ∙ sym (append_assoc xs (ys ++ zs) (z ∷ []))

log-IsAccounted :
    (x : AuditEvent) (all taken : List AuditEvent) (s : AuditLog)
    → IsAccounted all taken s
    → IsAccounted (all ++ x ∷ []) (if has_room s then taken ++ x ∷ [] else taken) (log_async x s)
log-IsAccounted x all taken s h = elim (Bool-cases (has_room s)) [
  | inl room ↦ rw room (record {
    served = h.served;
    finished = h.finished;
    pending = snoc_last h.served (in_hand s.worker) s.queue x ∙ ap (λ l. l ++ x ∷ []) h.pending;
    offered = left x h.offered;
  })
  | inr full ↦ rw full (record {
    served = h.served;
    finished = h.finished;
    pending = h.pending;
    offered = right x h.offered;
  })
]

module _ (all taken : List AuditEvent) (s : AuditLog) where
  -- A step that takes an event from the queue, or none.
  receive-IsAccounted :
      (drain : Bool) (queue : List AuditEvent)
      → s.queue ≡ queue
      → in_hand s.worker ≡ []
      → (empty : AuditLog) → IsAccounted all taken empty
      → IsAccounted all taken s
      → IsAccounted all taken (receive drain queue empty s)
  receive-IsAccounted drain [] at free empty kept h = kept
  receive-IsAccounted drain (x ∷ rest) at free empty kept h = record {
    served = h.served;
    finished = h.finished;
    pending = ap (λ l. h.served ++ l) (sym at ∙ ap (λ l. l ++ s.queue) (sym free)) ∙ h.pending;
    offered = h.offered;
  }

  resume_free : (drain : Bool) → in_hand (resume drain) ≡ []
  resume_free true = refl
  resume_free false = refl

  -- The event in hand is served.
  end-IsAccounted :
      (drain : Bool) (x : AuditEvent) (table gave_up : List AuditEvent)
      → in_hand s.worker ≡ x ∷ []
      → (h : IsAccounted all taken s) → Merged table gave_up (h.served ++ x ∷ [])
      → IsAccounted all taken (record s { table = table; gave_up = gave_up; worker = resume drain })
  end-IsAccounted drain x table gave_up held h finished = record {
    served = h.served ++ x ∷ [];
    finished = finished;
    pending =
        append_assoc h.served (x ∷ []) (in_hand (resume drain) ++ s.queue)
        ∙ ap (λ l. h.served ++ (x ∷ (l ++ s.queue))) (resume_free drain)
        ∙ ap (λ l. h.served ++ (l ++ s.queue)) (sym held)
        ∙ h.pending;
    offered = h.offered;
  }

  try-IsAccounted :
      (drain done : Bool) (x : AuditEvent) (tries : ℕ)
      → in_hand s.worker ≡ x ∷ []
      → IsAccounted all taken s
      → IsAccounted all taken (insert_with_retry done drain x tries s)
  try-IsAccounted drain done x tries held h = elim (Bool-cases done) [
    | inl written ↦
        rw written
          (end-IsAccounted drain x (s.table ++ x ∷ []) s.gave_up held h (left x h.finished))
    | inr failed ↦ elim (Bool-cases (ltb (suc tries) 3)) [
      | inl again ↦
          rw (failed, again)
            (record {
              served = h.served;
              finished = h.finished;
              pending = ap (λ l. h.served ++ (l ++ s.queue)) (sym held) ∙ h.pending;
              offered = h.offered;
            })
      | inr last ↦
          rw (failed, last)
            (end-IsAccounted drain x s.table (s.gave_up ++ x ∷ []) held h (right x h.finished))
    ]
  ]

  -- The worker moves on with nothing in hand.
  idle-IsAccounted :
      (to : Worker)
      → in_hand to ≡ []
      → in_hand s.worker ≡ []
      → IsAccounted all taken s
      → IsAccounted all taken (record s { worker = to })
  idle-IsAccounted to none_held free h = record {
    served = h.served;
    finished = h.finished;
    pending = ap (λ l. h.served ++ (l ++ s.queue)) (none_held ∙ sym free) ∙ h.pending;
    offered = h.offered;
  }

  pub work-IsAccounted :
      (at : Worker) (picks_done done : Bool)
      → s.worker ≡ at
      → IsAccounted all taken s
      → IsAccounted all taken (work_from at picks_done done s)
  work-IsAccounted serving picks_done done at h =
      elim (Bool-cases (s.cancelled && (picks_done || is_empty s.queue))) [
        | inl stops ↦ rw stops (idle-IsAccounted draining refl (ap in_hand at) h)
        | inr goes_on ↦ rw goes_on (receive-IsAccounted false s.queue refl (ap in_hand at) s h h)
      ]
  work-IsAccounted draining picks_done done at h =
      receive-IsAccounted true s.queue refl (ap in_hand at) (record s { worker = exited })
        (idle-IsAccounted exited refl (ap in_hand at) h) h
  work-IsAccounted (retrying drain x tries) picks_done done at h =
      try-IsAccounted drain done x tries (ap in_hand at) h
  work-IsAccounted exited picks_done done at h = h

-- In every run, each event that was logged was taken in by the queue or dropped with a warning; and
-- what was taken in is, in its order, what was written to the table once or given up once, then the
-- event that the worker holds between its tries, then what waits. An insert that fails is taken to
-- have written nothing.
pub accounts-Run :
    (all taken : List AuditEvent) (s : AuditLog) → Run all taken s → IsAccounted all taken s
unfolding work
accounts-Run all taken s starts = record {
  served = [];
  finished = nothing;
  pending = refl;
  offered = nothing;
}
accounts-Run all taken s (logs {all = all'} {taken = taken'} {s = s'} x r) =
    log-IsAccounted x all' taken' s' (accounts-Run all' taken' s' r)
accounts-Run all taken s (works {s = s'} picks_done done r) =
    work-IsAccounted all taken s' s'.worker picks_done done refl (accounts-Run all taken s' r)
accounts-Run all taken s (cancels {s = s'} r) =
    let h = accounts-Run all taken s' r in
    record { served = h.served; finished = h.finished; pending = h.pending; offered = h.offered }

snoc_not_nil : (xs : List AuditEvent) (x : AuditEvent) → xs ++ x ∷ [] ≡ [] → ⊥
snoc_not_nil [] x h = cc
snoc_not_nil (y ∷ xs) x h = cc

Merged-alone : (xs ys zs : List AuditEvent) → Merged xs ys zs → ys ≡ [] → xs ≡ zs
Merged-alone xs ys zs nothing none = refl
Merged-alone xs ys zs (left {xs = xs'} {zs = zs'} x m) none =
    ap (λ l. l ++ x ∷ []) (Merged-alone xs' ys zs' m none)
Merged-alone xs ys zs (right {ys = ys'} y m) none = absurd (snoc_not_nil ys' y none)

-- In every run in which no event was given up, the table, then the event that the worker holds,
-- then the queue are what the queue took in, in its order.
pub table-Run :
    (all taken : List AuditEvent) (s : AuditLog)
    → Run all taken s
    → s.gave_up ≡ []
    → s.table ++ (in_hand s.worker ++ s.queue) ≡ taken
table-Run all taken s r none =
    let h = accounts-Run all taken s r in
    ap (λ l. l ++ (in_hand s.worker ++ s.queue))
      (Merged-alone s.table s.gave_up h.served h.finished none)
    ∙ h.pending
