-- ===== src/Audit/Table.antt =====
-- internal/repo/persistent/postgres/audit.go, and ListEvents of internal/usecase/audit/service.go.
-- A limit of 0 stands for every one that is not positive, and 0 is the zero time.
use cloud_zero_knowledge_sto.Base.{
  ℕ, Bool, false, ◌||◌, ◌&&◌, Option, none, some, List, [], ◌∷◌, ◌++◌, Text, ⊤, ltb, ◌==◌,
  if◌then◌else◌, is_empty, is_null, length, take, select, exists_row, order_desc,
}
use cloud_zero_knowledge_sto.Store.{
  AuditEvent, Db, Env, Action, Result, ok, err, db_failed, unique_violation, foreign_key_violation,
  pure, ◌>>=◌, sql, query, time_now, uuid_new,
}
use cloud_zero_knowledge_sto.Sessions.{has_user}

-- NULL and an empty text are read back alike.
abbrev pub text_of : Option Text → Text
text_of none = []
text_of (some s) = s

module _ (e : Env) where
  -- An address that is given, and that the database does not take.
  abbrev pub is_no_address : Text → Bool
  is_no_address ip = if is_empty ip then false else is_null (e.inet_text ip)

  abbrev pub inserted : AuditEvent → ℕ → ℕ → AuditEvent
  inserted x id t = record x {
    id = id;
    ip_address = if is_empty x.ip_address then [] else text_of (e.inet_text x.ip_address);
    created_at = t;
  }

  -- The types of the columns, then the primary key and the user.
  unfoldable pub insert_event : AuditEvent → ℕ → ℕ → Db → Result ⊤ × Db
  insert_event x id t d =
      if is_no_address x.ip_address || ltb 50 (length x.event_type)
      then (err db_failed, d)
      else if exists_row (λ y. y.id == id) d.audit_log
      then (err unique_violation, d)
      else if has_user d x.user_id
      then (ok tt, record d { audit_log = d.audit_log ++ inserted x id t ∷ [] })
      else (err foreign_key_violation, d)

  unfoldable pub insert_audit_event : AuditEvent → Action ⊤
  unfolding insert_event
  insert_audit_event x = do id ← uuid_new e; sql e (insert_event x id)

  unfoldable pub list_audit_events : ℕ → ℕ → ℕ → Action (List AuditEvent)
  list_audit_events user limit before = query e λ _ d. take limit (
      order_desc (λ x. x.created_at)
        (select (λ x. x.user_id == user && ltb x.created_at before) d.audit_log))

  unfoldable pub list_events : ℕ → ℕ → ℕ → Action (List AuditEvent)
  list_events user limit before = do
    until ← if before == 0 then time_now e else pure before
    list_audit_events user (if limit == 0 || ltb 100 limit then 50 else limit) until
