-- ===== src/Sessions/Statements.antt =====
-- The statements of internal/repo/persistent/postgres on sessions, where a device session is revoked.
use cloud_zero_knowledge_sto.Base.{
  ℕ, Bool, false, ◌&&◌, List, ◌≡◌, refl, arith, inl, inr, Bool-cases, ◌==◌, is_empty,
}
use cloud_zero_knowledge_sto.Store.{DeviceSession, RefreshSession, Db, Env}
use cloud_zero_knowledge_sto.Store.Keeps.{
  Keeps, Keeps-sql, Keeps-exec, Keeps-query, Keeps-in_transaction, keeps_rules,
}
use cloud_zero_knowledge_sto.Store.Ends.{Ends, Ends-sql, Ends-exec}
use cloud_zero_knowledge_sto.Sessions.{
  DeviceInfo, RefreshSessionParams, is_orphaned, revoke_device, insert_refresh_session,
  revoke_devices, revoke_tokens, create_refresh_session, find_revoked_session,
  consume_refresh_session, create_device_session, update_last_active, list_active_sessions,
  revoke_session, revoke_other_sessions, revoke_orphaned_sessions, revoke_user_orphaned_sessions,
}
use cloud_zero_knowledge_sto.Sessions.Revoked.{
  IsRevoked, OtherDevice, same_devices, update-IsRevoked, insert-IsRevoked, upsert-IsRevoked,
  consumed_apart,
}

insert_refresh_devices :
    (p : RefreshSessionParams) (t : ℕ) (d : Db)
    → (insert_refresh_session p t d).1.device_sessions ≡ d.device_sessions
unfolding insert_refresh_session
insert_refresh_devices p t d = ground arith

module _ (e : Env) {id : ℕ} where
  pub create_device_session-Ends :
      (new user : ℕ) (device : DeviceInfo)
      → Ends
          (IsRevoked id)
          (create_device_session e new user device)
          (λ a d. ((a == id) ≡ false) × IsRevoked id d)
          (IsRevoked id)
  unfolding create_device_session
  create_device_session-Ends new user device = elim (Bool-cases (is_empty device.device_id)) [
    | inl anonymous ↦
        rw anonymous (Ends-sql e _ _ _ (λ d h. h) (λ t d h. insert-IsRevoked new user device t d h))
    | inr named ↦
        rw named (Ends-sql e _ _ _ (λ d h. h) (λ t d h. upsert-IsRevoked new user device t d h))
  ]

  pub consume_refresh_session-Ends :
      (hash : List ℕ)
      → Ends
          (IsRevoked id)
          (consume_refresh_session e hash)
          (λ o d. OtherDevice id o × IsRevoked id d)
          (IsRevoked id)
  unfolding consume_refresh_session
  consume_refresh_session-Ends hash =
      Ends-exec e _ _ _ (λ d h. h)
        λ t d h. (consumed_apart id hash t d _ h refl, same_devices d _ refl h)

  revoke_devices-Keeps :
      (here : DeviceSession → Bool) (t : ℕ) → Keeps (IsRevoked id) (revoke_devices e here t)
  revoke_devices-Keeps here t =
      Keeps-exec e _
        λ _ d h. update-IsRevoked here (revoke_device t) d _ refl (λ x. refl) (λ x r. refl) h

  revoke_tokens-Keeps :
      (here : RefreshSession → Bool) (t : ℕ) → Keeps (IsRevoked id) (revoke_tokens e here t)
  revoke_tokens-Keeps here t = Keeps-exec e _ λ _ d h. same_devices d _ refl h

  pub update_last_active-Keeps : (device : ℕ) → Keeps (IsRevoked id) (update_last_active e device)
  unfolding update_last_active
  update_last_active-Keeps device = Keeps-exec e _ λ t d h.
      update-IsRevoked (λ s. s.id == device) (λ s. record s { last_active_at = t }) d _ refl
        (λ x. refl) (λ x r. r) h

  pub revoke_session-Keeps : (device user : ℕ) → Keeps (IsRevoked id) (revoke_session e device user)
  unfolding revoke_session
  revoke_session-Keeps device user =
      Keeps-in_transaction e _ λ _. search (keeps_rules, revoke_devices-Keeps, revoke_tokens-Keeps)

  pub revoke_other_sessions-Keeps :
      (user except : ℕ) → Keeps (IsRevoked id) (revoke_other_sessions e user except)
  unfolding revoke_other_sessions
  revoke_other_sessions-Keeps user except =
      Keeps-in_transaction e _ λ _. search (keeps_rules, revoke_devices-Keeps, revoke_tokens-Keeps)

  pub revoke_orphaned_sessions-Keeps : Keeps (IsRevoked id) (revoke_orphaned_sessions e)
  unfolding revoke_orphaned_sessions
  revoke_orphaned_sessions-Keeps = Keeps-exec e _ λ t d h.
      update-IsRevoked (is_orphaned t d.refresh_sessions) (revoke_device t) d _ refl (λ x. refl)
        (λ x r. refl) h

  pub revoke_user_orphaned_sessions-Keeps :
      (user : ℕ) → Keeps (IsRevoked id) (revoke_user_orphaned_sessions e user)
  unfolding revoke_user_orphaned_sessions
  revoke_user_orphaned_sessions-Keeps user = Keeps-exec e _ λ t d h.
      update-IsRevoked (λ s. s.user_id == user && is_orphaned t d.refresh_sessions s)
        (revoke_device t) d _ refl (λ x. refl) (λ x r. refl) h

  pub create_refresh_session-Keeps :
      (p : RefreshSessionParams) → Keeps (IsRevoked id) (create_refresh_session e p)
  unfolding create_refresh_session
  create_refresh_session-Keeps p =
      Keeps-sql e _ λ t d h. same_devices d _ (insert_refresh_devices p t d) h

  pub find_revoked_session-Keeps :
      (hash : List ℕ) → Keeps (IsRevoked id) (find_revoked_session e hash)
  unfolding find_revoked_session
  find_revoked_session-Keeps hash = Keeps-query e _

  pub list_active_sessions-Keeps : (user : ℕ) → Keeps (IsRevoked id) (list_active_sessions e user)
  unfolding list_active_sessions
  list_active_sessions-Keeps user = Keeps-query e _
