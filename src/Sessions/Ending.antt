-- ===== src/Sessions/Ending.antt =====
-- What `RevokeSession` and `RevokeOtherSessions` of device_sessions.go leave, where the database
-- answers.
use cloud_zero_knowledge_sto.Base.{
  ℕ, suc, Bool, true, false, List, [], ◌∷◌, map, ◌≡◌, refl, ap, arith, ◌==◌, length, update,
  updated, exists_row, updated_some, updated_empty,
}
use cloud_zero_knowledge_sto.Store.{DeviceSession, RefreshSession, Db, Env}
use cloud_zero_knowledge_sto.Store.Ends.{Ends, Ends-pure}
use cloud_zero_knowledge_sto.Store.Steps.{Ends-raise_if_then}
use cloud_zero_knowledge_sto.Store.Answering.{Ends-exec_then_up, Ends-in_transaction_up}
use cloud_zero_knowledge_sto.Sessions.{
  is_session_of, is_other_session, is_other_token, is_active_token_of, revoke_device, revoke_token,
  revoke_session, revoke_other_sessions,
}

-- Device sessions and tokens after an UPDATE of each at `t`; the rest is as before.
abbrev pub ended_at : (DeviceSession → Bool) → (RefreshSession → Bool) → ℕ → Db → Db
ended_at devices tokens t d = record d {
  device_sessions = update devices (revoke_device t) d.device_sessions;
  refresh_sessions = update tokens (revoke_token t) d.refresh_sessions;
}

length-map : {A B : Type 0} (f : A → B) (xs : List A) → length (map f xs) ≡ length xs
length-map f [] = refl
length-map f (x ∷ xs) = ap suc (length-map f xs)

module _ (e : Env) (up : (n : ℕ) → e.sql_fails n ≡ false) where
  pub revoke_session_ends :
      (id user : ℕ) (d₀ : Db) (R : Db → Type 0)
      → exists_row (is_session_of id user) d₀.device_sessions ≡ true
      → Ends
          (λ d. d ≡ d₀)
          (revoke_session e id user)
          (λ _ d. (t : ℕ) × (d ≡ ended_at (is_session_of id user) (is_active_token_of id) t d₀))
          R
  unfolding revoke_session
  revoke_session_ends id user d₀ R there = Ends-in_transaction_up e up _ R d₀ _ λ t.
      Ends-exec_then_up d₀ _ _ e up _ _ λ _.
        Ends-raise_if_then _ _ _ _ _ _ (λ lost. absurd (missed t lost))
          λ _. Ends-exec_then_up _ _ _ e up _ _ λ _. Ends-pure _ _ _ λ d same. (t, same)
    where
      missed :
          (t : ℕ)
          → (length (
                map
                  (λ s. s.id)
                  (updated (is_session_of id user) (revoke_device t) d₀.device_sessions))
              == 0)
            ≡ true
          → ⊥
      missed t lost =
          let some_row =
            updated_some (is_session_of id user) (revoke_device t) d₀.device_sessions there in
          let same =
            length-map (λ (s : DeviceSession). s.id)
              (updated (is_session_of id user) (revoke_device t) d₀.device_sessions) in
          ground arith

  -- No active device session: the transaction is rolled back.
  pub revoke_session_fails :
      (id user : ℕ) (d₀ : Db)
      → exists_row (is_session_of id user) d₀.device_sessions ≡ false
      → Ends (λ d. d ≡ d₀) (revoke_session e id user) (λ _ _. ⊥) (λ d. d ≡ d₀)
  unfolding revoke_session
  revoke_session_fails id user d₀ gone = Ends-in_transaction_up e up _ _ d₀ _ λ t.
      Ends-exec_then_up d₀ _ _ e up _ _
        λ _. Ends-raise_if_then _ _ _ _ _ _ (λ lost. refl) λ found. absurd (missed t found)
    where
      missed :
          (t : ℕ)
          → (length (
                map
                  (λ s. s.id)
                  (updated (is_session_of id user) (revoke_device t) d₀.device_sessions))
              == 0)
            ≡ false
          → ⊥
      missed t found =
          let none =
            updated_empty (is_session_of id user) (is_session_of id user) (revoke_device t)
              (λ a h. h) d₀.device_sessions gone in
          let counted = ap (λ rows. length (map (λ (s : DeviceSession). s.id) rows) == 0) none in
          absurd (cc)

  pub revoke_other_sessions_ends :
      (user except : ℕ) (d₀ : Db) (R : Db → Type 0)
      → Ends
          (λ d. d ≡ d₀)
          (revoke_other_sessions e user except)
          (λ _ d.
            (t : ℕ) × (d
              ≡ ended_at (is_other_session user except) (is_other_token user except) t d₀))
          R
  unfolding revoke_other_sessions
  revoke_other_sessions_ends user except d₀ R = Ends-in_transaction_up e up _ R d₀ _ λ t.
      Ends-exec_then_up d₀ _ _ e up _ _
        λ _. Ends-exec_then_up _ _ _ e up _ _ λ _. Ends-pure _ _ _ λ d same. (t, same)
