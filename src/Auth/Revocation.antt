-- ===== src/Auth/Revocation.antt =====
-- A revoked device session over sequences of requests to internal/usecase/auth/service.go.
use cloud_zero_knowledge_sto.Base.{ℕ, false, Option, none, some, List, [], ◌∷◌, ⊤, ◌≡◌, ◌==◌, All}
use cloud_zero_knowledge_sto.Store.{Env, World, Action, Result, ok, err, pure, ◌>>◌}
use cloud_zero_knowledge_sto.Store.Keeps.{Keeps, keeps_rules}
use cloud_zero_knowledge_sto.Store.Ends.{Outcome, Ends, Ends-bind, Ends-pure, Ends-after}
use cloud_zero_knowledge_sto.Sessions.Revoked.{IsRevoked}
use cloud_zero_knowledge_sto.Auth.Models.{TokenPair, AuthSettings}
use cloud_zero_knowledge_sto.Auth.Resets.{
  request_password_reset, get_recovery_data, renew_credentials, reset_password,
}
use cloud_zero_knowledge_sto.Auth.{
  list_device_sessions, revoke_device_session, revoke_other_device_sessions,
  clean_orphaned_sessions,
}
use cloud_zero_knowledge_sto.Auth.Bystanders.{bystanders}
use cloud_zero_knowledge_sto.Auth.OtherPairs.{
  session_rules, register-Ends, login_init-Keeps, finalize-Ends, refresh-Ends, logout-Keeps,
  block_revoked-Keeps, send_reset-Keeps, after_reset-Keeps,
}
use cloud_zero_knowledge_sto.Auth.Requests.{
  AuthRequest, registers, starts_login, finishes_login, refreshes, logs_out, lists_sessions,
  revokes_session, revokes_others, requests_reset, reads_recovery, resets, cleans_up, serve_auth,
  serve_auths,
}

-- An answer without a token pair of the device session.
abbrev pub LacksPair : ℕ → Option TokenPair → Type 0
LacksPair id none = ⊤
LacksPair id (some pair) = (pair.device_session_id == id) ≡ false

abbrev pub AnswerLacksPair : ℕ → Result (Option TokenPair) → Type 0
AnswerLacksPair id (ok answer) = LacksPair id answer
AnswerLacksPair id (err _) = ⊤

answer_lem :
    (id : ℕ) (r : Result (Option TokenPair)) (X : Type 0)
    → Outcome r (λ o. LacksPair id o × X) X
    → AnswerLacksPair id r × X
answer_lem id (ok o) X h = h
answer_lem id (err _) X h = (tt, h)

module _ (e : Env) (s : AuthSettings) {id : ℕ} where
  silent :
      {A : Type 0} (m : Action A)
      → Keeps (IsRevoked id) m
      → Ends {A = Option TokenPair}
          (IsRevoked id)
          (do m; pure (none))
          (λ o d. LacksPair id o × IsRevoked id d)
          (IsRevoked id)
  silent m k = Ends-after _ _ _ k λ _. Ends-pure _ _ _ λ d h. (tt, h)

  serve_auth-Ends :
      (r : AuthRequest)
      → Ends
          (IsRevoked id)
          (serve_auth e s r)
          (λ o d. LacksPair id o × IsRevoked id d)
          (IsRevoked id)
  unfolding serve_auth list_device_sessions revoke_device_session revoke_other_device_sessions
      clean_orphaned_sessions request_password_reset get_recovery_data reset_password
      renew_credentials
  serve_auth-Ends (registers p) =
      Ends-bind _ _ _ _ _ (register-Ends e s p) λ pair. Ends-pure _ _ _ λ d h. h
  serve_auth-Ends (starts_login email a_hex) = silent _ (login_init-Keeps e s email a_hex)
  serve_auth-Ends (finishes_login p) =
      Ends-bind _ _ _ _ _ (finalize-Ends e s p) λ r. Ends-pure _ _ _ λ d h. h
  serve_auth-Ends (refreshes token) =
      Ends-bind _ _ _ _ _ (refresh-Ends e s token) λ pair. Ends-pure _ _ _ λ d h. h
  serve_auth-Ends (logs_out token device) = silent _ (logout-Keeps e s token device)
  serve_auth-Ends (lists_sessions user) = silent _ (search session_rules)
  serve_auth-Ends (revokes_session user device) =
      silent _ (search (keeps_rules, session_rules, bystanders))
  serve_auth-Ends (revokes_others user device) =
      silent _ (search (keeps_rules, session_rules, block_revoked-Keeps))
  serve_auth-Ends (requests_reset email) =
      silent _ (search (keeps_rules, bystanders, send_reset-Keeps))
  serve_auth-Ends (reads_recovery token) = silent _ (search (keeps_rules, bystanders))
  serve_auth-Ends (resets token p) =
      silent _ (search (keeps_rules, session_rules, bystanders, after_reset-Keeps) depth 10)
  serve_auth-Ends cleans_up = silent _ (search session_rules)

-- Once a device session is revoked, it stays revoked through any sequence of requests of any users,
-- and no answer has a token pair of it.
pub serve_auths-IsRevoked :
    (e : Env) (s : AuthSettings) (id : ℕ) (rs : List AuthRequest) (w : World)
    → IsRevoked id w.db
    → All (AnswerLacksPair id) (serve_auths e s rs w).0 × IsRevoked id (serve_auths e s rs w).1.db
unfolding serve_auths
serve_auths-IsRevoked e s id [] w h = (tt, h)
serve_auths-IsRevoked e s id (r ∷ rs) w h =
    let (lacks, kept) = answer_lem id (serve_auth e s r w).0 _ ((serve_auth-Ends e s r).at w h) in
    let (all, last) = serve_auths-IsRevoked e s id rs (serve_auth e s r w).1 kept in
    ((lacks, all), last)
