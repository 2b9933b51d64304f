-- ===== src/Auth/Requests.antt =====
-- The requests that internal/controller/restapi/v1 passes to internal/usecase/auth/service.go, and
-- the clean-up that internal/app schedules.
use cloud_zero_knowledge_sto.Base.{ℕ, Option, none, some, List, [], ◌∷◌, Text}
use cloud_zero_knowledge_sto.Store.{Env, World, Action, Result, pure, ◌>>=◌, ◌>>◌}
use cloud_zero_knowledge_sto.Sessions.{DeviceInfo}
use cloud_zero_knowledge_sto.Users.{ResetPasswordParams}
use cloud_zero_knowledge_sto.Auth.Models.{
  RegisterParams, LoginFinalizeParams, TokenPair, AuthSettings,
}
use cloud_zero_knowledge_sto.Auth.Logins.{register_user, login_init, login_finalize}
use cloud_zero_knowledge_sto.Auth.Resets.{request_password_reset, get_recovery_data, reset_password}
use cloud_zero_knowledge_sto.Auth.{
  refresh, logout, list_device_sessions, revoke_device_session, revoke_other_device_sessions,
  clean_orphaned_sessions,
}

pub data AuthRequest : Type 0 where
  registers : RegisterParams → AuthRequest
  starts_login : Text → Text → AuthRequest
  finishes_login : LoginFinalizeParams → AuthRequest
  refreshes : Text → AuthRequest
  logs_out : Text → DeviceInfo → AuthRequest
  lists_sessions : ℕ → AuthRequest
  revokes_session revokes_others : ℕ → ℕ → AuthRequest
  requests_reset : Text → AuthRequest
  reads_recovery : Text → AuthRequest
  resets : Text → ResetPasswordParams → AuthRequest
  cleans_up : AuthRequest

module _ (e : Env) (s : AuthSettings) where
  -- The token pair of the answer, if it has one.
  unfoldable pub serve_auth : AuthRequest → Action (Option TokenPair)
  serve_auth (registers p) = do pair ← register_user e s p; pure (some pair)
  serve_auth (starts_login email a_hex) = do login_init e s email a_hex; pure none
  serve_auth (finishes_login p) = do result ← login_finalize e s p; pure (some result.pair)
  serve_auth (refreshes token) = do pair ← refresh e s token; pure (some pair)
  serve_auth (logs_out token device) = do logout e s token device; pure none
  serve_auth (lists_sessions user) = do list_device_sessions e s user; pure none
  serve_auth (revokes_session user id) = do revoke_device_session e s user id; pure none
  serve_auth (revokes_others user id) = do revoke_other_device_sessions e s user id; pure none
  serve_auth (requests_reset email) = do request_password_reset e s email; pure none
  serve_auth (reads_recovery token) = do get_recovery_data e s token; pure none
  serve_auth (resets token p) = do reset_password e s token p; pure none
  serve_auth cleans_up = do clean_orphaned_sessions e s; pure none

  -- The answers, in order, and the world after them.
  unfoldable pub serve_auths : List AuthRequest → World → List (Result (Option TokenPair)) × World
  serve_auths [] w = ([], w)
  serve_auths (r ∷ rs) w =
      let (answer, w') = serve_auth r w in
      let (answers, w'') = serve_auths rs w' in (answer ∷ answers, w'')
