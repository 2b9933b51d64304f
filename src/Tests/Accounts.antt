-- ===== src/Tests/Accounts.antt =====
-- Runs of internal/usecase/auth and of its repositories on sample sessions and tokens.
use cloud_zero_knowledge_sto.Base.{
  ℕ, ◌*◌, ◌≤◌, true, none, some, List, [], ◌∷◌, Text, ◌≡◌, refl, arith, All,
}
use cloud_zero_knowledge_sto.Store.{
  RefreshSession, DeviceSession, second, World, ok, err, running, ignore_error, invalid_refresh,
}
use cloud_zero_knowledge_sto.Store.Ends.{Outcome}
use cloud_zero_knowledge_sto.Names.{trim_space}
use cloud_zero_knowledge_sto.Srp.Group.{rfc_3526_prime}
use cloud_zero_knowledge_sto.Srp.Agreement.{IsAccepted, verify_client_proof-client}
use cloud_zero_knowledge_sto.Sessions.{
  DeviceInfo, consume_refresh_session, update_last_active, create_refresh_session,
  insert_refresh_session,
}
use cloud_zero_knowledge_sto.Tokens.{issue_access}
use cloud_zero_knowledge_sto.Sessions.Revoked.{IsRevoked}
use cloud_zero_knowledge_sto.Users.{ResetPasswordParams, get_crypto_salt_and_kek_by_user_id}
use cloud_zero_knowledge_sto.SrpSessions.{SrpSessEntry, store_session, consume_session}
use cloud_zero_knowledge_sto.SrpSessions.RoundTrip.{kept, consume_session-store_session}
use cloud_zero_knowledge_sto.Limiter.{RateLimiter}
use cloud_zero_knowledge_sto.Limiter.Window.{allowed, allowed-le-limit}
use cloud_zero_knowledge_sto.Auth.Models.{AuthSettings, LoginFinalizeParams, TokenPair}
use cloud_zero_knowledge_sto.Auth.Pairs.{
  refresh_token_hash, issue_token_pair_for_device, new_refresh_token, key_or_new,
}
use cloud_zero_knowledge_sto.Auth.Logins.{login_finalize}
use cloud_zero_knowledge_sto.Auth.Resets.{reset_password}
use cloud_zero_knowledge_sto.Auth.{refresh, rotate}
use cloud_zero_knowledge_sto.Auth.Requests.{AuthRequest, refreshes, revokes_session, serve_auths}
use cloud_zero_knowledge_sto.Auth.Revocation.{AnswerLacksPair, serve_auths-IsRevoked}
use cloud_zero_knowledge_sto.Auth.Proofs.{IsUsedUp, IsProven, login_finalize-IsProven}
use cloud_zero_knowledge_sto.Auth.Reuse.{IsAnswered, refresh-IsAnswered}
use cloud_zero_knowledge_sto.Auth.Rotation.{IsRotated, refresh-IsRotated}
use cloud_zero_knowledge_sto.Auth.Resetting.{IsReset, reset_password-IsReset}
use cloud_zero_knowledge_sto.Tests.Sample.{env, tables, start}

abbrev settings : AuthSettings
settings = record { access_ttl = 900 * second; refresh_ttl = 3600 * second; frontend_origin = [] }

abbrev device : DeviceInfo
device = record { user_agent = []; ip_address = []; device_name = []; device_id = [] }

abbrev device_session : ℕ → DeviceSession
device_session id = record {
  id = id;
  user_id = 1;
  device_id = [];
  device_name = [];
  ip_address = [];
  user_agent = [];
  created_at = 3;
  last_active_at = 3;
  revoked_at = none;
}

abbrev token : ℕ → Text → RefreshSession
token id hash = record {
  id = id;
  user_id = 1;
  device_session_id = 60;
  refresh_token_hash = hash;
  client_key = 8 ∷ [];
  expires_at = 1000;
  created_at = 3;
  revoked_at = none;
}

abbrev used_token : RefreshSession
used_token = record (token 70 (b'u' ∷ [])) { revoked_at = some 9 }

-- Device session 60 with the used token `u` and the active token `a`, and 61, which is revoked; a
-- reset token `r`.
abbrev signed_in : World
signed_in = record start {
  db = record tables {
    device_sessions = device_session 60 ∷ record (device_session 61) { revoked_at = some 9 } ∷ [];
    refresh_sessions = used_token ∷ token 71 (b'a' ∷ []) ∷ [];
    reset_tokens =
        record {
          id = 80;
          user_id = 1;
          token_hash = b'r' ∷ [];
          expires_at = 1000;
          used_at = none;
          created_at = 3;
        }
        ∷ [];
  };
}

abbrev reset_params : ResetPasswordParams
reset_params = record {
  srp_salt = 1 ∷ [];
  srp_verifier = 2 ∷ [];
  bcrypt_salt = [];
  crypto_salt = [];
  kek_encrypted_master = [];
  kek_encrypted_recovery = [];
  recovery_salt = [];
}

abbrev attempts : List AuthRequest
attempts = refreshes (b'a' ∷ []) ∷ revokes_session 1 60 ∷ refreshes (b'u' ∷ []) ∷ []

serve_auths-IsRevoked_example :
    All (AnswerLacksPair 61) (serve_auths env settings attempts signed_in).0
    × IsRevoked 61 (serve_auths env settings attempts signed_in).1.db
serve_auths-IsRevoked_example =
    serve_auths-IsRevoked env settings 61 attempts signed_in (record { known = refl; dead = refl })

refresh-IsAnswered_example :
    ((refresh env settings (b'u' ∷ []) signed_in).0 ≡ err invalid_refresh)
    × IsAnswered
        (900 * second)
        used_token
        signed_in.db
        (refresh env settings (b'u' ∷ []) signed_in).1.db
unfolding refresh_token_hash trim_space
refresh-IsAnswered_example =
    refresh-IsAnswered env settings (b'u' ∷ []) signed_in used_token (λ _. refl) (λ _. refl) refl
      refl

reset_password-IsReset_example :
    Outcome
      (reset_password env settings (b'r' ∷ []) reset_params signed_in).0
      (λ _.
        IsReset
          (refresh_token_hash env (b'r' ∷ []))
          reset_params
          signed_in.db
          (reset_password env settings (b'r' ∷ []) reset_params signed_in).1.db)
      ((reset_password env settings (b'r' ∷ []) reset_params signed_in).1.db ≡ signed_in.db)
reset_password-IsReset_example =
    reset_password-IsReset env settings (b'r' ∷ []) reset_params signed_in (λ _. refl) refl refl

abbrev renewed : TokenPair
renewed = record {
  access_token = 0 ∷ [];
  access_expires_in = 900;
  refresh_token = 3 ∷ [];
  refresh_expires_in = 3600;
  device_session_id = 60;
  client_key = 8 ∷ [];
  crypto_salt = [];
  kek_encrypted_master = [];
  encrypted_private_key = [];
}

is_renewed : (refresh env settings (b'a' ∷ []) signed_in).0 ≡ ok renewed
unfolding refresh rotate refresh_token_hash trim_space consume_refresh_session update_last_active
    issue_token_pair_for_device issue_access new_refresh_token key_or_new create_refresh_session
    insert_refresh_session get_crypto_salt_and_kek_by_user_id running ignore_error
is_renewed = refl

refresh-IsRotated_example :
    IsRotated env (b'a' ∷ []) signed_in.db renewed (refresh env settings (b'a' ∷ []) signed_in).1.db
refresh-IsRotated_example = refresh-IsRotated env settings (b'a' ∷ []) signed_in renewed is_renewed

-- A session of user 1 for the client's ephemeral 2.
abbrev srp_session : SrpSessEntry
srp_session = record {
  user_id = 1;
  email = 1 ∷ [];
  srp_salt_hex = [];
  a_hex = b'0' ∷ b'2' ∷ [];
  session = record { verifier = 2; b = 3; b_pub = 4 };
  crypto_salt = [];
  bcrypt_salt = [];
  encrypted_private_key = [];
  kek_encrypted_master = [];
  expires_at = 300 * second;
}

consume_session-store_session_example :
    ((store_session env 63 srp_session start).0 ≡ ok true)
    × ((consume_session env 63 (store_session env 63 srp_session start).1).0
        ≡ ok (some (kept srp_session)))
    × ((consume_session env 63
          (consume_session env 63 (store_session env 63 srp_session start).1).1).0
        ≡ ok none)
consume_session-store_session_example =
    consume_session-store_session env 63 srp_session start (λ _. refl) (λ _. refl) (λ _. refl)
      (λ n. omega arith) (omega arith)

abbrev log_in : World
log_in = (store_session env 63 srp_session start).1

abbrev proof : LoginFinalizeParams
proof = record { session_id = 63 ∷ []; m1 = b'0' ∷ b'1' ∷ []; device = device }

login_finalize-IsProven_example :
    Outcome
      (login_finalize env settings proof log_in).0
      (λ result.
        IsProven env 63 proof log_in.db result (login_finalize env settings proof log_in).1.db)
      (IsUsedUp 63 (login_finalize env settings proof log_in).1.db)
login_finalize-IsProven_example =
    login_finalize-IsProven env settings 63 proof log_in (λ _. refl) refl

abbrev limiter : RateLimiter
limiter = record { prefix = b'l' ∷ []; limit = 2; window = 60 * second }

abbrev callers : List Text
callers = (1 ∷ []) ∷ (2 ∷ []) ∷ (1 ∷ []) ∷ (1 ∷ []) ∷ []

allowed-le-limit_example : allowed env limiter (1 ∷ []) callers start ≤ 2
allowed-le-limit_example =
    allowed-le-limit env limiter (1 ∷ []) callers start 100 (λ _. refl)
      (λ n from before. (omega arith, omega (arith, before))) tt

-- A hash of one byte.
abbrev hash : List ℕ → List ℕ
hash bs = 9 ∷ []

verify_client_proof-client_example : IsAccepted hash rfc_3526_prime 3 5 (7 ∷ []) (1 ∷ []) (4 ∷ [])
verify_client_proof-client_example =
    verify_client_proof-client hash 3 5 (7 ∷ []) (1 ∷ []) (4 ∷ []) (λ _. (omega arith, tt))
      (omega arith, tt)
