-- ===== src/Tests/Gate.antt =====
-- Runs of internal/controller/restapi/middleware.go with an access token of a sample session.
use cloud_zero_knowledge_sto.Base.{
  ◌⊎◌, ℕ, ◌*◌, ◌≤◌, inr, none, some, [], ◌∷◌, Text, ◌≡◌, refl, arith, text,
}
use cloud_zero_knowledge_sto.Store.{
  lookup, second, Env, World, Action, ok, pure, running, calling, ignore_error,
}
use cloud_zero_knowledge_sto.Names.{trim_space}
use cloud_zero_knowledge_sto.Sessions.{revoke_session}
use cloud_zero_knowledge_sto.Blocklist.{block, is_blocked}
use cloud_zero_knowledge_sto.Tokens.{access_claims, parse_access_token}
use cloud_zero_knowledge_sto.Auth.Models.{AuthSettings}
use cloud_zero_knowledge_sto.Auth.{revoke_device_session}
use cloud_zero_knowledge_sto.Middleware.{Response, bearer_token, auth_middleware}
use cloud_zero_knowledge_sto.Middleware.Guard.{IsGuarded, IsRefused, auth_middleware-IsGuarded}
use cloud_zero_knowledge_sto.Middleware.Blocking.{auth_middleware-revoke_device_session}
use cloud_zero_knowledge_sto.Blobs.{peek_trashed_blob, hard_delete_blob}
use cloud_zero_knowledge_sto.Files.{hard_delete_file}
use cloud_zero_knowledge_sto.Rest.{Request, no_content}
use cloud_zero_knowledge_sto.Rest.Trash.{trash_delete_blob}
use cloud_zero_knowledge_sto.Rest.Audited.{IsAudited, IsRejected, trash_delete_blob-IsAudited}
use cloud_zero_knowledge_sto.UserAgent.{device_name_of, parse_browser, parse_os, has}
use cloud_zero_knowledge_sto.Tests.Sample.{env, tables, start}

abbrev settings : AuthSettings
settings = record { access_ttl = 900 * second; refresh_ttl = 3600 * second; frontend_origin = [] }

-- Every token is one of user 1 and device session 60, issued at 100.
abbrev signing_env : Env
signing_env = record env { verified_claims = λ _. some (access_claims env (900 * second) 1 60 100) }

abbrev signed_in : World
signed_in = record start {
  db = record tables {
    device_sessions =
        record {
          id = 60;
          user_id = 1;
          device_id = [];
          device_name = [];
          ip_address = [];
          user_agent = [];
          created_at = 3;
          last_active_at = 3;
          revoked_at = none;
        }
        ∷ [];
  };
}

abbrev done : ℕ → ℕ → Action Response
done user session = pure (record { status = 200; message = [] })

abbrev authorization : Text
authorization = text " bEARER  t"

auth_middleware-IsGuarded_example :
    IsGuarded signing_env authorization done signed_in
      (auth_middleware signing_env authorization done signed_in)
auth_middleware-IsGuarded_example =
    auth_middleware-IsGuarded signing_env authorization done signed_in

let_through :
    (auth_middleware signing_env authorization done signed_in).0
    ≡ ok (record { status = 200; message = [] })
unfolding auth_middleware bearer_token trim_space parse_access_token is_blocked lookup running text
let_through = refl

carries_token : bearer_token authorization ≡ some (b't' ∷ [])
unfolding bearer_token trim_space text
carries_token = refl

abbrev after : World
after = (revoke_device_session signing_env settings 1 60 signed_in).1

is_revoked : (revoke_device_session signing_env settings 1 60 signed_in).0 ≡ ok tt
unfolding revoke_device_session revoke_session block ignore_error running
is_revoked = refl

has_few_steps : after.steps ≤ 100
unfolding revoke_device_session revoke_session block ignore_error running
has_few_steps = omega arith

auth_middleware-revoke_device_session_example :
    IsRefused signing_env authorization after (auth_middleware signing_env authorization done after)
auth_middleware-revoke_device_session_example =
    auth_middleware-revoke_device_session signing_env settings 1 1 60 100 authorization (b't' ∷ [])
      done signed_in after (λ _. refl) (λ n. omega arith) (λ _. refl) refl carries_token refl
      (omega arith) is_revoked refl (inr (omega (arith, has_few_steps)))

abbrev request : Request
request = record { user_id = some 1; url_param = 22 ∷ []; real_ip = []; user_agent = [] }

trash_delete_blob-IsAudited_example :
    IsAudited env request start (trash_delete_blob env request start)
    ⊎ IsRejected start (trash_delete_blob env request start)
trash_delete_blob-IsAudited_example = trash_delete_blob-IsAudited env request start

-- Blob 22 is in the trash of user 1.
answers_204 : (trash_delete_blob env request start).0 ≡ ok no_content
unfolding trash_delete_blob hard_delete_file peek_trashed_blob hard_delete_blob running calling
answers_204 = refl

-- Chrome also says Safari.
names_chrome :
    device_name_of (text "Mozilla/5.0 (Macintosh) Chrome/120.0 Safari/537.36")
    ≡ text "Chrome on macOS"
unfolding device_name_of parse_browser parse_os has text
names_chrome = refl
