-- ===== src/Rest.antt =====
-- What the handlers of internal/controller/restapi/v1 share (helpers.go), with MustUserID of
-- middleware.go and the errors of storage.go, folders.go and sharing.go.
pub mod Trash
pub mod Audited
pub mod Files
pub mod Directories
pub mod Accounts
use cloud_zero_knowledge_sto.Base.{
  ℕ, Option, none, some, List, [], Text, ⊤, ◌==◌, if◌then◌else◌, is_empty, text,
}
use cloud_zero_knowledge_sto.Store.{
  AuditEvent, Env, Error, not_found, folder_not_found, file_too_large, quota_exceeded,
  folder_not_empty, folder_conflict, folder_cycle, no_public_key, duplicate_share, self_share,
  forbidden, expired, revoked, Result, ok, err, on_row, ◌>>=◌, ◌>>◌, Action, log_event, pure, ask,
}
use cloud_zero_knowledge_sto.Sessions.{nil_uuid}
use cloud_zero_knowledge_sto.Middleware.{Response, unauthorized}

-- What a handler reads of a request: the user that AuthMiddleware put into the context, the id in
-- the path, the address that realIP finds, and the header User-Agent.
pub record Request : Type 0 where
  pub user_id : Option ℕ
  pub url_param : Text
  pub real_ip : Text
  pub user_agent : Text

abbrev pub write_error : ℕ → Text → Response
write_error status message = record { status = status; message = message }

abbrev pub no_content : Response
no_content = write_error 204 []

abbrev pub internal_error : Response
internal_error = write_error 500 (text "internal error")

abbrev pub storage_error : Error → Response
storage_error not_found = write_error 404 (text "not found")
storage_error folder_not_found = write_error 404 (text "folder not found")
storage_error file_too_large = write_error 413 (text "file too large")
storage_error quota_exceeded = write_error 402 (text "storage quota exceeded")
storage_error _ = internal_error

abbrev pub audit_event : ℕ → Text → Text → Text → Option ℕ → Text → AuditEvent
audit_event user kind ip ua resource_id resource_name = record {
  id = nil_uuid;
  user_id = user;
  event_type = kind;
  ip_address = ip;
  user_agent = ua;
  resource_id = resource_id;
  resource_name = resource_name;
  created_at = 0;
}

-- `d.Audit.LogAsync`
abbrev pub log_async : Env → AuditEvent → Action ⊤
log_async e x = ask e (log_event x) λ _. tt

abbrev pub must_user_id : Option ℕ → (ℕ → Action Response) → Action Response
must_user_id none f = pure unauthorized
must_user_id (some user) f = if user == nil_uuid then pure unauthorized else f user

-- The id in the path, or `message`.
abbrev pub with_id : Env → Request → Text → (ℕ → Action Response) → Action Response
with_id e r message f = on_row (e.parse_uuid r.url_param) (pure (write_error 400 message)) f

-- A body of JSON: DecodeJSON or ValidateStruct refuses it, or it is read. The fields that a failed
-- validation names are left out.
pub data Body (A : Type 0) : Type 0 where
  undecoded invalid : Body A
  decoded : A → Body A

module _ {A : Type 0} where
  abbrev pub with_body : Body A → (A → Action Response) → Action Response
  with_body undecoded f = pure (write_error 400 (text "bad request"))
  with_body invalid f = pure (write_error 400 (text "validation failed"))
  with_body (decoded x) f = f x

  -- A body that is decoded and not validated.
  abbrev pub with_json : Option A → (A → Action Response) → Action Response
  with_json none f = pure (write_error 400 (text "bad request"))
  with_json (some x) f = f x

  -- The end of a handler: the error that `refused` maps, or `f`.
  abbrev pub or_refuse : (Error → Response) → (A → Action Response) → Result A → Action Response
  or_refuse refused f (err x) = pure (refused x)
  or_refuse refused f (ok a) = f a

abbrev pub folder_error : Error → Response
folder_error folder_not_found = write_error 404 (text "folder not found")
folder_error folder_not_empty = write_error 409 (text "folder is not empty")
folder_error folder_conflict = write_error 409 (text "folder with this name already exists")
folder_error folder_cycle = write_error 422 (text "moving folder would create a cycle")
folder_error not_found = write_error 404 (text "not found")
folder_error _ = internal_error

abbrev pub sharing_error : Error → Response
sharing_error not_found = write_error 404 (text "not found")
sharing_error no_public_key = write_error 422 (text "recipient has no encryption key")
sharing_error duplicate_share = write_error 409 (text "share already exists for this recipient")
sharing_error self_share = write_error 400 (text "cannot share a file with yourself")
sharing_error forbidden = write_error 403 (text "forbidden")
sharing_error expired = write_error 403 (text "forbidden")
sharing_error revoked = write_error 403 (text "forbidden")
sharing_error _ = internal_error

-- An event of the user of the request, then 204.
abbrev pub log_and_end : Env → Request → ℕ → Text → Option ℕ → Text → Action Response
log_and_end e r user kind id name = do
  log_async e (audit_event user kind r.real_ip r.user_agent id name)
  pure no_content

-- An optional id of a body, or `message`.
abbrev pub with_optional_id :
    Env → Text → Option Text → (Option ℕ → Action Response) → Action Response
with_optional_id e message none f = f none
with_optional_id e message (some raw) f =
    on_row (e.parse_uuid raw) (pure (write_error 400 message)) λ id. f (some id)

-- An empty name of a folder is shown as the root.
abbrev pub or_root : Text → Text
or_root name = if is_empty name then text "/" else name
