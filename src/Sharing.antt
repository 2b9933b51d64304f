-- ===== src/Sharing.antt =====
-- internal/usecase/sharing/service.go. The mail that `CreateShare` sends from a goroutine of its
-- own is left out: it changes nothing and its failure is only logged.
pub mod Access
pub mod Grants
pub mod Creation
use cloud_zero_knowledge_sto.Base.{
  ℕ, Bool, not, ◌||◌, Option, none, some, List, Text, ⊤, ltb, ◌==◌, if◌then◌else◌, is_not_null,
}
use cloud_zero_knowledge_sto.Store.{
  FileShare, Env, Action, not_found, forbidden, revoked, expired, self_share, pure, raise, raise_if,
  or_raise, ◌>>=◌, ◌>>◌, time_now, presigned_get_object,
}
use cloud_zero_knowledge_sto.Names.{trim_space}
use cloud_zero_knowledge_sto.Shares.{
  FileShareView, BlobInfo, NewShare, get_public_key_by_email, get_blob_info, create_share,
  get_share, list_shared_with_user, list_shares_for_blob, revoke_share,
}

pub record CreateShareParams : Type 0 where
  pub blob_id : ℕ
  pub owner_id : ℕ
  pub recipient_email : Text
  pub ephemeral_pub : List ℕ
  pub wrapped_file_key : List ℕ
  pub expires_at : Option ℕ

pub record SharedFileResult : Type 0 where
  pub share : FileShareView
  pub download_url : Text
  pub file_name : Text
  pub content_type : Text
  pub file_size : ℕ
  pub file_size_plain : ℕ
  pub chunk_size : ℕ

abbrev pub owns : ℕ → Option BlobInfo → Bool
owns owner none = Bool.false
owns owner (some info) = info.owner_id == owner

module _ (e : Env) where
  abbrev pub normal_email : Text → Text
  normal_email email = trim_space (e.to_lower email)

  unfoldable pub get_recipient_public_key : Text → Action (List ℕ)
  get_recipient_public_key email = do
    (public_key, _) ← get_public_key_by_email e (normal_email email)
    pure public_key

  unfoldable pub share_file : CreateShareParams → Action FileShareView
  share_file p = do
    found ← get_blob_info e p.blob_id
    raise_if (not (owns p.owner_id found)) not_found
    (_, recipient) ← get_public_key_by_email e (normal_email p.recipient_email)
    raise_if (recipient == p.owner_id) self_share
    create_share e (record {
      blob_id = p.blob_id;
      owner_id = p.owner_id;
      recipient_id = recipient;
      ephemeral_pub = p.ephemeral_pub;
      wrapped_file_key = p.wrapped_file_key;
      expires_at = p.expires_at;
    })

  -- The clock is read only for a share that can expire.
  abbrev pub check_expiry : Option ℕ → Action ⊤
  check_expiry none = pure tt
  check_expiry (some expires_at) = do now ← time_now e; raise_if (ltb expires_at now) expired

  unfoldable pub validate_share_access : FileShare → ℕ → Action ⊤
  validate_share_access s caller = do
    raise_if (not (s.recipient_id == caller)) forbidden
    raise_if (is_not_null s.revoked_at) revoked
    check_expiry s.expires_at

  unfoldable pub get_shared_file : ℕ → ℕ → Action SharedFileResult
  get_shared_file share_id caller = do
    found ← get_share e share_id
    view ← or_raise found not_found
    validate_share_access view.share caller
    blob ← get_blob_info e view.share.blob_id
    info ← or_raise blob not_found
    url ← presigned_get_object e info.object_key
    pure (record {
      share = view;
      download_url = url;
      file_name = info.file_name;
      content_type = info.content_type;
      file_size = info.file_size;
      file_size_plain = info.file_size_plain;
      chunk_size = info.chunk_size;
    })

  unfoldable pub list_shared_with_me : ℕ → Action (List FileShareView)
  list_shared_with_me recipient = list_shared_with_user e recipient

  unfoldable pub list_my_shares : ℕ → ℕ → Action (List FileShareView)
  list_my_shares blob_id owner = list_shares_for_blob e blob_id owner

  unfoldable pub revoke_my_share : ℕ → ℕ → Action ⊤
  revoke_my_share share_id owner = revoke_share e share_id owner
