-- ===== src/Store/Rows.antt =====
-- internal/entity and the tables of migrations. An id is only compared and a time only ordered,
-- so both are numbers; a nullable column is an `Option`.
use cloud_zero_knowledge_sto.Store.Keys.{Redis}
use cloud_zero_knowledge_sto.Base.{
  ℕ, ◌&&◌, ◌==◌, Bool, Option, none, List, Text, holds_id, exists_row, update, delete,
}

pub record Blob : Type 0 where
  pub id : ℕ
  pub user_id : ℕ
  pub folder_id : Option ℕ
  pub file_name : Text
  pub content_type : Text
  pub object_key : Text
  pub file_size : ℕ
  pub file_size_plain : ℕ
  pub chunk_size : ℕ
  pub created_at : ℕ
  pub uploaded_at : Option ℕ
  pub encrypted_file_key : List ℕ
  pub upload_id : Text
  pub deleted_at : Option ℕ

pub record Folder : Type 0 where
  pub id : ℕ
  pub user_id : ℕ
  pub parent_id : Option ℕ
  pub name : Text
  pub created_at : ℕ
  pub deleted_at : Option ℕ

pub record FileShare : Type 0 where
  pub id : ℕ
  pub blob_id : ℕ
  pub owner_id : ℕ
  pub recipient_id : ℕ
  pub ephemeral_pub : List ℕ
  pub wrapped_file_key : List ℕ
  pub expires_at : Option ℕ
  pub revoked_at : Option ℕ
  pub created_at : ℕ

-- A NULL in a column of bytes is read as no bytes.
pub record User : Type 0 where
  pub id : ℕ
  pub email : Text
  pub srp_salt : Text
  pub srp_verifier : Text
  pub bcrypt_salt : Text
  pub crypto_salt : List ℕ
  pub public_key : List ℕ
  pub encrypted_private_key : List ℕ
  pub kek_encrypted_master : List ℕ
  pub kek_encrypted_recovery : List ℕ
  pub recovery_salt : List ℕ

pub record Favorite : Type 0 where
  pub user_id : ℕ
  pub blob_id : Option ℕ
  pub folder_id : Option ℕ
  pub created_at : ℕ

pub record DeviceSession : Type 0 where
  pub id : ℕ
  pub user_id : ℕ
  pub device_id : Text
  pub device_name : Text
  pub ip_address : Text
  pub user_agent : Text
  pub created_at : ℕ
  pub last_active_at : ℕ
  pub revoked_at : Option ℕ

pub record RefreshSession : Type 0 where
  pub id : ℕ
  pub user_id : ℕ
  pub device_session_id : ℕ
  pub refresh_token_hash : List ℕ
  pub client_key : List ℕ
  pub expires_at : ℕ
  pub created_at : ℕ
  pub revoked_at : Option ℕ

pub record PasswordResetToken : Type 0 where
  pub id : ℕ
  pub user_id : ℕ
  pub token_hash : List ℕ
  pub expires_at : ℕ
  pub used_at : Option ℕ
  pub created_at : ℕ

pub record AuditEvent : Type 0 where
  pub id : ℕ
  pub user_id : ℕ
  pub event_type : Text
  pub ip_address : Text
  pub user_agent : Text
  pub resource_id : Option ℕ
  pub resource_name : Text
  pub created_at : ℕ

-- The tables of PostgreSQL and the keys of Redis.
pub record Db : Type 0 where
  pub blobs : List Blob
  pub folders : List Folder
  pub shares : List FileShare
  pub users : List User
  pub favorites : List Favorite
  pub device_sessions : List DeviceSession
  pub refresh_sessions : List RefreshSession
  pub reset_tokens : List PasswordResetToken
  pub audit_log : List AuditEvent
  pub redis : Redis

-- `DELETE FROM stored_blobs`: `ON DELETE CASCADE` takes the shares and the favorites along.
abbrev pub drop_blobs : (Blob → Bool) → Db → Db
drop_blobs here d = record d {
  blobs = delete here d.blobs;
  shares = delete (λ s. exists_row (λ b. here b && b.id == s.blob_id) d.blobs) d.shares;
  favorites = delete (λ v. exists_row (λ b. here b && holds_id v.blob_id b.id) d.blobs) d.favorites;
}

-- Whether a nullable column names a folder that a statement deletes.
abbrev pub names_one_of : (Folder → Bool) → List Folder → Option ℕ → Bool
names_one_of here folders o = exists_row (λ f. here f && holds_id o f.id) folders

-- `DELETE FROM folders`, where no constraint refuses it: `ON DELETE SET NULL` for the blobs, and
-- `ON DELETE CASCADE` for the favorites.
abbrev pub drop_folders : (Folder → Bool) → Db → Db
drop_folders here d = record d {
  folders = delete here d.folders;
  blobs =
      update (λ b. names_one_of here d.folders b.folder_id) (λ b. record b { folder_id = none })
        d.blobs;
  favorites = delete (λ v. names_one_of here d.folders v.folder_id) d.favorites;
}
