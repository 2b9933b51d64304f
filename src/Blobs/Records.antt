-- ===== src/Blobs/Records.antt =====
-- The parameters and results of internal/usecase/storage/models.go for blobs, and the conditions
-- and columns of the statements in internal/repo/persistent/postgres/blobs.go.
use mathlib.Core.Option
use cloud_zero_knowledge_sto.Base.{
  ℕ, ◌+◌, ◌^◌, Bool, ◌&&◌, Option, none, some, List, [], ◌∷◌, Text, ◌==◌, is_null, is_not_null,
  select, first, exists_row,
}
use cloud_zero_knowledge_sto.Store.{Blob, Folder, Db}

-- The parameters and results of internal/usecase/storage/models.go.
pub record RegisterBlobParams : Type 0 where
  pub id : ℕ
  pub user_id : ℕ
  pub file_name : Text
  pub content_type : Text
  pub object_key : Text
  pub file_size : ℕ
  pub file_size_plain : ℕ
  pub chunk_size : ℕ
  pub encrypted_file_key : List ℕ
  pub folder_id : Option ℕ
  pub upload_id : Text

pub record BlobMeta : Type 0 where
  pub object_key : Text
  pub content_type : Text
  pub encrypted_file_key : List ℕ
  pub file_name : Text
  pub file_size : ℕ
  pub file_size_plain : ℕ
  pub chunk_size : ℕ

pub record PendingBlobMeta : Type 0 where
  pub object_key : Text
  pub declared_size : ℕ
  pub file_name : Text
  pub folder_id : Option ℕ
  pub upload_id : Text

pub record MoveBlobInfo : Type 0 where
  pub file_name : Text
  pub src_folder_name : Text
  pub dst_folder_name : Text

pub record OrphanedBlob : Type 0 where
  pub object_key : Text
  pub upload_id : Text

pub record EmptiedBlob : Type 0 where
  pub id : ℕ
  pub file_name : Text
  pub object_key : Text

-- The conditions of the `WHERE` clauses.
abbrev pub is_blob_of : ℕ → ℕ → Blob → Bool
is_blob_of id user b = b.id == id && b.user_id == user

abbrev pub is_visible : Blob → Bool
is_visible b = is_null b.deleted_at && is_not_null b.uploaded_at

abbrev pub is_pending : Blob → Bool
is_pending b = is_null b.uploaded_at && is_null b.deleted_at

abbrev pub is_trashed : Blob → Bool
is_trashed b = is_not_null b.deleted_at

abbrev pub is_live_folder : ℕ → Folder → Bool
is_live_folder id f = f.id == id && is_null f.deleted_at

-- Whether a nullable column names a live folder: `EXISTS(SELECT 1 FROM folders …)`.
abbrev pub names_live_folder : List Folder → Option ℕ → Bool
names_live_folder folders =
    λ o. elim o [ none ↦ Bool.false | some id ↦ exists_row (is_live_folder id) folders ]

-- The foreign key on `folders`.
abbrev pub folder_key_ok : List Folder → Option ℕ → Bool
folder_key_ok folders =
    λ o. elim o [ none ↦ Bool.true | some id ↦ exists_row (λ f. f.id == id) folders ]

-- `COALESCE(f.name, '')` of the `LEFT JOIN` with the live folders.
abbrev pub live_folder_name : List Folder → Option ℕ → Text
live_folder_name folders = λ o. elim o [
  | none ↦ []
  | some id ↦
      Option.get_or (Option.map (λ f. f.name) (first (select (is_live_folder id) folders))) []
]

abbrev pub int64_limit : ℕ
int64_limit = 2 ^ 63

unfoldable pub sum_sizes : List Blob → ℕ
sum_sizes [] = 0
sum_sizes (b ∷ bs) = b.file_size + sum_sizes bs

abbrev pub to_meta : Blob → BlobMeta
to_meta b = record {
  object_key = b.object_key;
  content_type = b.content_type;
  encrypted_file_key = b.encrypted_file_key;
  file_name = b.file_name;
  file_size = b.file_size;
  file_size_plain = b.file_size_plain;
  chunk_size = b.chunk_size;
}

abbrev pub to_pending : Blob → PendingBlobMeta
to_pending b = record {
  object_key = b.object_key;
  declared_size = b.file_size;
  file_name = b.file_name;
  folder_id = b.folder_id;
  upload_id = b.upload_id;
}

abbrev pub new_blob : RegisterBlobParams → ℕ → Blob
new_blob p t = record {
  id = p.id;
  user_id = p.user_id;
  folder_id = p.folder_id;
  file_name = p.file_name;
  content_type = p.content_type;
  object_key = p.object_key;
  file_size = p.file_size;
  file_size_plain = p.file_size_plain;
  chunk_size = p.chunk_size;
  created_at = t;
  uploaded_at = none;
  encrypted_file_key = p.encrypted_file_key;
  upload_id = p.upload_id;
  deleted_at = none;
}

-- What the statement runs on, for those that touch `stored_blobs` alone.
abbrev pub with_blobs {ℓ} : {A : Type ℓ} → A → List Blob → Db → A × Db
with_blobs a bs d = (a, record d { blobs = bs })
