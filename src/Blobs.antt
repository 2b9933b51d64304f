-- ===== src/Blobs.antt =====
-- internal/repo/persistent/postgres/blobs.go: each method is its SQL statement over the tables.
pub mod Records
unfoldable pub use Records.*
use mathlib.Core.Option
use cloud_zero_knowledge_sto.Base.{
  ℕ, ◌+◌, ◌^◌, ◌<◌, Bool, ◌&&◌, ◌||◌, not, Option, none, some, List, [], ◌∷◌, ◌++◌, map, Text, ⊤,
  ltb, ◌==◌, if◌then◌else◌, text_eq, is_null, is_not_null, same_id, holds_id, is_before, select,
  update, updated, first, exists_row, order_desc, length,
}
use cloud_zero_knowledge_sto.Store.{
  Blob, Folder, Db, drop_blobs, Env, Action, Result, ok, err, Error, db_failed, unique_violation,
  foreign_key_violation, on_row, ◌>>=◌, pure, sql, query, exec,
}

unfoldable pub register : RegisterBlobParams → ℕ → Db → Result ⊤ × Db
register p t d =
    if exists_row (λ b. b.id == p.id || text_eq b.object_key p.object_key) d.blobs
    then (err unique_violation, d)
    else if exists_row (λ u. u.id == p.user_id) d.users
        && (is_null p.folder_id || folder_key_ok d.folders p.folder_id)
    then with_blobs (ok tt) (d.blobs ++ new_blob p t ∷ []) d
    else (err foreign_key_violation, d)

unfoldable pub move : ℕ → ℕ → Option ℕ → ℕ → Db → Result Bool × Db
move id user folder_id t d =
    let here = λ (b : Blob). is_blob_of id user b && is_null b.deleted_at in
    if exists_row here d.blobs
    then if is_null folder_id || folder_key_ok d.folders folder_id
      then with_blobs (ok Bool.true) (update here (λ b. record b { folder_id = folder_id }) d.blobs)
          d
      else (err foreign_key_violation, d)
    else (ok Bool.false, d)

abbrev pub restored : List Folder → Blob → Blob
restored folders b = record b {
  deleted_at = none;
  folder_id = if names_live_folder folders b.folder_id then b.folder_id else none;
}

module _ (e : Env) where
  unfoldable pub get_user_storage_used : ℕ → Action ℕ
  unfolding sum_sizes
  get_user_storage_used user = sql e λ t d.
      let total = sum_sizes (select (λ b. b.user_id == user) d.blobs) in
      if ltb total int64_limit then (ok total, d) else (err db_failed, d)

  unfoldable pub register_blob : RegisterBlobParams → Action ⊤
  unfolding register
  register_blob p = sql e (register p)

  unfoldable pub get_blob_meta : ℕ → ℕ → Action (Option BlobMeta)
  get_blob_meta id user =
      query e λ t d.
        Option.map to_meta (first (select (λ b. is_blob_of id user b && is_visible b) d.blobs))

  unfoldable pub remove_blob : ℕ → ℕ → Action (Option Text)
  remove_blob id user = exec e λ t d. (
    Option.map (λ b. b.object_key) (first (select (is_blob_of id user) d.blobs)),
    drop_blobs (is_blob_of id user) d,
  )

  unfoldable pub list_blobs : ℕ → Action (List Blob)
  unfolding order_desc
  list_blobs user = query e λ t d.
      order_desc (λ b. b.created_at) (select (λ b. b.user_id == user && is_visible b) d.blobs)

  unfoldable pub list_blobs_in_folder : ℕ → Option ℕ → Action (List Blob)
  unfolding order_desc
  list_blobs_in_folder user folder_id = query e λ t d.
      order_desc (λ b. b.created_at)
        (select (λ b. b.user_id == user && same_id b.folder_id folder_id && is_visible b) d.blobs)

  -- The first statement reads the names, the second writes.
  unfoldable pub move_blob : ℕ → ℕ → Option ℕ → Action (Option MoveBlobInfo)
  unfolding move
  move_blob id user folder_id = do
    found ← query e λ t d.
        Option.map {B = Text × Text} (λ b. (b.file_name, live_folder_name d.folders b.folder_id))
          (first (select (λ b. is_blob_of id user b && is_null b.deleted_at) d.blobs))
    on_row found (pure none) λ (file_name, src_folder_name). do
      moved ← sql e (move id user folder_id)
      pure (
          if moved
          then some (record {
            file_name = file_name;
            src_folder_name = src_folder_name;
            dst_folder_name = [];
          })
          else none)

  unfoldable pub rename_blob : ℕ → ℕ → Text → Action Bool
  rename_blob id user name = exec e λ t d.
      let here = λ (b : Blob). is_blob_of id user b && is_null b.deleted_at in
      with_blobs (exists_row here d.blobs)
        (update here (λ b. record b { file_name = name }) d.blobs) d

  unfoldable pub get_pending_blob_meta : ℕ → ℕ → Action (Option PendingBlobMeta)
  get_pending_blob_meta id user = query e λ t d.
      Option.map to_pending (first (select (λ b. is_blob_of id user b && is_pending b) d.blobs))

  unfoldable pub confirm_blob_upload : ℕ → ℕ → ℕ → Action Bool
  confirm_blob_upload id user actual_size = exec e λ t d.
      let here = λ (b : Blob). is_blob_of id user b && is_pending b in
      with_blobs (exists_row here d.blobs)
        (update here (λ b. record b { uploaded_at = some t; file_size = actual_size }) d.blobs) d

  unfoldable pub abort_pending_blob : ℕ → ℕ → Action (Option (Text × Text))
  abort_pending_blob id user = exec e λ t d.
      let here = λ (b : Blob). is_blob_of id user b && is_pending b in
      (
        Option.map {B = Text × Text} (λ b. (b.object_key, b.upload_id))
            (first (select here d.blobs)),
        drop_blobs here d,
      )

  unfoldable pub purge_orphaned_blobs : ℕ → Action (List OrphanedBlob)
  purge_orphaned_blobs before = exec e λ t d.
      let here = λ (b : Blob). is_pending b && ltb b.created_at before in
      let gone : List OrphanedBlob =
        map (λ b. record { object_key = b.object_key; upload_id = b.upload_id })
          (select here d.blobs) in
      (gone, drop_blobs here d)

  unfoldable pub trash_blob : ℕ → ℕ → Action (Option Text)
  trash_blob id user = exec e λ t d.
      let here = λ (b : Blob). is_blob_of id user b && is_null b.deleted_at in
      let trash = λ (b : Blob). record b { deleted_at = some t } in
      with_blobs (Option.map (λ b. b.file_name) (first (updated here trash d.blobs)))
        (update here trash d.blobs) d

  -- A blob whose folder is gone or in the trash comes back at the top level.
  unfoldable pub restore_blob : ℕ → ℕ → Action (Option Text)
  restore_blob id user = exec e λ t d.
      let here = λ (b : Blob). is_blob_of id user b && is_trashed b in
      with_blobs (Option.map (λ b. b.file_name) (first (updated here (restored d.folders) d.blobs)))
        (update here (restored d.folders) d.blobs) d

  unfoldable pub peek_trashed_blob : ℕ → ℕ → Action (Option (Text × Text))
  peek_trashed_blob id user = query e λ t d.
      Option.map {B = Text × Text} (λ b. (b.object_key, b.file_name))
        (first (select (λ b. is_blob_of id user b && is_trashed b) d.blobs))

  unfoldable pub hard_delete_blob : ℕ → ℕ → Action (Option (Text × Text))
  hard_delete_blob id user = exec e λ t d.
      let here = λ (b : Blob). is_blob_of id user b && is_trashed b in
      (
        Option.map {B = Text × Text} (λ b. (b.object_key, b.file_name))
            (first (select here d.blobs)),
        drop_blobs here d,
      )

  -- The trash shows a blob unless it stands in a folder that the trash shows.
  unfoldable pub list_trashed_blobs : ℕ → Action (List Blob)
  unfolding order_desc
  list_trashed_blobs user = query e λ t d.
      let in_trashed_folder = λ (b : Blob).
        exists_row (λ f. holds_id b.folder_id f.id && is_not_null f.deleted_at) d.folders in
      order_desc (λ b. Option.get_or b.deleted_at 0)
        (select
          (λ b.
            b.user_id == user && is_trashed b && (is_null b.folder_id || not (in_trashed_folder b)))
          d.blobs)

  unfoldable pub empty_trashed_blobs : ℕ → Action (List EmptiedBlob)
  empty_trashed_blobs user = exec e λ t d.
      let here = λ (b : Blob). b.user_id == user && is_trashed b in
      let gone : List EmptiedBlob =
        map (λ b. record { id = b.id; file_name = b.file_name; object_key = b.object_key })
          (select here d.blobs) in
      (gone, drop_blobs here d)

  unfoldable pub purge_expired_blobs : ℕ → Action (List Text)
  purge_expired_blobs before = exec e λ t d.
      let here = λ (b : Blob). is_before b.deleted_at before in
      (map (λ b. b.object_key) (select here d.blobs), drop_blobs here d)
