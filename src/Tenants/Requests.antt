-- ===== src/Tenants/Requests.antt =====
-- The requests of one user on blobs, as internal/controller/restapi/v1 passes them to the service
-- of internal/usecase/storage/service.go with the user of the token.
use cloud_zero_knowledge_sto.Base.{
  ℕ, zero, suc, Option, none, some, List, [], ◌∷◌, Text, ◌≡◌, refl, arith,
}
use cloud_zero_knowledge_sto.Store.{Db, Env, World, Action, Result, ok, err, UploadedPart}
use cloud_zero_knowledge_sto.Store.Keeps.{
  Keeps, Keeps-bind, Keeps-attempt, Keeps-pure, keeps_rules, Keeps-sql, Keeps-uuid_new,
  Keeps-raise_if, Keeps-new_multipart_upload, Keeps-presign_upload_part,
}
use cloud_zero_knowledge_sto.Blobs.{
  RegisterBlobParams, register_blob, move_blob, rename_blob, confirm_blob_upload, trash_blob,
  restore_blob, abort_pending_blob, hard_delete_blob, get_user_storage_used, get_blob_meta,
  list_blobs, list_blobs_in_folder, get_pending_blob_meta, peek_trashed_blob,
}
use cloud_zero_knowledge_sto.Folders.{get_folder}
use cloud_zero_knowledge_sto.Uploads.{
  Limits, InitiateMultipartParams, check_quota, require_folder, require_optional_folder,
  pass_or_abort, or_abort, presign_parts, initiate_multipart_upload, complete_multipart_upload,
  abort_upload,
}
use cloud_zero_knowledge_sto.Files.{
  get_storage_usage, presign_get, delete_file, restore_file, hard_delete_file, list_files,
  list_files_in_folder, folder_name, move_file, rename_file,
}

pub data FileRequest : Type 0 where
  initiates : InitiateMultipartParams → FileRequest
  completes : ℕ → List UploadedPart → FileRequest
  aborts downloads deletes restores hard_deletes : ℕ → FileRequest
  moves : ℕ → Option ℕ → FileRequest
  renames : ℕ → Text → FileRequest
  lists measures : FileRequest
  lists_folder : Option ℕ → FileRequest

module _ (e : Env) (l : Limits) where
  -- The world after a request of user `u`; what it answers does not matter here.
  unfoldable pub serve_file : ℕ → FileRequest → World → World
  serve_file u (initiates p) w = (initiate_multipart_upload e l (record p { user_id = u }) w).1
  serve_file u (completes id parts) w =
      (complete_multipart_upload e (record { blob_id = id; user_id = u; parts = parts }) w).1
  serve_file u (aborts id) w = (abort_upload e u id w).1
  serve_file u (downloads id) w = (presign_get e u id w).1
  serve_file u (deletes id) w = (delete_file e u id w).1
  serve_file u (restores id) w = (restore_file e u id w).1
  serve_file u (hard_deletes id) w = (hard_delete_file e u id w).1
  serve_file u (moves id folder_id) w = (move_file e u id folder_id w).1
  serve_file u (renames id name) w = (rename_file e u id name w).1
  serve_file u lists w = (list_files e u w).1
  serve_file u measures w = (get_storage_usage e l u w).1
  serve_file u (lists_folder folder_id) w = (list_files_in_folder e u folder_id w).1

  unfoldable pub serve_files : List (ℕ × FileRequest) → World → World
  unfolding serve_file
  serve_files [] w = w
  serve_files ((u, r) ∷ rs) w = serve_files rs (serve_file u r w)

-- The statements by which the requests of user `u` write to the tables, each keeping `P`.
pub record FileWrites (e : Env) (u : ℕ) (P : Db → Type 0) : Type 0 where
  pub registers : (p : RegisterBlobParams) → p.user_id ≡ u → Keeps P (register_blob e p)
  pub confirms : (id size : ℕ) → Keeps P (confirm_blob_upload e id u size)
  pub drops_pending : (id : ℕ) → Keeps P (abort_pending_blob e id u)
  pub trashes : (id : ℕ) → Keeps P (trash_blob e id u)
  pub brings_back : (id : ℕ) → Keeps P (restore_blob e id u)
  pub drops_trashed : (id : ℕ) → Keeps P (hard_delete_blob e id u)
  pub moves_to : (id : ℕ) (folder_id : Option ℕ) → Keeps P (move_blob e id u folder_id)
  pub renames_to : (id : ℕ) (name : Text) → Keeps P (rename_blob e id u name)

module _ (e : Env) {P : Db → Type 0} where
  pub get_user_storage_used-Keeps : (u : ℕ) → Keeps P (get_user_storage_used e u)
  unfolding get_user_storage_used
  get_user_storage_used-Keeps u = Keeps-sql e _ λ t d h. ground (arith, h)

  pub require_optional_folder-Keeps :
      (o : Option ℕ) (u : ℕ) → Keeps P (require_optional_folder e o u)
  unfolding require_folder get_folder
  require_optional_folder-Keeps none u = Keeps-pure tt
  require_optional_folder-Keeps (some id) u = search keeps_rules

  pub folder_name-Keeps : (o : Option ℕ) (u : ℕ) → Keeps P (folder_name e o u)
  unfolding get_folder
  folder_name-Keeps none u = Keeps-pure []
  folder_name-Keeps (some id) u = search keeps_rules

  check_quota-Keeps : (l : Limits) (u size : ℕ) → Keeps P (check_quota e l u size)
  unfolding check_quota
  check_quota-Keeps l u size = search (keeps_rules, get_user_storage_used-Keeps)

  pass_or_abort-Keeps :
      {A : Type 0} (key id : Text) (r : Result A) → Keeps P (pass_or_abort e key id r)
  unfolding pass_or_abort
  pass_or_abort-Keeps key id (ok a) = Keeps-pure a
  pass_or_abort-Keeps key id (err x) = search keeps_rules

  pub or_abort-Keeps :
      {A : Type 0} (key id : Text) (m : Action A) → Keeps P m → Keeps P (or_abort e key id m)
  unfolding or_abort
  or_abort-Keeps key id m km = Keeps-attempt m _ km (pass_or_abort-Keeps key id)

  pub presign_parts-Keeps : (key id : Text) (n i : ℕ) → Keeps P (presign_parts e key id n i)
  unfolding presign_parts
  presign_parts-Keeps key id zero i = Keeps-pure []
  presign_parts-Keeps key id (suc n) i =
      Keeps-bind _ _ (or_abort-Keeps key id _ (Keeps-presign_upload_part e key id i))
        λ url. Keeps-bind _ _ (presign_parts-Keeps key id n (suc i)) λ rest. Keeps-pure _

module _ (e : Env) (l : Limits) (u : ℕ) {P : Db → Type 0} (writes : FileWrites e u P) where
  initiate-Keeps :
      (p : InitiateMultipartParams)
      → Keeps P (initiate_multipart_upload e l (record p { user_id = u }))
  unfolding initiate_multipart_upload
  initiate-Keeps p = Keeps-bind _ _ (Keeps-uuid_new e) λ id.
      Keeps-bind _ _ (Keeps-raise_if _ _) λ _.
        Keeps-bind _ _ (check_quota-Keeps e l u p.file_size) λ _.
          Keeps-bind _ _ (require_optional_folder-Keeps e p.folder_id u) λ _.
            Keeps-bind _ _ (Keeps-new_multipart_upload e _) λ upload_id.
              Keeps-bind _ _ (or_abort-Keeps e _ upload_id _ (writes.registers _ refl)) λ _.
                Keeps-bind _ _ (presign_parts-Keeps e _ upload_id p.part_count 1) λ _. Keeps-pure _

  complete-Keeps :
      (id : ℕ) (parts : List UploadedPart)
      → Keeps P (complete_multipart_upload e (record { blob_id = id; user_id = u; parts = parts }))
  unfolding complete_multipart_upload get_pending_blob_meta
  complete-Keeps id parts = search (keeps_rules, writes.confirms) depth 12

  abort-Keeps : (id : ℕ) → Keeps P (abort_upload e u id)
  unfolding abort_upload get_pending_blob_meta
  abort-Keeps id = search (keeps_rules, writes.drops_pending) depth 12

  hard_delete-Keeps : (id : ℕ) → Keeps P (hard_delete_file e u id)
  unfolding hard_delete_file peek_trashed_blob
  hard_delete-Keeps id = search (keeps_rules, writes.drops_trashed) depth 12

  -- Every request keeps what the statements of its user keep.
  pub serve_file-Keeps : (r : FileRequest) (w : World) → P w.db → P (serve_file e l u r w).db
  unfolding serve_file presign_get delete_file restore_file move_file rename_file list_files
      get_storage_usage list_files_in_folder get_blob_meta list_blobs list_blobs_in_folder
  serve_file-Keeps (initiates p) w = (initiate-Keeps p).at w
  serve_file-Keeps (completes id parts) w = (complete-Keeps id parts).at w
  serve_file-Keeps (aborts id) w = (abort-Keeps id).at w
  serve_file-Keeps (downloads id) w =
      let k : Keeps P (presign_get e u id) = search keeps_rules in k.at w
  serve_file-Keeps (deletes id) w =
      let k : Keeps P (delete_file e u id) = search (keeps_rules, writes.trashes) in k.at w
  serve_file-Keeps (restores id) w =
      let k : Keeps P (restore_file e u id) = search (keeps_rules, writes.brings_back) in k.at w
  serve_file-Keeps (hard_deletes id) w = (hard_delete-Keeps id).at w
  serve_file-Keeps (moves id o) w =
      let k : Keeps P (move_file e u id o) =
        search (keeps_rules, folder_name-Keeps, writes.moves_to) in
      k.at w
  serve_file-Keeps (renames id name) w =
      let k : Keeps P (rename_file e u id name) = search (keeps_rules, writes.renames_to) in k.at w
  serve_file-Keeps lists w = let k : Keeps P (list_files e u) = search keeps_rules in k.at w
  serve_file-Keeps measures w =
      let k : Keeps P (get_storage_usage e l u) =
        search (keeps_rules, get_user_storage_used-Keeps) in
      k.at w
  serve_file-Keeps (lists_folder o) w =
      let k : Keeps P (list_files_in_folder e u o) =
        search (keeps_rules, require_optional_folder-Keeps) in
      k.at w
