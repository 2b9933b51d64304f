-- ===== src/Tests.antt =====
-- Runs of the operations of internal/usecase on sample tables.
pub mod Sample
pub mod Queue
pub mod Trees
pub mod Accounts
pub mod Gate
use mathlib.Core.Option
use cloud_zero_knowledge_sto.Base.{
  ◌-◌, length, ℕ, zero, suc, ◌+◌, ◌^◌, ◌<◌, ◌≤◌, if◌then◌else◌, Bool, true, false, ◌&&◌, Option,
  none, some, List, [], ◌∷◌, map, Text, ◌≡◌, ◌≢◌, ◌↔◌, ◌⊎◌, inl, inr, refl, arith, select, first,
  contains, ◌==◌,
}
use cloud_zero_knowledge_sto.Store.{
  Blob, Folder, Db, Env, World, Result, ok, err, db_failed, running, calling,
}
use cloud_zero_knowledge_sto.Store.Ends.{Outcome}
use cloud_zero_knowledge_sto.Blobs
use cloud_zero_knowledge_sto.Blobs.{
  int64_limit, sum_sizes, is_blob_of, is_pending, register, get_user_storage_used, register_blob,
  get_pending_blob_meta, confirm_blob_upload, abort_pending_blob, purge_orphaned_blobs, trash_blob,
  restore_blob, peek_trashed_blob, hard_delete_blob, empty_trashed_blobs,
}
use cloud_zero_knowledge_sto.Folders.{
  MoveFolderParams, is_live, get_folder, is_descendant_of, move_folder, move, update_folders,
  unique_names, select_subtree, trash_folder, restore_folder, hard_delete_folder, delete_folders,
  empty_trashed_folders,
}
use cloud_zero_knowledge_sto.Folders.Subtree.{children, closure, closure_to_depth}
use cloud_zero_knowledge_sto.Folders.Reach.{Below, In, here, there, closure-Below}
use cloud_zero_knowledge_sto.Folders.Forest.{
  IsRanked, IsForest, closure_ends, falls_everywhere-IsRanked,
}
use cloud_zero_knowledge_sto.Names.{slash, backslash, sanitize_file_name}
use cloud_zero_knowledge_sto.Names.Safety.{
  IsElement, sanitize_file_name-IsElement, sanitize_file_name_root,
}
use cloud_zero_knowledge_sto.Uploads.{
  Limits, InitiateMultipartParams, InitiateMultipartResult, CompleteMultipartParams, exceeds_quota,
  check_quota, require_folder, or_abort, pass_or_abort, presign_parts, initiate_multipart_upload,
  complete_multipart_upload, abort_upload, discard_all, clean_orphaned_blobs,
}
use cloud_zero_knowledge_sto.Uploads.Admission.{used_by, IsAdmitted, initiate-IsAdmitted}
use cloud_zero_knowledge_sto.Uploads.Overflow.{initiate_over_quota}
use cloud_zero_knowledge_sto.Uploads.Completion.{
  IsCompleted, complete-IsCompleted, IsAborted, abort-IsAborted,
}
use cloud_zero_knowledge_sto.Uploads.Orphans.{IsCleaned, clean_orphaned-IsCleaned}
use cloud_zero_knowledge_sto.Favorites.{add_blob_favorite}
use cloud_zero_knowledge_sto.Favorites.Marks.{
  FavoriteRequest, favors_blob, HasSingleMarks, serve_favorite, serve_favorites,
  serve_favorites-HasSingleMarks,
}
use cloud_zero_knowledge_sto.Files.{delete_file, restore_file, hard_delete_file}
use cloud_zero_knowledge_sto.Files.Deletion.{IsDeleted, hard_delete-IsDeleted}
use cloud_zero_knowledge_sto.Files.RoundTrip.{restore_file-delete_file}
use cloud_zero_knowledge_sto.Directories.{
  remove_all, move_directory, delete_directory, restore_directory, hard_delete_directory,
}
use cloud_zero_knowledge_sto.Directories.Moves.{IsMoved, live_row, move_directory-IsMoved}
use cloud_zero_knowledge_sto.Directories.Forests.{move_directory-IsForest}
use cloud_zero_knowledge_sto.Directories.Trash.{IsInTrash, delete_directory-IsInTrash}
use cloud_zero_knowledge_sto.Directories.Restoration.{IsBack, restore_directory-IsBack}
use cloud_zero_knowledge_sto.Directories.Removal.{IsRemoved, hard_delete_directory-IsRemoved}
use cloud_zero_knowledge_sto.Bin.{empty_trash}
use cloud_zero_knowledge_sto.Bin.Emptying.{
  IsEmptied, without_blobs, empty_trash-IsEmptied, empty_trash_leaks,
}
use cloud_zero_knowledge_sto.Search.{search}
use cloud_zero_knowledge_sto.Search.Substrings.{search_by_name, search-search_by_name}
use cloud_zero_knowledge_sto.Sharing.{
  SharedFileResult, CreateShareParams, share_file, get_shared_file,
}
use cloud_zero_knowledge_sto.Sharing.Access.{IsOpened, get_shared_file-IsOpened}
use cloud_zero_knowledge_sto.Sharing.Creation.{IsShared, share_file-IsShared}
use cloud_zero_knowledge_sto.Sharing.Grants.{
  ShareRequest, HasSingleGrants, serve_shares, serve_shares-HasSingleGrants, revokes, shares,
}
use cloud_zero_knowledge_sto.Tenants.Requests.{
  FileRequest, serve_files, deletes, hard_deletes, initiates, restores,
}
use cloud_zero_knowledge_sto.Tenants.BlobRows.{blobs_of}
use cloud_zero_knowledge_sto.Tenants.Isolation.{blobs_of-serve_files}
use cloud_zero_knowledge_sto.Tenants.ObjectKeys.{HasDistinctKeys, serve_files-HasDistinctKeys}
use cloud_zero_knowledge_sto.Tests.Sample.{env, failing_env, blob, folder, tables, start, parts}

one_is_not_two : ◌≢◌ {A = ℕ} 1 2
one_is_not_two = omega arith

abbrev limits : Limits
limits = record { max_upload_bytes = 100; quota_bytes = 50 }

abbrev upload : InitiateMultipartParams
upload = record {
  user_id = 1;
  file_name = b'a' ∷ [];
  content_type = [];
  file_size = 7;
  file_size_plain = 6;
  chunk_size = 6;
  part_count = 2;
  encrypted_file_key = [];
  folder_id = some 10;
}

abbrev upload_params : CompleteMultipartParams
upload_params = record { blob_id = 21; user_id = 1; parts = parts }

abbrev share_params : CreateShareParams
share_params = record {
  blob_id = 20;
  owner_id = 1;
  recipient_email = 2 ∷ [];
  ephemeral_pub = [];
  wrapped_file_key = [];
  expires_at = none;
}

complete-IsCompleted_example :
    IsCompleted env upload_params tables (complete_multipart_upload env upload_params start).1.db
unfolding complete_multipart_upload get_pending_blob_meta confirm_blob_upload running calling
complete-IsCompleted_example = complete-IsCompleted env upload_params start

abort-IsAborted_example : IsAborted env 1 21 tables (abort_upload env 1 21 start).1.db
unfolding abort_upload get_pending_blob_meta abort_pending_blob running calling
abort-IsAborted_example = abort-IsAborted env 1 21 start

hard_delete-IsDeleted_example :
    IsDeleted env 1 22 tables (22 ∷ []) (hard_delete_file env 1 22 start).1.db
unfolding hard_delete_file peek_trashed_blob hard_delete_blob running calling
hard_delete-IsDeleted_example = hard_delete-IsDeleted env 1 22 start

initiate-IsAdmitted_example :
    IsAdmitted env limits upload tables
      (record {
        blob_id = 50;
        upload_id = 9 ∷ [];
        part_urls =
            record { part_number = 1; url = 1 ∷ [] }
            ∷ record { part_number = 2; url = 2 ∷ [] }
            ∷ [];
      })
      (initiate_multipart_upload env limits upload start).1.db
unfolding initiate_multipart_upload check_quota get_user_storage_used require_folder get_folder
    register_blob register or_abort pass_or_abort presign_parts sum_sizes running calling
initiate-IsAdmitted_example = initiate-IsAdmitted env limits upload start _ (omega arith) refl

abbrev unlimited : Limits
unlimited = record { max_upload_bytes = 0; quota_bytes = 50 }

abbrev huge_upload : InitiateMultipartParams
huge_upload = record upload { file_size = 2 ^ 63 - 1; folder_id = none }

initiate_over_quota_example :
    (r : InitiateMultipartResult) × ((initiate_multipart_upload env unlimited huge_upload start).0
      ≡ ok r)
    × (50 < used_by 1 (initiate_multipart_upload env unlimited huge_upload start).1.db)
unfolding sum_sizes
initiate_over_quota_example =
    initiate_over_quota env unlimited huge_upload start (λ _. refl)
      (record { opens = λ _ _. refl; signs = λ _ _ _ _. refl }) (omega arith) refl refl refl refl
      (omega arith) (omega arith) (omega arith)

clean_orphaned-IsCleaned_example : IsCleaned env 10 tables (clean_orphaned_blobs env 10 start).1.db
unfolding clean_orphaned_blobs purge_orphaned_blobs discard_all running calling
clean_orphaned-IsCleaned_example = clean_orphaned-IsCleaned env 10 start

-- User 1 deletes blob 20 and tries to delete blob 23, which is of user 2.
blobs_of-serve_files_example :
    blobs_of 2 (serve_files env limits ((1, deletes 20) ∷ (1, deletes 23) ∷ []) start).db
    ≡ blob 23 2 ∷ []
blobs_of-serve_files_example =
    blobs_of-serve_files env limits 2 ((1, deletes 20) ∷ (1, deletes 23) ∷ []) start
      (one_is_not_two, (one_is_not_two, tt))

serve_files-HasDistinctKeys_example :
    HasDistinctKeys (serve_files env limits ((1, hard_deletes 22) ∷ (2, deletes 23) ∷ []) start).db
serve_files-HasDistinctKeys_example =
    serve_files-HasDistinctKeys env limits ((1, hard_deletes 22) ∷ (2, deletes 23) ∷ []) start
      (record { distinct = refl })

restore_file-delete_file_example :
    ((delete_file env 1 20 start).0 ≡ ok (20 ∷ []))
    × (restore_file env 1 20 (delete_file env 1 20 start).1
        ≡ (ok (20 ∷ []), record start { steps = 2 }))
restore_file-delete_file_example =
    restore_file-delete_file env 1 20 (record (blob 20 1) { folder_id = some 10 }) start refl refl
      refl refl

get_shared_file-IsOpened_example :
    Outcome
      (get_shared_file env 30 2 start).0
      (λ r. IsOpened env 30 2 tables r × ((get_shared_file env 30 2 start).1.db ≡ tables))
      ((get_shared_file env 30 2 start).1.db ≡ tables)
get_shared_file-IsOpened_example = get_shared_file-IsOpened env 30 2 start

share_file-IsShared_example :
    Outcome
      (share_file env share_params start).0
      (λ _. IsShared env share_params tables (share_file env share_params start).1.db)
      ((share_file env share_params start).1.db ≡ tables)
share_file-IsShared_example = share_file-IsShared env share_params start

serve_shares-HasSingleGrants_example :
    HasSingleGrants
      (serve_shares env ((1, revokes 30) ∷ (1, shares 20 (2 ∷ []) [] [] none) ∷ []) start).db
serve_shares-HasSingleGrants_example =
    serve_shares-HasSingleGrants env ((1, revokes 30) ∷ (1, shares 20 (2 ∷ []) [] [] none) ∷ [])
      start (record { single = refl })

sanitize_file_name-IsElement_example :
    (sanitize_file_name (b'.' ∷ b'.' ∷ backslash ∷ b'a' ∷ []) ≡ slash ∷ [])
    ⊎ IsElement (sanitize_file_name (b'.' ∷ b'.' ∷ backslash ∷ b'a' ∷ []))
sanitize_file_name-IsElement_example =
    sanitize_file_name-IsElement (b'.' ∷ b'.' ∷ backslash ∷ b'a' ∷ [])

sanitize_file_name_root_example : sanitize_file_name (backslash ∷ slash ∷ []) ≡ slash ∷ []
sanitize_file_name_root_example = sanitize_file_name_root backslash (slash ∷ []) refl

-- A query of one `%`.
search-search_by_name_example : search env 1 (37 ∷ []) start ≡ search_by_name env 1 (37 ∷ []) start
search-search_by_name_example = search-search_by_name env 1 (37 ∷ []) start

serve_favorites-HasSingleMarks_example :
    HasSingleMarks (serve_favorites env ((1, favors_blob 20) ∷ (1, favors_blob 20) ∷ []) start).db
serve_favorites-HasSingleMarks_example =
    serve_favorites-HasSingleMarks env ((1, favors_blob 20) ∷ (1, favors_blob 20) ∷ []) start
      (record { single = refl })

-- The second mark of one blob adds nothing.
marked_once :
    length (serve_favorites env ((1, favors_blob 20) ∷ (1, favors_blob 20) ∷ []) start).db.favorites
    ≡ 1
unfolding serve_favorites serve_favorite add_blob_favorite running
marked_once = refl
