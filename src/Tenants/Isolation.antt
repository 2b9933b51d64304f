-- ===== src/Tenants/Isolation.antt =====
-- The blobs of a user over sequences of requests of others to internal/usecase/storage/service.go.
use cloud_zero_knowledge_sto.Base.{ℕ, List, [], ◌∷◌, ◌≡◌, ◌≢◌, refl, ◌∙◌, All}
use cloud_zero_knowledge_sto.Store.{Blob, Env, World}
use cloud_zero_knowledge_sto.Uploads.{Limits}
use cloud_zero_knowledge_sto.Tenants.Requests.{
  FileRequest, serve_file, serve_files, FileWrites, serve_file-Keeps,
}
use cloud_zero_knowledge_sto.Tenants.BlobRows.{
  blobs_of, HasRows, register_blob-HasRows, move_blob-HasRows, rename_blob-HasRows,
  confirm_blob_upload-HasRows, trash_blob-HasRows, restore_blob-HasRows, abort_pending_blob-HasRows,
  hard_delete_blob-HasRows,
}

others_writes :
    (e : Env) (u v : ℕ) (other : u ≢ v) (rows : List Blob) → FileWrites e u (HasRows v rows)
others_writes e u v other rows = record {
  registers = register_blob-HasRows e u v other;
  confirms = confirm_blob_upload-HasRows e u v other;
  drops_pending = abort_pending_blob-HasRows e u v other;
  trashes = trash_blob-HasRows e u v other;
  brings_back = restore_blob-HasRows e u v other;
  drops_trashed = hard_delete_blob-HasRows e u v other;
  moves_to = move_blob-HasRows e u v other;
  renames_to = rename_blob-HasRows e u v other;
}

-- Over any sequence of file requests, of any users but `v`, with any failures of the database and
-- of the object store, the rows of `v` in the table of blobs stay what they were, in their order.
pub blobs_of-serve_files :
    (e : Env) (l : Limits) (v : ℕ) (rs : List (ℕ × FileRequest)) (w : World)
    → All (λ r. r.0 ≢ v) rs
    → blobs_of v (serve_files e l rs w).db ≡ blobs_of v w.db
unfolding serve_files
blobs_of-serve_files e l v [] w others = refl
blobs_of-serve_files e l v ((u, r) ∷ rs) w others =
    blobs_of-serve_files e l v rs (serve_file e l u r w) others.1
    ∙ (serve_file-Keeps e l u (others_writes e u v others.0 (blobs_of v w.db)) r w
        (record { same = refl })).same
