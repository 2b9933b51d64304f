-- ===== src/Tenants/BlobRows.antt =====
-- The statements of internal/repo/persistent/postgres/blobs.go on behalf of one user, seen from
-- the rows of another.
use cloud_zero_knowledge_sto.Base.{
  ℕ, Bool, true, ◌&&◌, Option, none, List, Text, ◌≡◌, ◌≢◌, refl, ◌∙◌, arith, ◌==◌, is_null, select,
  update, delete, select-update_disjoint, select-delete_disjoint, select-snoc_out,
}
use cloud_zero_knowledge_sto.Store.{Blob, Db, Env}
use cloud_zero_knowledge_sto.Store.Keeps.{
  Keeps, Keeps-bind, Keeps-query, Keeps-on_row, Keeps-pure, Keeps-sql, Keeps-exec,
}
use cloud_zero_knowledge_sto.Blobs.{
  RegisterBlobParams, new_blob, is_blob_of, is_pending, is_trashed, register, move, register_blob,
  remove_blob, move_blob, rename_blob, confirm_blob_upload, abort_pending_blob, trash_blob,
  restore_blob, hard_delete_blob, empty_trashed_blobs,
}

abbrev pub is_row_of : ℕ → Blob → Bool
is_row_of v b = b.user_id == v

-- The rows of user `v`, in the order of the table.
abbrev pub blobs_of : ℕ → Db → List Blob
blobs_of v d = select (is_row_of v) d.blobs

-- The rows of `v` are those in `rows`.
pub record HasRows (v : ℕ) (rows : List Blob) (d : Db) : Type 0 where
  pub same : blobs_of v d ≡ rows

module _ (e : Env) (u v : ℕ) (other : u ≢ v) {rows : List Blob} where
  update-HasRows :
      (d : Db) (p : Blob → Bool) (f : Blob → Blob)
      → ((b : Blob) → p b ≡ true → b.user_id ≡ u)
      → ((b : Blob) → (f b).user_id ≡ b.user_id)
      → HasRows v rows d
      → (d' : Db) → d'.blobs ≡ update p f d.blobs
      → HasRows v rows d'
  update-HasRows d p f mine keeps h d' e' = record {
    same = rw e' (
        select-update_disjoint (is_row_of v) p f (λ b hit. ground (arith, mine b hit))
          (λ b hit. ground (arith, mine b hit, keeps b)) d.blobs
        ∙ h.same);
  }

  delete-HasRows :
      (d : Db) (p : Blob → Bool)
      → ((b : Blob) → p b ≡ true → b.user_id ≡ u)
      → HasRows v rows d
      → (d' : Db) → d'.blobs ≡ delete p d.blobs
      → HasRows v rows d'
  delete-HasRows d p mine h d' e' = record {
    same = rw e' (
        select-delete_disjoint (is_row_of v) p (λ b hit. ground (arith, mine b hit)) d.blobs
        ∙ h.same);
  }

  pub register_blob-HasRows :
      (p : RegisterBlobParams) → p.user_id ≡ u → Keeps (HasRows v rows) (register_blob e p)
  unfolding register_blob register
  register_blob-HasRows p mine = Keeps-sql e (register p) λ t d h. record {
    same =
        ground (arith, h.same, select-snoc_out (is_row_of v) d.blobs (new_blob p t) (ground arith));
  }

  move-HasRows :
      (id : ℕ) (folder_id : Option ℕ) (t : ℕ) (d : Db)
      → HasRows v rows d
      → HasRows v rows (move id u folder_id t d).1
  unfolding move
  move-HasRows id folder_id t d h =
      let here = λ (b : Blob). is_blob_of id u b && is_null b.deleted_at in
      let moved : HasRows v rows
          (record d { blobs = update here (λ b. record b { folder_id = folder_id }) d.blobs }) =
        update-HasRows d here (λ b. record b { folder_id = folder_id }) (λ b hit. ground arith)
          (λ b. refl) h _ refl in
      record { same = ground (arith, h.same, moved.same) }

  pub move_blob-HasRows :
      (id : ℕ) (folder_id : Option ℕ) → Keeps (HasRows v rows) (move_blob e id u folder_id)
  unfolding move_blob
  move_blob-HasRows id folder_id = Keeps-bind _ _ (Keeps-query e _) λ found.
      Keeps-on_row found _ _ (Keeps-pure none) λ row.
        Keeps-bind _ _ (Keeps-sql e (move id u folder_id) (move-HasRows id folder_id))
          λ moved. Keeps-pure _

  pub rename_blob-HasRows :
      (id : ℕ) (name : Text) → Keeps (HasRows v rows) (rename_blob e id u name)
  unfolding rename_blob
  rename_blob-HasRows id name = Keeps-exec e _ λ t d h.
      update-HasRows d (λ b. is_blob_of id u b && is_null b.deleted_at) _ (λ b hit. ground arith)
        (λ b. refl) h _ refl

  pub confirm_blob_upload-HasRows :
      (id size : ℕ) → Keeps (HasRows v rows) (confirm_blob_upload e id u size)
  unfolding confirm_blob_upload
  confirm_blob_upload-HasRows id size = Keeps-exec e _ λ t d h.
      update-HasRows d (λ b. is_blob_of id u b && is_pending b) _ (λ b hit. ground arith)
        (λ b. refl) h _ refl

  pub trash_blob-HasRows : (id : ℕ) → Keeps (HasRows v rows) (trash_blob e id u)
  unfolding trash_blob
  trash_blob-HasRows id = Keeps-exec e _ λ t d h.
      update-HasRows d (λ b. is_blob_of id u b && is_null b.deleted_at) _ (λ b hit. ground arith)
        (λ b. refl) h _ refl

  pub restore_blob-HasRows : (id : ℕ) → Keeps (HasRows v rows) (restore_blob e id u)
  unfolding restore_blob
  restore_blob-HasRows id = Keeps-exec e _ λ t d h.
      update-HasRows d (λ b. is_blob_of id u b && is_trashed b) _ (λ b hit. ground arith)
        (λ b. refl) h _ refl

  pub remove_blob-HasRows : (id : ℕ) → Keeps (HasRows v rows) (remove_blob e id u)
  unfolding remove_blob
  remove_blob-HasRows id =
      Keeps-exec e _ λ t d h. delete-HasRows d _ (λ b hit. ground arith) h _ refl

  pub abort_pending_blob-HasRows : (id : ℕ) → Keeps (HasRows v rows) (abort_pending_blob e id u)
  unfolding abort_pending_blob
  abort_pending_blob-HasRows id =
      Keeps-exec e _ λ t d h. delete-HasRows d _ (λ b hit. ground arith) h _ refl

  pub hard_delete_blob-HasRows : (id : ℕ) → Keeps (HasRows v rows) (hard_delete_blob e id u)
  unfolding hard_delete_blob
  hard_delete_blob-HasRows id =
      Keeps-exec e _ λ t d h. delete-HasRows d _ (λ b hit. ground arith) h _ refl

  pub empty_trashed_blobs-HasRows : Keeps (HasRows v rows) (empty_trashed_blobs e u)
  unfolding empty_trashed_blobs
  empty_trashed_blobs-HasRows =
      Keeps-exec e _ λ t d h. delete-HasRows d _ (λ b hit. ground arith) h _ refl
