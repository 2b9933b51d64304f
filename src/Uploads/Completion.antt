-- ===== src/Uploads/Completion.antt =====
-- What `CompleteMultipartUpload` and `AbortUpload` of internal/usecase/storage/service.go leave,
-- whether they return or fail.
use cloud_zero_knowledge_sto.Base.{
  ℕ, true, false, ◌&&◌, Option, some, Text, ◌≡◌, refl, inl, inr, ap, select, update, first,
  is_empty, if◌then◌else◌, Bool-cases, first-some,
}
use cloud_zero_knowledge_sto.Store.{Blob, Db, Env, World, drop_blobs}
use cloud_zero_knowledge_sto.Store.Ends.{
  Outcome, Ends, Ends-given, Ends-bind, Ends-pure, Ends-raise_if, Ends-exec,
}
use cloud_zero_knowledge_sto.Store.Transactions.{Ends-read_map}
use cloud_zero_knowledge_sto.Store.Answers.{
  complete_object_lem, stat_object_lem, remove_object_lem, abort_multipart_lem,
}
use cloud_zero_knowledge_sto.Blobs.{
  is_blob_of, is_pending, to_pending, get_pending_blob_meta, confirm_blob_upload,
  abort_pending_blob,
}
use cloud_zero_knowledge_sto.Uploads.{
  CompleteMultipartParams, complete_multipart_upload, discard, abort_upload,
}

-- The pending row that a call is about.
abbrev pub pending_row : ℕ → ℕ → Db → Option Blob
pending_row id user d = first (select (λ b. is_blob_of id user b && is_pending b) d.blobs)

-- What holds when an upload was completed at the tables `d₀`.
pub record IsCompleted (e : Env) (p : CompleteMultipartParams) (d₀ d : Db) : Type 0 where
  pub row : Blob
  pub was_pending : pending_row p.blob_id p.user_id d₀ ≡ some row
  pub had_upload : is_empty row.upload_id ≡ false
  pub assembled : (n : ℕ) × (e.complete_ok n row.object_key row.upload_id p.parts ≡ true)
  pub size : ℕ
  pub measured : (n : ℕ) × (e.stat_object_size n row.object_key ≡ some size)
  pub confirmed :
      (t : ℕ) × (d ≡ record d₀ {
        blobs =
            update
              (λ b. is_blob_of p.blob_id p.user_id b && is_pending b)
              (λ b. record b { uploaded_at = some t; file_size = size })
              d₀.blobs;
      })

complete_lem :
    (e : Env) (p : CompleteMultipartParams) (d₀ : Db)
    → Ends (λ d. d ≡ d₀) (complete_multipart_upload e p) (λ _. IsCompleted e p d₀) (λ d. d ≡ d₀)
unfolding complete_multipart_upload get_pending_blob_meta confirm_blob_upload
complete_lem e p d₀ =
    let R = λ (d : Db). d ≡ d₀ in
    Ends-read_map e d₀ _ _ (pending_row p.blob_id p.user_id) to_pending _ λ row was.
      Ends-bind _ _ _ _ R (Ends-raise_if _ _ R (λ d h. h)) λ _. Ends-given _ _ _ R λ had_upload.
        Ends-bind _ _ _ _ R (complete_object_lem e _ _ _ R (λ d h. h)) λ _.
          Ends-given _ _ _ R λ assembled.
            Ends-bind _ _ _ _ R (stat_object_lem e _ R (λ d h. h)) λ size.
              Ends-given _ _ _ R λ measured.
                Ends-bind _ _ (λ done d. (done ≡ true) × IsCompleted e p d₀ d) _ R
                  (Ends-exec e _ _ R (λ d h. h)
                    λ t d h. (
                      rw h (first-some _ d₀.blobs row was),
                      record {
                        row = row;
                        was_pending = was;
                        had_upload = had_upload;
                        assembled = assembled;
                        size = size;
                        measured = measured;
                        confirmed = (t, rw h refl);
                      },
                    ))
                  λ done. Ends-given _ _ _ R λ sure. rw sure (Ends-pure tt _ R λ d h. h)

-- What holds when an upload was aborted at the tables `d₀`.
pub record IsAborted (e : Env) (user id : ℕ) (d₀ d : Db) : Type 0 where
  pub row : Blob
  pub was_pending : pending_row id user d₀ ≡ some row
  pub discarded :
      (n : ℕ) × ((if is_empty row.upload_id
          then e.remove_object_ok n row.object_key
          else e.abort_ok n row.object_key row.upload_id)
        ≡ true)
  pub row_gone : d ≡ drop_blobs (λ b. is_blob_of id user b && is_pending b) d₀

pub discard_lem :
    (e : Env) {P : Db → Type 0} (key id : Text)
    → Ends P
        (discard e key id)
        (λ _ d.
          ((n : ℕ) × ((if is_empty id then e.remove_object_ok n key else e.abort_ok n key id)
              ≡ true))
          × P d)
        P
discard_lem e {P} key id = elim (Bool-cases (is_empty id)) [
  | inl unopened ↦ rw unopened (remove_object_lem e key P λ d h. h)
  | inr opened ↦ rw opened (abort_multipart_lem e key id P λ d h. h)
]

abort_lem :
    (e : Env) (user id : ℕ) (d₀ : Db)
    → Ends (λ d. d ≡ d₀) (abort_upload e user id) (λ _. IsAborted e user id d₀) (λ d. d ≡ d₀)
unfolding abort_upload get_pending_blob_meta abort_pending_blob
abort_lem e user id d₀ =
    let R = λ (d : Db). d ≡ d₀ in
    Ends-read_map e d₀ _ _ (pending_row id user) to_pending _ λ row was.
      Ends-bind _ _ _ _ R (discard_lem e row.object_key row.upload_id) λ _.
        Ends-given _ _ _ R λ discarded.
          Ends-bind _ _ (λ _. IsAborted e user id d₀) _ R
            (Ends-exec e _ _ R (λ d h. h)
              λ t d h. record {
                row = row;
                was_pending = was;
                discarded = discarded;
                row_gone = ap (drop_blobs (λ b. is_blob_of id user b && is_pending b)) h;
              })
            λ _. Ends-pure tt _ R λ d h. h

-- `CompleteMultipartUpload` either fails and leaves every table as it was, or: there was a pending
-- row of the user with an open upload, the object store assembled the given parts at the row's
-- key and gave a size for the object there, and the row is now uploaded, with that size.
pub complete-IsCompleted :
    (e : Env) (p : CompleteMultipartParams) (w : World)
    → Outcome
        (complete_multipart_upload e p w).0
        (λ _. IsCompleted e p w.db (complete_multipart_upload e p w).1.db)
        ((complete_multipart_upload e p w).1.db ≡ w.db)
complete-IsCompleted e p w = (complete_lem e p w.db).at w refl

-- `AbortUpload` either fails and leaves every table as it was, or: there was a pending row of the
-- user, the object store confirmed that the open upload (or else the object) at the row's key is
-- gone, and the pending row is deleted.
pub abort-IsAborted :
    (e : Env) (user id : ℕ) (w : World)
    → Outcome
        (abort_upload e user id w).0
        (λ _. IsAborted e user id w.db (abort_upload e user id w).1.db)
        ((abort_upload e user id w).1.db ≡ w.db)
abort-IsAborted e user id w = (abort_lem e user id w.db).at w refl
