-- ===== src/Files/Deletion.antt =====
-- What `HardDeleteBlob` of internal/usecase/storage/service.go leaves, whether it returns or fails.
use cloud_zero_knowledge_sto.Base.{ℕ, true, ◌&&◌, Option, some, Text, ◌≡◌, refl, ap, select, first}
use cloud_zero_knowledge_sto.Store.{Blob, Db, Env, World, drop_blobs}
use cloud_zero_knowledge_sto.Store.Ends.{Outcome, Ends, Ends-given, Ends-bind, Ends-pure, Ends-exec}
use cloud_zero_knowledge_sto.Store.Transactions.{Ends-read_map}
use cloud_zero_knowledge_sto.Store.Answers.{remove_object_lem}
use cloud_zero_knowledge_sto.Blobs.{is_blob_of, is_trashed, peek_trashed_blob, hard_delete_blob}
use cloud_zero_knowledge_sto.Files.{hard_delete_file}

abbrev pub trashed_row : ℕ → ℕ → Db → Option Blob
trashed_row id user d = first (select (λ b. is_blob_of id user b && is_trashed b) d.blobs)

-- What holds when a file was deleted for good at the tables `d₀`.
pub record IsDeleted (e : Env) (user id : ℕ) (d₀ : Db) (name : Text) (d : Db) : Type 0 where
  pub row : Blob
  pub was_trashed : trashed_row id user d₀ ≡ some row
  pub object_gone : (n : ℕ) × (e.remove_object_ok n row.object_key ≡ true)
  pub row_gone : d ≡ drop_blobs (λ b. is_blob_of id user b && is_trashed b) d₀
  pub named : name ≡ row.file_name

hard_delete_lem :
    (e : Env) (user id : ℕ) (d₀ : Db)
    → Ends (λ d. d ≡ d₀) (hard_delete_file e user id) (IsDeleted e user id d₀) (λ d. d ≡ d₀)
unfolding hard_delete_file peek_trashed_blob hard_delete_blob
hard_delete_lem e user id d₀ =
    let R = λ (d : Db). d ≡ d₀ in
    Ends-read_map e d₀ _ _ (trashed_row id user) (λ b. (b.object_key, b.file_name)) _
      λ row was. Ends-bind _ _ _ _ R (remove_object_lem e row.object_key R λ d h. h) λ _.
        Ends-given _ _ _ R λ gone.
          Ends-bind _ _ (λ _. IsDeleted e user id d₀ row.file_name) _ R
            (Ends-exec e _ _ R (λ d h. h)
              λ t d h. record {
                row = row;
                was_trashed = was;
                object_gone = gone;
                row_gone = ap (drop_blobs (λ b. is_blob_of id user b && is_trashed b)) h;
                named = refl;
              })
            λ _. Ends-pure _ _ R λ d h. h

-- `HardDeleteBlob` either fails and leaves every table as it was, or: the user had such a blob in
-- the trash, the object store confirmed that the object at its key is gone, the row is deleted
-- with its shares and favorites, and the answer is the name of the file.
pub hard_delete-IsDeleted :
    (e : Env) (user id : ℕ) (w : World)
    → Outcome
        (hard_delete_file e user id w).0
        (λ name. IsDeleted e user id w.db name (hard_delete_file e user id w).1.db)
        ((hard_delete_file e user id w).1.db ≡ w.db)
hard_delete-IsDeleted e user id w = (hard_delete_lem e user id w.db).at w refl
