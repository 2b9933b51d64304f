-- ===== src/Files/RoundTrip.antt =====
-- `DeleteBlob` and then `RestoreBlob` of internal/usecase/storage/service.go.
use mathlib.Core.Option
use cloud_zero_knowledge_sto.Base.{
  both_true, ℕ, suc, Text, ◌∙◌, Bool, true, false, ◌&&◌, ◌||◌, Option, none, some, List, [], ◌∷◌,
  ◌≡◌, refl, ap, arith, is_null, if◌then◌else◌, select, update, updated, first,
}
use cloud_zero_knowledge_sto.Store.{
  Blob, Folder, Db, Env, World, Error, ok, exec, or_raise, ◌>>=◌, running,
}
use cloud_zero_knowledge_sto.Blobs.{
  is_blob_of, is_trashed, names_live_folder, restored, trash_blob, restore_blob,
}
use cloud_zero_knowledge_sto.Files.{delete_file, restore_file}

-- The row is not in the trash, and stands at the top level or in a live folder.
abbrev pub is_placed : List Folder → Blob → Bool
is_placed folders b =
    is_null b.deleted_at && (is_null b.folder_id || names_live_folder folders b.folder_id)

-- Every row with the id of the user's blob is placed so.
abbrev pub all_placed : ℕ → ℕ → List Folder → List Blob → Bool
all_placed id user folders [] = true
all_placed id user folders (b ∷ bs) =
    (if is_blob_of id user b then is_placed folders b else true) && all_placed id user folders bs

null_lem {ℓ} : {A : Type ℓ} (o : Option A) → is_null o ≡ true → none ≡ o
null_lem none h = refl
null_lem (some a) h = cc

folder_back :
    (folders : List Folder) (o : Option ℕ)
    → (is_null o || names_live_folder folders o) ≡ true
    → (if names_live_folder folders o then o else none) ≡ o
folder_back folders none h = refl
folder_back folders (some id) h = rw h refl

put_back :
    (b : Blob) (o d : Option ℕ)
    → o ≡ b.folder_id
    → d ≡ b.deleted_at
    → record b { folder_id = o; deleted_at = d } ≡ b
put_back b o d eo ed = rw (eo, ed) refl

row_back :
    (folders : List Folder) (t : ℕ) (b : Blob)
    → is_placed folders b ≡ true
    → restored folders (record b { deleted_at = some t }) ≡ b
row_back folders t b h =
    let (live, placed) = both_true _ _ h in
    put_back b _ _ (folder_back folders b.folder_id placed) (null_lem b.deleted_at live)

module _ (id user : ℕ) where
  abbrev live_here : Blob → Bool
  live_here b = is_blob_of id user b && is_null b.deleted_at

  abbrev trashed_here : Blob → Bool
  trashed_here b = is_blob_of id user b && is_trashed b

module _ (id user t : ℕ) (folders : List Folder) where
  rows_back :
      (rows : List Blob)
      → all_placed id user folders rows ≡ true
      → update
          (trashed_here id user)
          (restored folders)
          (update (live_here id user) (λ b. record b { deleted_at = some t }) rows)
        ≡ rows
  rows_back [] h = refl
  rows_back (b ∷ rows) h = ground (arith, rows_back rows, row_back folders t b)

  answer_back :
      (rows : List Blob)
      → all_placed id user folders rows ≡ true
      → updated
          (trashed_here id user)
          (restored folders)
          (update (live_here id user) (λ b. record b { deleted_at = some t }) rows)
        ≡ select (live_here id user) rows
  answer_back [] h = refl
  answer_back (b ∷ rows) h = ground (arith, answer_back rows, row_back folders t b)

  answer_out :
      (rows : List Blob)
      → Option.map
          (λ b. b.file_name)
          (first (updated (live_here id user) (λ b. record b { deleted_at = some t }) rows))
        ≡ Option.map (λ b. b.file_name) (first (select (live_here id user) rows))
  answer_out [] = refl
  answer_out (b ∷ rows) = ground (arith, answer_out rows)

-- A read-modify-write statement and the test of its row, on a database that answers.
exec_then :
    (e : Env) (f : ℕ → Db → Option Text × Db) (x : Error) (name : Text) (w : World)
    → e.sql_fails w.steps ≡ false
    → (f (e.now w.steps) w.db).0 ≡ some name
    → (exec e f >>= λ found. or_raise found x) w
      ≡ (ok name, record w { db = (f (e.now w.steps) w.db).1; steps = suc w.steps })
unfolding running
exec_then e f x name w up found = rw (up, found) refl

abbrev trash_rows : ℕ → ℕ → ℕ → Db → Db
trash_rows id user t d = record d {
  blobs = update (live_here id user) (λ b. record b { deleted_at = some t }) d.blobs;
}

delete_lem :
    (e : Env) (user id : ℕ) (b : Blob) (w : World)
    → e.sql_fails w.steps ≡ false
    → first (select (live_here id user) w.db.blobs) ≡ some b
    → delete_file e user id w ≡ (
      ok b.file_name,
      record w { db = trash_rows id user (e.now w.steps) w.db; steps = suc w.steps },
    )
unfolding delete_file trash_blob
delete_lem e user id b w up found = exec_then e _ _ b.file_name w up (
    answer_out id user (e.now w.steps) w.db.folders w.db.blobs
    ∙ ap (Option.map λ r. r.file_name) found)

restore_lem :
    (e : Env) (user id t : ℕ) (b : Blob) (w : World) (d : Db)
    → e.sql_fails w.steps ≡ false
    → w.db ≡ trash_rows id user t d
    → all_placed id user d.folders d.blobs ≡ true
    → first (select (live_here id user) d.blobs) ≡ some b
    → restore_file e user id w ≡ (ok b.file_name, record w { db = d; steps = suc w.steps })
unfolding restore_file restore_blob
restore_lem e user id t b w d up was placed found =
    exec_then e _ _ b.file_name w up (
      rw was (
        ap (λ rows. Option.map (λ r. r.file_name) (first rows))
          (answer_back id user t d.folders d.blobs placed)
        ∙ ap (Option.map λ r. r.file_name) found))
    ∙ ap (λ x. (ok b.file_name, record w { db = x; steps = suc w.steps }))
        (rw was
          (ap (λ rows. record d { blobs = rows }) (rows_back id user t d.folders d.blobs placed)))

-- Trash and restore, with a database that answers both times, where every row with the id of the
-- user's blob is out of the trash and at the top level or in a live folder: both calls answer the
-- file's name and the tables end as they began.
pub restore_file-delete_file :
    (e : Env) (user id : ℕ) (b : Blob) (w : World)
    → e.sql_fails w.steps ≡ false
    → e.sql_fails (suc w.steps) ≡ false
    → all_placed id user w.db.folders w.db.blobs ≡ true
    → first (select (λ r. is_blob_of id user r && is_null r.deleted_at) w.db.blobs) ≡ some b
    → ((delete_file e user id w).0 ≡ ok b.file_name)
      × (restore_file e user id (delete_file e user id w).1
          ≡ (ok b.file_name, record w { steps = suc (suc w.steps) }))
restore_file-delete_file e user id b w up up' placed found =
    let out = delete_lem e user id b w up found in
    (
      ap (λ x. x.0) out,
      rw out (restore_lem e user id (e.now w.steps) b _ w.db up' refl placed found),
    )
