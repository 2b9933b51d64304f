-- ===== src/Folders/Statements.antt =====
-- The SQL statements of internal/repo/persistent/postgres/folders.go over the tables, with the
-- constraints of migrations/00004 on folders.
use cloud_zero_knowledge_sto.Base.{
  ℕ, Bool, true, false, ◌&&◌, ◌||◌, not, Option, none, some, List, [], ◌∷◌, ◌++◌, Text, leb, ◌==◌,
  if◌then◌else◌, text_eq, is_null, is_not_null, same_id, is_before, select, update, updated, first,
  exists_row, contains, length,
}
use cloud_zero_knowledge_sto.Store.{
  Blob, Folder, Db, drop_folders, names_one_of, Result, ok, err, unique_violation,
  foreign_key_violation, folder_conflict, check_violation, Error, map_result,
}
use cloud_zero_knowledge_sto.Blobs.{folder_key_ok}

pub record CreateFolderParams : Type 0 where
  pub user_id : ℕ
  pub parent_id : Option ℕ
  pub name : Text

pub record MoveFolderParams : Type 0 where
  pub folder_id : ℕ
  pub user_id : ℕ
  pub new_parent_id : Option ℕ

pub record EmptiedFolder : Type 0 where
  pub id : ℕ
  pub name : Text

abbrev pub is_live : Folder → Bool
is_live f = is_null f.deleted_at

abbrev pub is_folder_of : ℕ → ℕ → Folder → Bool
is_folder_of id user f = f.id == id && f.user_id == user

-- The key of the unique indexes on live folders: `(user_id, name)` at the top level and
-- `(user_id, parent_id, name)` below.
abbrev pub same_place : Folder → Folder → Bool
same_place f g = f.user_id == g.user_id && same_id f.parent_id g.parent_id && text_eq f.name g.name

-- Whether a table meets the unique indexes.
unfoldable pub unique_names : List Folder → Bool
unique_names [] = true
unique_names (f ∷ fs) =
    not (is_live f && exists_row (λ g. is_live g && same_place f g) fs) && unique_names fs

-- `CHECK (char_length(name) BETWEEN 1 AND 255)`
abbrev pub name_ok : Text → Bool
name_ok name = leb 1 (length name) && leb (length name) 255

abbrev pub new_folder : CreateFolderParams → ℕ → ℕ → Folder
new_folder p id t = record {
  id = id;
  user_id = p.user_id;
  parent_id = p.parent_id;
  name = p.name;
  created_at = t;
  deleted_at = none;
}

-- `INSERT INTO folders`
unfoldable pub insert_folder : CreateFolderParams → ℕ → ℕ → Db → Result Folder × Db
unfolding unique_names
insert_folder p id t d =
    let rows = d.folders ++ new_folder p id t ∷ [] in
    if not (name_ok p.name)
    then (err check_violation, d)
    else if exists_row (λ f. f.id == id) d.folders || not (unique_names rows)
    then (err unique_violation, d)
    else if exists_row (λ u. u.id == p.user_id) d.users
        && (is_null p.parent_id || folder_key_ok d.folders p.parent_id)
    then (ok (new_folder p id t), record d { folders = rows })
    else (err foreign_key_violation, d)

-- An `UPDATE folders` that the unique indexes may refuse: it gives the rows written.
unfoldable pub update_folders : (Folder → Bool) → (Folder → Folder) → Db → Result (List Folder) × Db
unfolding unique_names
update_folders here f d =
    let rows = update here f d.folders in
    if unique_names rows
    then (ok (updated here f d.folders), record d { folders = rows })
    else (err unique_violation, d)

-- `DELETE FROM folders`: `ON DELETE RESTRICT` on `parent_id` refuses it while a folder that stays
-- names one that goes.
unfoldable pub delete_folders : (Folder → Bool) → Db → Result (List Folder) × Db
delete_folders here d =
    if exists_row (λ f. not (here f) && names_one_of here d.folders f.parent_id) d.folders
    then (err foreign_key_violation, d)
    else (ok (select here d.folders), drop_folders here d)

-- How the methods report the error of a unique index.
abbrev pub as_conflict : Error → Error
as_conflict unique_violation = folder_conflict
as_conflict x = x

-- The folder that `UPDATE … RETURNING` gives, if a row fits.
unfoldable pub rename : ℕ → ℕ → Text → ℕ → Db → Result (Option Folder) × Db
unfolding update_folders
rename id user name t d =
    let here = λ (f : Folder). is_folder_of id user f && is_live f in
    let (r, d') = update_folders here (λ f. record f { name = name }) d in
    if not (exists_row here d.folders)
    then (ok none, d)
    else if name_ok name
    then (map_result first r, d')
    else (err check_violation, d)

-- The number of rows affected.
unfoldable pub move : ℕ → ℕ → Option ℕ → ℕ → Db → Result ℕ × Db
unfolding update_folders
move id user parent_id t d =
    let here = λ (f : Folder). is_folder_of id user f && is_live f in
    let (r, d') = update_folders here (λ f. record f { parent_id = parent_id }) d in
    if not (exists_row here d.folders)
    then (ok 0, d)
    else if is_null parent_id || folder_key_ok d.folders parent_id
    then (map_result length r, d')
    else (err foreign_key_violation, d)

abbrev pub trash_folders : List ℕ → ℕ → Db → Db
trash_folders ids t d = record d {
  folders = update (λ f. contains ids f.id) (λ f. record f { deleted_at = some t }) d.folders;
}

-- `folder_id = ANY(ids)`
abbrev pub in_folders : List ℕ → Blob → Bool
in_folders ids b = elim b.folder_id [ none ↦ false | some id ↦ contains ids id ]

abbrev pub trash_contents : List ℕ → ℕ → Db → Db
trash_contents ids t d = record d {
  blobs =
      update (λ b. in_folders ids b && is_null b.deleted_at) (λ b. record b { deleted_at = some t })
        d.blobs;
}

abbrev pub restore_row : ℕ → Option ℕ → Folder → Folder
restore_row id parent_id f = record f {
  deleted_at = none;
  parent_id = if f.id == id then parent_id else f.parent_id;
}

abbrev pub restore_contents : List ℕ → Db → Db
restore_contents ids d = record d {
  blobs =
      update (λ b. in_folders ids b && is_not_null b.deleted_at)
        (λ b. record b { deleted_at = none }) d.blobs;
}

-- `UPDATE folders SET parent_id = NULL` of trashed folders, which no unique index holds.
abbrev pub detach : (Folder → Bool) → Db → Db
detach here d = record d { folders = update here (λ f. record f { parent_id = none }) d.folders }

abbrev pub is_expired : ℕ → Folder → Bool
is_expired before f = is_before f.deleted_at before
