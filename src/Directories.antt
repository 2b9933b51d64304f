-- ===== src/Directories.antt =====
-- The operations of internal/usecase/storage/service.go on folders.
pub mod Moves
pub mod Forests
pub mod Trash
pub mod Restoration
pub mod Removal
use cloud_zero_knowledge_sto.Base.{
  ℕ, Bool, not, Option, none, some, List, [], ◌∷◌, Text, ⊤, ◌==◌, if◌then◌else◌,
}
use cloud_zero_knowledge_sto.Store.{
  Env, Folder, Action, Result, ok, err, folder_not_found, folder_cycle, pure, raise, raise_if,
  or_raise, attempt, ◌>>=◌, ◌>>◌, remove_object, ignore_error,
}
use cloud_zero_knowledge_sto.Folders.{
  CreateFolderParams, MoveFolderParams, create_folder, get_folder, list_folders, rename_folder,
  move_folder, is_descendant_of, trash_folder, restore_folder, hard_delete_folder,
}
use cloud_zero_knowledge_sto.Uploads.{require_optional_folder}
use cloud_zero_knowledge_sto.Files.{folder_name}

pub record FolderMoveInfo : Type 0 where
  pub folder_name : Text
  pub src_folder_name : Text
  pub dst_folder_name : Text

module _ (e : Env) where
  unfoldable pub create_directory : CreateFolderParams → Action (Folder × Text)
  create_directory p = do
    parent_name ← folder_name e p.parent_id p.user_id
    folder ← create_folder e p
    pure (folder, parent_name)

  unfoldable pub get_directory : ℕ → ℕ → Action Folder
  get_directory user folder_id = do
    found ← get_folder e folder_id user
    or_raise found folder_not_found

  unfoldable pub list_directories : ℕ → Option ℕ → Action (List Folder)
  list_directories user parent_id = do
    require_optional_folder e parent_id user
    list_folders e user parent_id

  unfoldable pub rename_directory : ℕ → ℕ → Text → Action Folder
  rename_directory user folder_id name = rename_folder e folder_id user name

  abbrev pub name_or_none : Result (Option Folder) → Text
  name_or_none (ok (some folder)) = folder.name
  name_or_none _ = []

  -- The name of the parent that is left; an error of this query is dropped.
  abbrev pub source_name : Option ℕ → ℕ → Action Text
  source_name none user = pure []
  source_name (some parent_id) user =
      attempt (get_folder e parent_id user) λ r. pure (name_or_none r)

  -- The checks of a new parent: it is not the folder, it is the user's and live, and it does not
  -- stand below the folder.
  abbrev pub check_new_parent : ℕ → ℕ → Option ℕ → Action Text
  check_new_parent folder_id user none = pure []
  check_new_parent folder_id user (some parent_id) = do
    raise_if (parent_id == folder_id) folder_cycle
    found ← get_folder e parent_id user
    parent ← or_raise found folder_not_found
    below ← is_descendant_of e folder_id parent_id
    raise_if below folder_cycle
    pure parent.name

  unfoldable pub move_directory : MoveFolderParams → Action FolderMoveInfo
  move_directory p = do
    found ← get_folder e p.folder_id p.user_id
    folder ← or_raise found folder_not_found
    src_folder_name ← source_name folder.parent_id p.user_id
    dst_folder_name ← check_new_parent p.folder_id p.user_id p.new_parent_id
    move_folder e p
    pure (record {
      folder_name = folder.name;
      src_folder_name = src_folder_name;
      dst_folder_name = dst_folder_name;
    })

  -- `Service.DeleteFolder`: to the trash.
  unfoldable pub delete_directory : ℕ → ℕ → Action Text
  delete_directory user folder_id = do
    found ← get_folder e folder_id user
    folder ← or_raise found folder_not_found
    trashed ← trash_folder e folder_id user
    raise_if (not trashed) folder_not_found
    pure folder.name

  unfoldable pub restore_directory : ℕ → ℕ → Action Text
  restore_directory user folder_id = do
    found ← restore_folder e folder_id user
    or_raise found folder_not_found

  unfoldable pub remove_all : List Text → Action ⊤
  remove_all [] = pure tt
  remove_all (key ∷ keys) = do ignore_error (remove_object e key); remove_all keys

  unfoldable pub hard_delete_directory : ℕ → ℕ → Action Text
  unfolding remove_all
  hard_delete_directory user folder_id = do
    found ← hard_delete_folder e folder_id user
    (object_keys, name) ← or_raise found folder_not_found
    remove_all object_keys
    pure name
