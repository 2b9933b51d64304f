-- ===== src/Folders.antt =====
-- internal/repo/persistent/postgres/folders.go: each method is its SQL statements over the
-- tables, with the constraints of migrations/00004 on folders.
pub mod Subtree
pub mod Statements
unfoldable pub use Statements.*
pub mod Reach
pub mod Forest
pub mod Cycles
use mathlib.Core.Option
use cloud_zero_knowledge_sto.Base.{
  ℕ, Bool, true, false, ◌&&◌, ◌||◌, not, Option, none, some, List, [], ◌∷◌, ◌++◌, map, Text, ⊤, ltb,
  leb, ◌==◌, if◌then◌else◌, text_eq, is_null, is_not_null, same_id, holds_id, is_before, is_empty,
  select, update, delete, updated, first, exists_row, contains, length,
}
use cloud_zero_knowledge_sto.Store.{
  Blob, Folder, Db, drop_blobs, drop_folders, names_one_of, Env, Action, Result, ok, err, db_failed,
  unique_violation, foreign_key_violation, folder_conflict, folder_not_found, check_violation,
  Error, map_result, map_errors, or_raise, on_row, ◌>>=◌, ◌>>◌, continue, pure, raise, raise_if,
  sql, query, exec, Ending, commit, roll_back, in_transaction,
}
use cloud_zero_knowledge_sto.Blobs.{is_trashed, is_live_folder, folder_key_ok, names_live_folder}
use Subtree.{closure, closure_to_depth}

abbrev pub answer_of : Option (List ℕ) → Db → Result (List ℕ) × Db
answer_of none d = (err db_failed, d)
answer_of (some ids) d = (ok ids, d)

module _ (e : Env) where
  -- A recursive query that does not end is cancelled with the context of the call.
  unfoldable pub select_subtree : (Folder → Bool) → (List Folder → List ℕ) → Action (List ℕ)
  unfolding closure
  select_subtree p roots =
      sql e λ t d. answer_of (closure e.cte_rounds p d.folders (roots d.folders)) d

  unfoldable pub create_folder : CreateFolderParams → Action Folder
  unfolding insert_folder
  create_folder p = map_errors as_conflict λ w. sql e (insert_folder p (e.new_uuid w.steps)) w

  unfoldable pub get_folder : ℕ → ℕ → Action (Option Folder)
  get_folder id user =
      query e λ t d. first (select (λ f. is_folder_of id user f && is_live f) d.folders)

  unfoldable pub rename_folder : ℕ → ℕ → Text → Action Folder
  unfolding rename
  rename_folder id user name = do
    found ← map_errors as_conflict (sql e (rename id user name))
    or_raise found folder_not_found

  unfoldable pub move_folder : MoveFolderParams → Action ⊤
  unfolding move
  move_folder p = do
    n ← map_errors as_conflict (sql e (move p.folder_id p.user_id p.new_parent_id))
    raise_if (n == 0) folder_not_found

  unfoldable pub is_descendant_of : ℕ → ℕ → Action Bool
  unfolding closure_to_depth
  is_descendant_of ancestor candidate = query e λ t d.
      contains
        (closure_to_depth 100 is_live d.folders
          (map (λ f. f.id) (select (λ f. f.id == ancestor) d.folders)))
        candidate

  -- The folder and everything below it go to the trash at one time.
  unfoldable pub trash_folder : ℕ → ℕ → Action Bool
  unfolding select_subtree
  trash_folder id user = in_transaction e λ t. do
    ids ←
        select_subtree is_live
          λ folders. map (λ f. f.id) (select (λ f. is_folder_of id user f && is_live f) folders)
    if is_empty ids then pure (roll_back false) else do
      exec e λ _ d. (tt, trash_folders ids t d)
      exec e λ _ d. (tt, trash_contents ids t d)
      pure (commit true)

  unfoldable pub restore_folder : ℕ → ℕ → Action (Option Text)
  unfolding select_subtree update_folders
  restore_folder id user = in_transaction e λ t. do
    found ←
        query e
          λ _ d. first (select (λ f. is_folder_of id user f && is_not_null f.deleted_at) d.folders)
    on_row found (pure (roll_back none)) λ root. do
      ids ← select_subtree (λ _. true) (λ _. id ∷ [])
      parent_ok ←
          if is_null root.parent_id
          then pure true
          else query e λ _ d. names_live_folder d.folders root.parent_id
      let parent_id : Option ℕ = if parent_ok then root.parent_id else none
      sql e λ _ d. update_folders (λ f. contains ids f.id) (restore_row id parent_id) d
      exec e λ _ d. (tt, restore_contents ids d)
      pure (commit (some root.name))

  unfoldable pub hard_delete_folder : ℕ → ℕ → Action (Option (List Text × Text))
  unfolding select_subtree update_folders delete_folders
  hard_delete_folder id user = in_transaction e λ t. do
    found ←
        query e
          λ _ d. first (select (λ f. is_folder_of id user f && is_not_null f.deleted_at) d.folders)
    on_row found (pure (roll_back none)) λ root. do
      ids ← select_subtree (λ _. true) (λ _. id ∷ [])
      keys ← exec e λ _ d.
          (map (λ b. b.object_key) (select (in_folders ids) d.blobs), drop_blobs (in_folders ids) d)
      sql e λ _ d. update_folders (λ f. contains ids f.id) (λ f. record f { parent_id = none }) d
      sql e λ _ d. delete_folders (λ f. contains ids f.id) d
      pure (commit (some (keys, root.name)))

  -- A folder of the trash shows unless it stands in one that shows.
  unfoldable pub list_trashed_folders : ℕ → Action (List Folder)
  list_trashed_folders user = query e λ t d. e.order_by_name (
      select
        (λ f.
          f.user_id == user
          && is_not_null f.deleted_at
          && (is_null f.parent_id
              || not (names_one_of (λ g. is_not_null g.deleted_at) d.folders f.parent_id)))
        d.folders)

  unfoldable pub list_folders : ℕ → Option ℕ → Action (List Folder)
  list_folders user parent_id = query e λ t d.
      e.order_by_name
        (select (λ f. f.user_id == user && same_id f.parent_id parent_id && is_live f) d.folders)

  unfoldable pub empty_trashed_folders : ℕ → Action (List EmptiedFolder × List Text)
  unfolding delete_folders
  empty_trashed_folders user = in_transaction e λ t. do
    let mine = λ (f : Folder). f.user_id == user && is_not_null f.deleted_at
    keys ← exec e λ _ d.
        let here = λ (b : Blob). b.user_id == user && names_one_of mine d.folders b.folder_id in
        (map (λ b. b.object_key) (select here d.blobs), drop_blobs here d)
    exec e λ _ d. (tt, detach mine d)
    gone ← sql e λ _ d. delete_folders mine d
    pure (commit (map (λ f. record { id = f.id; name = f.name }) gone, keys))

  unfoldable pub purge_expired_folders : ℕ → Action (List Text)
  unfolding delete_folders
  purge_expired_folders before = in_transaction e λ t. do
    keys ← exec e λ _ d.
        let here = λ (b : Blob). names_one_of (is_expired before) d.folders b.folder_id in
        (map (λ b. b.object_key) (select here d.blobs), drop_blobs here d)
    exec e λ _ d. (tt, detach (is_expired before) d)
    sql e λ _ d. delete_folders (is_expired before) d
    pure (commit keys)
