-- ===== src/Tests/Trees.antt =====
-- Runs of the operations of internal/usecase/storage/service.go on folders and the trash.
use cloud_zero_knowledge_sto.Base.{
  ℕ, if◌then◌else◌, true, ap, none, some, List, [], ◌∷◌, Text, ◌≡◌, ◌↔◌, refl, arith, contains,
  ◌==◌,
}
use cloud_zero_knowledge_sto.Store.{Folder, err, db_failed, running, calling}
use cloud_zero_knowledge_sto.Blobs.{empty_trashed_blobs}
use cloud_zero_knowledge_sto.Folders.{
  MoveFolderParams, is_live, get_folder, is_descendant_of, move_folder, move, update_folders,
  unique_names, select_subtree, trash_folder, restore_folder, hard_delete_folder, delete_folders,
  empty_trashed_folders,
}
use cloud_zero_knowledge_sto.Folders.Cycles.{Circular, closure_circles}
use cloud_zero_knowledge_sto.Folders.Subtree.{children, closure, closure_to_depth}
use cloud_zero_knowledge_sto.Folders.Reach.{here, Below, closure-Below}
use cloud_zero_knowledge_sto.Folders.Forest.{
  IsRanked, IsForest, closure_ends, falls_everywhere-IsRanked,
}
use cloud_zero_knowledge_sto.Directories.{
  remove_all, move_directory, delete_directory, restore_directory, hard_delete_directory,
}
use cloud_zero_knowledge_sto.Directories.Moves.{IsMoved, live_row, move_directory-IsMoved}
use cloud_zero_knowledge_sto.Directories.Forests.{move_directory-IsForest}
use cloud_zero_knowledge_sto.Directories.Trash.{IsInTrash, delete_directory-IsInTrash}
use cloud_zero_knowledge_sto.Directories.Restoration.{IsBack, restore_directory-IsBack}
use cloud_zero_knowledge_sto.Directories.Removal.{IsRemoved, hard_delete_directory-IsRemoved}
use cloud_zero_knowledge_sto.Bin.{empty_trash}
use cloud_zero_knowledge_sto.Bin.Emptying.{
  IsEmptied, without_blobs, empty_trash-IsEmptied, empty_trash_leaks,
}
use cloud_zero_knowledge_sto.Tests.Sample.{env, failing_env, folder, tables, start}

-- Folder 11 goes from folder 10 to folder 13.
abbrev to_13 : MoveFolderParams
to_13 = record { folder_id = 11; user_id = 1; new_parent_id = some 13 }

closure-Below_example :
    (contains (10 ∷ 11 ∷ []) 11 ≡ true) ↔ Below is_live tables.folders (10 ∷ []) 11
unfolding closure children
closure-Below_example = closure-Below is_live tables.folders 10 (10 ∷ []) (10 ∷ 11 ∷ []) refl 11

-- The levels below the sample folders.
abbrev levels : ℕ → ℕ
levels id = if id == 10 then 1 else 0

levels-IsRanked : IsRanked is_live tables.folders levels
levels-IsRanked = falls_everywhere-IsRanked is_live tables.folders levels refl

closure_ends_example : (ids : List ℕ) × (closure 2 is_live tables.folders (10 ∷ []) ≡ some ids)
closure_ends_example =
    closure_ends is_live tables.folders levels levels-IsRanked 2 (10 ∷ []) (λ x h. ground arith)

move_directory-IsMoved_example : IsMoved to_13 tables (move_directory env to_13 start).1.db
unfolding move_directory get_folder is_descendant_of closure_to_depth children move_folder move
    update_folders unique_names running
move_directory-IsMoved_example = move_directory-IsMoved env to_13 start

move_directory-IsForest_example : IsForest is_live (move_directory env to_13 start).1.db.folders
move_directory-IsForest_example =
    move_directory-IsForest env to_13 start levels levels-IsRanked (omega arith)

delete_directory-IsInTrash_example :
    ((f : Folder) × (live_row 10 1 tables ≡ some f) × (10 ∷ [] ≡ f.name))
    × IsInTrash 10 1 tables (delete_directory env 1 10 start).1.db
unfolding delete_directory get_folder trash_folder select_subtree closure children running
delete_directory-IsInTrash_example = delete_directory-IsInTrash env 10 1 start

restore_directory-IsBack_example :
    IsBack 12 1 tables (12 ∷ []) (restore_directory env 1 12 start).1.db
unfolding restore_directory restore_folder select_subtree closure children update_folders
    unique_names running
restore_directory-IsBack_example = restore_directory-IsBack env 12 1 start

hard_delete_directory-IsRemoved_example :
    (keys : List Text) × IsRemoved 12 1 tables keys
      (12 ∷ [])
      (hard_delete_directory env 1 12 start).1.db
unfolding hard_delete_directory remove_all hard_delete_folder select_subtree closure children
    delete_folders running calling
hard_delete_directory-IsRemoved_example = hard_delete_directory-IsRemoved env 12 1 start

empty_trash-IsEmptied_example : IsEmptied 1 tables (empty_trash env 1 start).1.db
unfolding empty_trash remove_all empty_trashed_blobs empty_trashed_folders delete_folders running
    calling
empty_trash-IsEmptied_example = empty_trash-IsEmptied env 1 start

empty_trash_leaks_example :
    empty_trash failing_env 1 start
    ≡ (err db_failed, record start { db = without_blobs 1 tables; steps = 2 })
empty_trash_leaks_example = empty_trash_leaks failing_env 1 start refl refl

-- A folder that stands in itself.
abbrev loop : List Folder
loop = record (folder 10 1) { parent_id = some 10 } ∷ []

loop-Circular : Circular is_live loop (10 ∷ [])
loop-Circular x h =
    (record (folder 10 1) { parent_id = some 10 }, here, refl, ap some (ground arith), refl)

closure_circles_example : closure 7 is_live loop (10 ∷ []) ≡ none
closure_circles_example =
    closure_circles is_live loop (10 ∷ []) (10 ∷ []) 10 7 loop-Circular refl refl
