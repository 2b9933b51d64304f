-- ===== src/Favorites.antt =====
-- internal/repo/persistent/postgres/favorites.go, and internal/usecase/favorites/service.go, each
-- method of which calls one of it.
pub mod Marks
use mathlib.Core.Option
use cloud_zero_knowledge_sto.Base.{
  ℕ, Bool, ◌&&◌, Option, none, some, List, [], ◌∷◌, ◌++◌, map, Text, ⊤, ◌==◌, if◌then◌else◌,
  holds_id, is_null, is_not_null, select, delete, first, exists_row, order_desc,
}
use cloud_zero_knowledge_sto.Store.{
  Blob, Folder, Favorite, Db, Env, Action, Result, ok, err, foreign_key_violation, sql, query, exec,
}
use cloud_zero_knowledge_sto.Blobs.{is_visible, is_live_folder}
use cloud_zero_knowledge_sto.Folders.{is_live}

pub record FavoriteBlob : Type 0 where
  pub blob : Blob
  pub folder_name : Option Text

-- The rows of the two unique indexes: `(user_id, blob_id)` and `(user_id, folder_id)`.
abbrev pub marks_blob : ℕ → ℕ → Favorite → Bool
marks_blob user id v = v.user_id == user && holds_id v.blob_id id

abbrev pub marks_folder : ℕ → ℕ → Favorite → Bool
marks_folder user id v = v.user_id == user && holds_id v.folder_id id

abbrev pub blob_mark : ℕ → ℕ → ℕ → Favorite
blob_mark user id t = record { user_id = user; blob_id = some id; folder_id = none; created_at = t }

abbrev pub folder_mark : ℕ → ℕ → ℕ → Favorite
folder_mark user id t = record {
  user_id = user;
  blob_id = none;
  folder_id = some id;
  created_at = t;
}

-- `INSERT … ON CONFLICT DO NOTHING`, where the foreign keys hold or not.
abbrev pub insert_mark : (Favorite → Bool) → Favorite → Bool → Db → Result ⊤ × Db
insert_mark same v keys_ok d =
    if exists_row same d.favorites
    then (ok tt, d)
    else if keys_ok
    then (ok tt, record d { favorites = d.favorites ++ v ∷ [] })
    else (err foreign_key_violation, d)

-- The blob that a favorite marks, if it is one that the list shows.
abbrev pub shown_blob : ℕ → Db → Favorite → List FavoriteBlob
shown_blob user d v =
    map
      (λ b. record {
        blob = b;
        folder_name =
            Option.map (λ f. f.name)
              (first (select (λ f. holds_id b.folder_id f.id && is_live f) d.folders));
      })
      (select (λ b. holds_id v.blob_id b.id && b.user_id == user && is_visible b) d.blobs)

abbrev pub shown_folder : ℕ → Db → Favorite → List Folder
shown_folder user d v =
    select (λ f. holds_id v.folder_id f.id && f.user_id == user && is_live f) d.folders

abbrev pub join_marks : {A : Type 0} → (Favorite → List A) → List Favorite → List A
join_marks shown [] = []
join_marks shown (v ∷ vs) = shown v ++ join_marks shown vs

module _ (e : Env) where
  unfoldable pub add_blob_favorite : ℕ → ℕ → Action ⊤
  add_blob_favorite user id = sql e λ t d.
      insert_mark (marks_blob user id) (blob_mark user id t)
        (exists_row (λ u. u.id == user) d.users && exists_row (λ b. b.id == id) d.blobs) d

  unfoldable pub remove_blob_favorite : ℕ → ℕ → Action ⊤
  remove_blob_favorite user id =
      exec e λ t d. (tt, record d { favorites = delete (marks_blob user id) d.favorites })

  unfoldable pub add_folder_favorite : ℕ → ℕ → Action ⊤
  add_folder_favorite user id = sql e λ t d.
      insert_mark (marks_folder user id) (folder_mark user id t)
        (exists_row (λ u. u.id == user) d.users && exists_row (λ f. f.id == id) d.folders) d

  unfoldable pub remove_folder_favorite : ℕ → ℕ → Action ⊤
  remove_folder_favorite user id =
      exec e λ t d. (tt, record d { favorites = delete (marks_folder user id) d.favorites })

  unfoldable pub list_favorite_blobs : ℕ → Action (List FavoriteBlob)
  list_favorite_blobs user = query e λ t d.
      join_marks (shown_blob user d)
        (order_desc (λ v. v.created_at) (select (λ v. v.user_id == user) d.favorites))

  unfoldable pub list_favorite_folders : ℕ → Action (List Folder)
  list_favorite_folders user = query e λ t d.
      join_marks (shown_folder user d)
        (order_desc (λ v. v.created_at) (select (λ v. v.user_id == user) d.favorites))

  -- The service.
  abbrev pub favor_blob : ℕ → ℕ → Action ⊤
  favor_blob user id = add_blob_favorite user id

  abbrev pub unfavor_blob : ℕ → ℕ → Action ⊤
  unfavor_blob user id = remove_blob_favorite user id

  abbrev pub favor_folder : ℕ → ℕ → Action ⊤
  favor_folder user id = add_folder_favorite user id

  abbrev pub unfavor_folder : ℕ → ℕ → Action ⊤
  unfavor_folder user id = remove_folder_favorite user id

  abbrev pub list_blob_favorites : ℕ → Action (List FavoriteBlob)
  list_blob_favorites user = list_favorite_blobs user

  abbrev pub list_folder_favorites : ℕ → Action (List Folder)
  list_folder_favorites user = list_favorite_folders user
