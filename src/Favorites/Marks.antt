-- ===== src/Favorites/Marks.antt =====
-- The rows of favorites over sequences of requests to internal/usecase/favorites/service.go.
use cloud_zero_knowledge_sto.Base.{
  ℕ, Bool, true, false, ◌&&◌, not, Option, none, some, List, [], ◌∷◌, ◌++◌, ◌≡◌, refl, arith, ◌==◌,
  if◌then◌else◌, holds_id, same_id, is_null, is_not_null, delete, exists_row,
}
use cloud_zero_knowledge_sto.Store.{Favorite, Db, Env, World}
use cloud_zero_knowledge_sto.Store.Keeps.{Keeps, Keeps-sql, Keeps-exec, Keeps-query}
use cloud_zero_knowledge_sto.Favorites.{
  marks_blob, marks_folder, blob_mark, folder_mark, insert_mark, add_blob_favorite,
  remove_blob_favorite, add_folder_favorite, remove_folder_favorite, list_favorite_blobs,
  list_favorite_folders, favor_blob, unfavor_blob, favor_folder, unfavor_folder,
  list_blob_favorites, list_folder_favorites,
}

-- The requests of a user on favorites, as the handlers of internal/controller/restapi/v1 pass them.
pub data FavoriteRequest : Type 0 where
  favors_blob unfavors_blob favors_folder unfavors_folder : ℕ → FavoriteRequest
  lists_blobs lists_folders : FavoriteRequest

-- Two rows of one user that mark one thing.
abbrev pub same_mark : Favorite → Favorite → Bool
same_mark v v' =
    v.user_id == v'.user_id && same_id v.blob_id v'.blob_id && same_id v.folder_id v'.folder_id

-- `CHECK`: a blob or a folder, not both.
abbrev pub marks_one : Favorite → Bool
marks_one v = if is_null v.blob_id then is_not_null v.folder_id else is_null v.folder_id

abbrev pub all_single : List Favorite → Bool
all_single [] = true
all_single (v ∷ vs) = marks_one v && not (exists_row (same_mark v) vs) && all_single vs

pub record HasSingleMarks (d : Db) : Type 0 where
  pub single : all_single d.favorites ≡ true

exists-delete_mark :
    (p q : Favorite → Bool) (vs : List Favorite)
    → exists_row p vs ≡ false
    → exists_row p (delete q vs) ≡ false
exists-delete_mark p q [] h = refl
exists-delete_mark p q (v ∷ vs) h = ground (arith, exists-delete_mark p q vs)

single-delete :
    (q : Favorite → Bool) (vs : List Favorite)
    → all_single vs ≡ true
    → all_single (delete q vs) ≡ true
single-delete q [] h = refl
single-delete q (v ∷ vs) h =
    ground (arith, single-delete q vs, exists-delete_mark (same_mark v) q vs)

-- A row that the index lets in.
exists-snoc_mark :
    (p : Favorite → Bool) (x : Favorite) (vs : List Favorite)
    → exists_row p vs ≡ false
    → p x ≡ false
    → exists_row p (vs ++ x ∷ []) ≡ false
exists-snoc_mark p x [] h h' = ground arith
exists-snoc_mark p x (v ∷ vs) h h' = ground (arith, exists-snoc_mark p x vs)

single-snoc_mark :
    (key : Favorite → Bool) (x : Favorite)
    → ((v : Favorite) → key v ≡ false → same_mark v x ≡ false)
    → marks_one x ≡ true
    → (vs : List Favorite) → all_single vs ≡ true
    → exists_row key vs ≡ false
    → all_single (vs ++ x ∷ []) ≡ true
single-snoc_mark key x apart one [] h fresh = ground arith
single-snoc_mark key x apart one (v ∷ vs) h fresh =
    ground
      (arith, single-snoc_mark key x apart one vs, exists-snoc_mark (same_mark v) x vs, apart v)

same_holds : (o : Option ℕ) (id : ℕ) → same_id o (some id) ≡ holds_id o id
same_holds none id = refl
same_holds (some x) id = refl

blob_apart :
    (user id t : ℕ) (v : Favorite)
    → marks_blob user id v ≡ false
    → same_mark v (blob_mark user id t) ≡ false
blob_apart user id t v h = ground (arith, same_holds v.blob_id id)

folder_apart :
    (user id t : ℕ) (v : Favorite)
    → marks_folder user id v ≡ false
    → same_mark v (folder_mark user id t) ≡ false
folder_apart user id t v h = ground (arith, same_holds v.folder_id id)

insert-HasSingleMarks :
    (key : Favorite → Bool) (x : Favorite) (keys_ok : Bool) (d : Db)
    → ((v : Favorite) → key v ≡ false → same_mark v x ≡ false)
    → marks_one x ≡ true
    → HasSingleMarks d
    → HasSingleMarks (insert_mark key x keys_ok d).1
insert-HasSingleMarks key x keys_ok d apart one h = record {
  single = ground (arith, h.single, single-snoc_mark key x apart one d.favorites);
}

module _ (e : Env) where
  add_blob-Keeps : (user id : ℕ) → Keeps HasSingleMarks (add_blob_favorite e user id)
  unfolding add_blob_favorite
  add_blob-Keeps user id = Keeps-sql e _ λ t d h.
      insert-HasSingleMarks (marks_blob user id) (blob_mark user id t) _ d (blob_apart user id t)
        refl h

  add_folder-Keeps : (user id : ℕ) → Keeps HasSingleMarks (add_folder_favorite e user id)
  unfolding add_folder_favorite
  add_folder-Keeps user id = Keeps-sql e _ λ t d h.
      insert-HasSingleMarks (marks_folder user id) (folder_mark user id t) _ d
        (folder_apart user id t) refl h

  remove_blob-Keeps : (user id : ℕ) → Keeps HasSingleMarks (remove_blob_favorite e user id)
  unfolding remove_blob_favorite
  remove_blob-Keeps user id =
      Keeps-exec e _
        λ t d h. record { single = single-delete (marks_blob user id) d.favorites h.single }

  remove_folder-Keeps : (user id : ℕ) → Keeps HasSingleMarks (remove_folder_favorite e user id)
  unfolding remove_folder_favorite
  remove_folder-Keeps user id =
      Keeps-exec e _
        λ t d h. record { single = single-delete (marks_folder user id) d.favorites h.single }

  list_blobs-Keeps : (u : ℕ) → Keeps HasSingleMarks (list_favorite_blobs e u)
  unfolding list_favorite_blobs
  list_blobs-Keeps u = Keeps-query e _

  list_folders-Keeps : (u : ℕ) → Keeps HasSingleMarks (list_favorite_folders e u)
  unfolding list_favorite_folders
  list_folders-Keeps u = Keeps-query e _

  -- One request of the user `u`, whatever it answers.
  unfoldable pub serve_favorite : ℕ → FavoriteRequest → World → World
  serve_favorite u (favors_blob id) w = (favor_blob e u id w).1
  serve_favorite u (unfavors_blob id) w = (unfavor_blob e u id w).1
  serve_favorite u (favors_folder id) w = (favor_folder e u id w).1
  serve_favorite u (unfavors_folder id) w = (unfavor_folder e u id w).1
  serve_favorite u lists_blobs w = (list_blob_favorites e u w).1
  serve_favorite u lists_folders w = (list_folder_favorites e u w).1

  unfoldable pub serve_favorites : List (ℕ × FavoriteRequest) → World → World
  unfolding serve_favorite
  serve_favorites [] w = w
  serve_favorites ((u, r) ∷ rs) w = serve_favorites rs (serve_favorite u r w)

  serve_favorite-HasSingleMarks :
      (u : ℕ) (r : FavoriteRequest) (w : World)
      → HasSingleMarks w.db
      → HasSingleMarks (serve_favorite u r w).db
  unfolding serve_favorite
  serve_favorite-HasSingleMarks u (favors_blob id) w = (add_blob-Keeps u id).at w
  serve_favorite-HasSingleMarks u (unfavors_blob id) w = (remove_blob-Keeps u id).at w
  serve_favorite-HasSingleMarks u (favors_folder id) w = (add_folder-Keeps u id).at w
  serve_favorite-HasSingleMarks u (unfavors_folder id) w = (remove_folder-Keeps u id).at w
  serve_favorite-HasSingleMarks u lists_blobs w = (list_blobs-Keeps u).at w
  serve_favorite-HasSingleMarks u lists_folders w = (list_folders-Keeps u).at w

-- Over any sequence of requests on favorites of any users, a row marks one blob or one folder, and
-- no two rows of a user mark the same, if it was so before.
pub serve_favorites-HasSingleMarks :
    (e : Env) (rs : List (ℕ × FavoriteRequest)) (w : World)
    → HasSingleMarks w.db
    → HasSingleMarks (serve_favorites e rs w).db
unfolding serve_favorites
serve_favorites-HasSingleMarks e [] w h = h
serve_favorites-HasSingleMarks e ((u, r) ∷ rs) w h =
    serve_favorites-HasSingleMarks e rs (serve_favorite e u r w)
      (serve_favorite-HasSingleMarks e u r w h)
