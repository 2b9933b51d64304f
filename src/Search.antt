-- ===== src/Search.antt =====
-- `Service.Search` of internal/usecase/storage/service.go, with SearchBlobs and SearchFolders of
-- internal/repo/persistent/postgres.
pub mod Patterns
pub mod Substrings
use mathlib.Core.Option
use cloud_zero_knowledge_sto.Base.{
  ℕ, Bool, ◌&&◌, Option, none, some, List, [], ◌∷◌, ◌++◌, map, Text, ◌==◌, holds_id, select, first,
  order_desc, take,
}
use cloud_zero_knowledge_sto.Store.{
  Blob, Folder, Db, Env, Action, Result, ok, err, db_failed, pure, raise, attempt, ◌>>=◌, sql,
}
use cloud_zero_knowledge_sto.Blobs.{is_visible}
use cloud_zero_knowledge_sto.Folders.{is_live}
use Patterns.{percent, escape_like, Token, parse, matches}

pub record SearchBlobRecord : Type 0 where
  pub blob : Blob
  pub folder_name : Option Text

pub record SearchResult : Type 0 where
  pub blobs : List SearchBlobRecord
  pub folders : List Folder

-- `"%"+escapeLike(query)+"%"`
abbrev pub pattern_of : Text → Text
pattern_of query = percent ∷ escape_like query ++ percent ∷ []

-- The `LEFT JOIN` with the folders.
abbrev pub with_folder_name : List Folder → Blob → SearchBlobRecord
with_folder_name folders b = record {
  blob = b;
  folder_name = Option.map (λ f. f.name) (first (select (λ f. holds_id b.folder_id f.id) folders));
}

-- The rows of the blobs whose names pass a test.
abbrev pub blobs_by_name : (Text → Bool) → ℕ → Db → List SearchBlobRecord
blobs_by_name test user d = map (with_folder_name d.folders) (
    take 200 (
      order_desc (λ b. b.created_at)
        (select (λ b. b.user_id == user && test b.file_name && is_visible b) d.blobs)))

abbrev pub folders_by_name : Env → (Text → Bool) → ℕ → Db → List Folder
folders_by_name e test user d =
    take 50
      (e.order_by_name (select (λ f. f.user_id == user && test f.name && is_live f) d.folders))

-- A query with a pattern, which fails on a bad one.
abbrev pub on_pattern : {A : Type 0} → Option (List Token) → (List Token → A) → Db → Result A × Db
on_pattern none f d = (err db_failed, d)
on_pattern (some ts) f d = (ok (f ts), d)

abbrev pub found : Result (List SearchBlobRecord) → Result (List Folder) → Action SearchResult
found (err x) _ = raise x
found (ok blobs) (err x) = raise x
found (ok blobs) (ok folders) = pure (record { blobs = blobs; folders = folders })

module _ (e : Env) where
  unfoldable pub search_blobs : ℕ → Text → Action (List SearchBlobRecord)
  search_blobs user query = sql e λ t d.
      on_pattern (parse Bool.false (pattern_of query))
        (λ ts. blobs_by_name (matches e.fold_case ts) user d) d

  unfoldable pub search_folders : ℕ → Text → Action (List Folder)
  search_folders user query = sql e λ t d.
      on_pattern (parse Bool.false (pattern_of query))
        (λ ts. folders_by_name e (matches e.fold_case ts) user d) d

  -- The two goroutines only read, so either order gives the same lists.
  unfoldable pub search : ℕ → Text → Action SearchResult
  search user query =
      attempt (search_blobs user query)
        λ blobs. attempt (search_folders user query) λ folders. found blobs folders
