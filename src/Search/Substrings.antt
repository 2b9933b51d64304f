-- ===== src/Search/Substrings.antt =====
-- `Service.Search` of internal/usecase/storage/service.go against a direct search for substrings.
use mathlib.Core.Option
use cloud_zero_knowledge_sto.Base.{
  ℕ, Bool, true, false, ◌&&◌, ◌||◌, Option, none, some, List, [], ◌∷◌, ◌++◌, map, Text, ◌≡◌, refl,
  ap, ◌∙◌, arith, inl, inr, ◌==◌, ==_iff, if◌then◌else◌, take, order_desc, select-ext, Bool-cases,
}
use cloud_zero_knowledge_sto.Store.{Db, Env, World, Action, attempt, query, running}
use cloud_zero_knowledge_sto.Blobs.{is_visible}
use cloud_zero_knowledge_sto.Folders.{is_live}
use cloud_zero_knowledge_sto.Names.{backslash}
use cloud_zero_knowledge_sto.Search.Patterns.{
  percent, underscore, escape_one, escape_like, Token, any_run, literal, token_of, parse,
  some_suffix, matches,
}
use cloud_zero_knowledge_sto.Search.{
  SearchResult, pattern_of, blobs_by_name, folders_by_name, found, with_folder_name, search_blobs,
  search_folders, search,
}

-- Whether a text starts with another, letters compared as `fold` has them.
abbrev pub starts_with : (ℕ → ℕ) → Text → Text → Bool
starts_with fold [] s = true
starts_with fold (x ∷ q) [] = false
starts_with fold (x ∷ q) (c ∷ s) = fold x == fold c && starts_with fold q s

abbrev pub includes : (ℕ → ℕ) → Text → Text → Bool
includes fold q s = some_suffix (starts_with fold q) s

abbrev literals : Text → List Token
literals [] = []
literals (c ∷ q) = literal c ∷ literals q

-- Whether a character has a meaning in a pattern.
abbrev is_special : ℕ → Bool
is_special c = c == backslash || c == percent || c == underscore

escape_cons :
    (c : ℕ) (q : Text)
    → escape_like (c ∷ q)
      ≡ (if is_special c then backslash ∷ c ∷ escape_like q else c ∷ escape_like q)
unfolding escape_like escape_one
escape_cons c q = elim (Bool-cases (c == backslash)) [
  | inl e ↦ rw ((==_iff c backslash).0 e) refl
  | inr a ↦ elim (Bool-cases (c == percent)) [
    | inl e ↦ rw ((==_iff c percent).0 e) refl
    | inr b ↦ elim (Bool-cases (c == underscore)) [
      | inl e ↦ rw ((==_iff c underscore).0 e) refl
      | inr d ↦ rw (a, b, d) refl
    ]
  ]
]

escape_nil : escape_like [] ≡ []
unfolding escape_like escape_one
escape_nil = refl

plain_lem : (c : ℕ) → is_special c ≡ false → ((c == backslash) ≡ false) × (token_of c ≡ literal c)
plain_lem c h = elim (Bool-cases (c == percent)) [
  | inl e ↦ ground arith
  | inr a ↦ elim (Bool-cases (c == underscore)) [
    | inl e ↦ ground arith
    | inr b ↦ (ground arith, rw (a, b) refl)
  ]
]

map_id : {A : Type 0} (o : Option A) → o ≡ Option.map (λ a. a) o
map_id none = refl
map_id (some a) = refl

map_twice :
    {A B C : Type 0} (g : B → C) (f : A → B) (o : Option A)
    → Option.map g (Option.map f o) ≡ Option.map (λ a. g (f a)) o
map_twice g f none = refl
map_twice g f (some a) = refl

plain_case :
    (c : ℕ) (q r : Text)
    → (c == backslash) ≡ false
    → token_of c ≡ literal c
    → Option.map (λ ts. literal c ∷ ts) (parse false (escape_like q ++ r))
      ≡ Option.map (λ ts. literals (c ∷ q) ++ ts) (parse false r)
    → parse false (c ∷ (escape_like q ++ r))
      ≡ Option.map (λ ts. literals (c ∷ q) ++ ts) (parse false r)
unfolding parse
plain_case c q r a b longer =
    (rw a (ap (λ t. Option.map (λ ts. t ∷ ts) (parse false (escape_like q ++ r))) b)) ∙ longer

-- An escaped query reads as its own characters.
parse-escape :
    (q r : Text)
    → parse false (escape_like q ++ r) ≡ Option.map (λ ts. literals q ++ ts) (parse false r)
unfolding parse
parse-escape [] r = rw escape_nil (map_id (parse false r))
parse-escape (c ∷ q) r =
    let longer : Option.map (λ ts. literal c ∷ ts) (parse false (escape_like q ++ r))
        ≡ Option.map (λ ts. literals (c ∷ q) ++ ts) (parse false r) =
      rw (parse-escape q r)
        (map_twice (λ ts. literal c ∷ ts) (λ ts. literals q ++ ts) (parse false r)) in
    elim (Bool-cases (is_special c)) [
      | inl e ↦ rw (escape_cons c q, e) longer
      | inr e ↦ let (a, b) = plain_lem c e in rw (escape_cons c q, e) (plain_case c q r a b longer)
    ]

all_match : (fold : ℕ → ℕ) (s : Text) → matches fold (any_run ∷ []) s ≡ true
unfolding matches
all_match fold [] = refl
all_match fold (c ∷ s) = all_match fold s

-- The characters of a query and then anything.
matches-literals :
    (fold : ℕ → ℕ) (q s : Text) → matches fold (literals q ++ any_run ∷ []) s ≡ starts_with fold q s
unfolding matches
matches-literals fold [] s = all_match fold s
matches-literals fold (x ∷ q) [] = refl
matches-literals fold (x ∷ q) (c ∷ s) = ap (λ b. fold x == fold c && b) (matches-literals fold q s)

some_suffix-ext :
    (f g : Text → Bool) → ((s : Text) → f s ≡ g s) → (s : Text) → some_suffix f s ≡ some_suffix g s
some_suffix-ext f g same [] = same []
some_suffix-ext f g same (c ∷ s) = rw (same (c ∷ s), some_suffix-ext f g same s) refl

-- The pattern that a search sends is read without an error, as its query between two runs.
parse-pattern :
    (q : Text) → parse false (pattern_of q) ≡ some (any_run ∷ literals q ++ any_run ∷ [])
unfolding parse
parse-pattern q = ap (Option.map λ ts. any_run ∷ ts) (parse-escape q (percent ∷ []))

pattern_includes :
    (fold : ℕ → ℕ) (q s : Text)
    → matches fold (any_run ∷ literals q ++ any_run ∷ []) s ≡ includes fold q s
unfolding matches
pattern_includes fold q s = some_suffix-ext _ _ (matches-literals fold q) s

blobs_lem :
    (fold : ℕ → ℕ) (q : Text) (user : ℕ) (d : Db)
    → blobs_by_name (matches fold (any_run ∷ literals q ++ any_run ∷ [])) user d
      ≡ blobs_by_name (includes fold q) user d
blobs_lem fold q user d =
    ap (λ rows. map (with_folder_name d.folders) (take 200 (order_desc (λ b. b.created_at) rows)))
      (select-ext _ _
        (λ b.
          ap (λ x. b.user_id == user && x && is_visible b) (pattern_includes fold q b.file_name))
        d.blobs)

folders_lem :
    (e : Env) (q : Text) (user : ℕ) (d : Db)
    → folders_by_name e (matches e.fold_case (any_run ∷ literals q ++ any_run ∷ [])) user d
      ≡ folders_by_name e (includes e.fold_case q) user d
folders_lem e q user d =
    ap (λ rows. take 50 (e.order_by_name rows))
      (select-ext _ _
        (λ f. ap (λ x. f.user_id == user && x && is_live f) (pattern_includes e.fold_case q f.name))
        d.folders)

-- What a search promises: the user's blobs and folders whose names include the query, the blobs
-- completed and neither in the trash, at most 200 and 50.
abbrev pub search_by_name : Env → ℕ → Text → Action SearchResult
search_by_name e user q =
    attempt (query e (λ t d. blobs_by_name (includes e.fold_case q) user d)) λ blobs.
      attempt (query e (λ t d. folders_by_name e (includes e.fold_case q) user d))
        λ folders. found blobs folders

module _ (e : Env) (user : ℕ) (q : Text) (w : World) where
  search_blobs_lem :
      search_blobs e user q w ≡ query e (λ t d. blobs_by_name (includes e.fold_case q) user d) w
  unfolding search_blobs running
  search_blobs_lem = rw (parse-pattern q, blobs_lem e.fold_case q user w.db) refl

  search_folders_lem :
      search_folders e user q w
      ≡ query e (λ t d. folders_by_name e (includes e.fold_case q) user d) w
  unfolding search_folders running
  search_folders_lem = rw (parse-pattern q, folders_lem e q user w.db) refl

-- `Search` answers and leaves what the direct search for names that include the query does: no
-- character of the query is a wildcard or an escape, and no query is an error of the pattern.
pub search-search_by_name :
    (e : Env) (user : ℕ) (q : Text) (w : World) → search e user q w ≡ search_by_name e user q w
unfolding search attempt
search-search_by_name e user q w =
    let w' = (query e (λ t d. blobs_by_name (includes e.fold_case q) user d) w).1 in
    rw (search_blobs_lem e user q w, search_folders_lem e user q w') refl
