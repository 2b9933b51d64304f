-- ===== src/Tenants/ObjectKeys.antt =====
-- The ids and the object keys in the table of blobs over sequences of requests to
-- internal/usecase/storage/service.go: `PRIMARY KEY` and `UNIQUE` of migrations.
use cloud_zero_knowledge_sto.Base.{
  ℕ, Bool, true, false, ◌&&◌, ◌||◌, not, Option, none, List, [], ◌∷◌, ◌++◌, Text, ◌≡◌, refl, arith,
  ◌==◌, is_null, text_eq, update, delete, exists_row,
}
use cloud_zero_knowledge_sto.Store.{Blob, Db, Env, World}
use cloud_zero_knowledge_sto.Store.Keeps.{
  Keeps, Keeps-bind, Keeps-query, Keeps-on_row, Keeps-pure, Keeps-sql, Keeps-exec,
}
use cloud_zero_knowledge_sto.Blobs.{
  RegisterBlobParams, new_blob, is_blob_of, register, move, register_blob, move_blob, rename_blob,
  confirm_blob_upload, abort_pending_blob, trash_blob, restore_blob, hard_delete_blob,
}
use cloud_zero_knowledge_sto.Uploads.{Limits}
use cloud_zero_knowledge_sto.Tenants.Requests.{
  FileRequest, serve_file, serve_files, FileWrites, serve_file-Keeps,
}

abbrev pub key_of : Blob → ℕ × Text
key_of b = (b.id, b.object_key)

abbrev pub keys : List Blob → List (ℕ × Text)
keys [] = []
keys (b ∷ bs) = key_of b ∷ keys bs

abbrev pub clashes : ℕ × Text → ℕ × Text → Bool
clashes (id, key) (id', key') = id' == id || text_eq key' key

abbrev pub is_distinct : List (ℕ × Text) → Bool
is_distinct [] = true
is_distinct (k ∷ ks) = not (exists_row (clashes k) ks) && is_distinct ks

pub record HasDistinctKeys (d : Db) : Type 0 where
  pub distinct : is_distinct (keys d.blobs) ≡ true

keys-update :
    (p : Blob → Bool) (f : Blob → Blob)
    → ((b : Blob) → key_of (f b) ≡ key_of b)
    → (rows : List Blob) → keys (update p f rows) ≡ keys rows
keys-update p f same [] = refl
keys-update p f same (r ∷ rows) = ground (arith, keys-update p f same rows, same r)

-- A deletion leaves no clash that was not there.
exists-delete :
    (k : ℕ × Text) (p : Blob → Bool) (rows : List Blob)
    → exists_row (clashes k) (keys rows) ≡ false
    → exists_row (clashes k) (keys (delete p rows)) ≡ false
exists-delete k p [] h = refl
exists-delete k p (r ∷ rows) h = ground (arith, exists-delete k p rows)

distinct-delete :
    (p : Blob → Bool) (rows : List Blob)
    → is_distinct (keys rows) ≡ true
    → is_distinct (keys (delete p rows)) ≡ true
distinct-delete p [] h = refl
distinct-delete p (r ∷ rows) h =
    ground (arith, distinct-delete p rows, exists-delete (key_of r) p rows)

text_eq_comm : (s t : Text) → text_eq s t ≡ text_eq t s
text_eq_comm [] [] = refl
text_eq_comm [] (_ ∷ _) = refl
text_eq_comm (_ ∷ _) [] = refl
text_eq_comm (x ∷ s) (y ∷ t) = ground (arith, text_eq_comm s t)

exists-snoc :
    (k k' : ℕ × Text) (ks : List (ℕ × Text))
    → exists_row (clashes k) ks ≡ false
    → clashes k k' ≡ false
    → exists_row (clashes k) (ks ++ k' ∷ []) ≡ false
exists-snoc k k' [] h h' = ground arith
exists-snoc k k' (x ∷ ks) h h' = ground (arith, exists-snoc k k' ks)

distinct-snoc :
    (k : ℕ × Text) (ks : List (ℕ × Text))
    → is_distinct ks ≡ true
    → exists_row (clashes k) ks ≡ false
    → is_distinct (ks ++ k ∷ []) ≡ true
distinct-snoc k [] h h' = refl
distinct-snoc k (x ∷ ks) h h' =
    ground (arith, distinct-snoc k ks, exists-snoc x k ks, text_eq_comm x.1 k.1)

keys-snoc : (rows : List Blob) (b : Blob) → keys (rows ++ b ∷ []) ≡ keys rows ++ key_of b ∷ []
keys-snoc [] b = refl
keys-snoc (r ∷ rows) b = ground (arith, keys-snoc rows b)

-- The test of the insert, on the keys.
exists-keys :
    (id : ℕ) (key : Text) (rows : List Blob)
    → exists_row (clashes (id, key)) (keys rows)
      ≡ exists_row (λ b. b.id == id || text_eq b.object_key key) rows
exists-keys id key [] = refl
exists-keys id key (r ∷ rows) = ground (arith, exists-keys id key rows)

module _ (e : Env) where
  update-distinct :
      (d : Db) (p : Blob → Bool) (f : Blob → Blob)
      → ((b : Blob) → key_of (f b) ≡ key_of b)
      → HasDistinctKeys d
      → (d' : Db) → d'.blobs ≡ update p f d.blobs
      → HasDistinctKeys d'
  update-distinct d p f same h d' e' = record {
    distinct = rw (e', keys-update p f same) h.distinct;
  }

  delete-distinct :
      (d : Db) (p : Blob → Bool)
      → HasDistinctKeys d
      → (d' : Db) → d'.blobs ≡ delete p d.blobs
      → HasDistinctKeys d'
  delete-distinct d p h d' e' = record { distinct = rw e' (distinct-delete p d.blobs h.distinct) }

  register-distinct : (p : RegisterBlobParams) → Keeps HasDistinctKeys (register_blob e p)
  unfolding register_blob register
  register-distinct p = Keeps-sql e (register p) λ t d h. record {
    distinct = ground (
      arith,
      h.distinct,
      exists-keys p.id p.object_key d.blobs,
      keys-snoc d.blobs (new_blob p t),
      distinct-snoc (p.id, p.object_key) (keys d.blobs),
    );
  }

  move-distinct :
      (id u : ℕ) (o : Option ℕ) (t : ℕ) (d : Db)
      → HasDistinctKeys d
      → HasDistinctKeys (move id u o t d).1
  unfolding move
  move-distinct id u o t d h =
      let here = λ (b : Blob). is_blob_of id u b && is_null b.deleted_at in
      record {
        distinct = ground (
          arith,
          h.distinct,
          keys-update here (λ b. record b { folder_id = o }) (λ b. refl) d.blobs,
        );
      }

  distinct_writes : (u : ℕ) → FileWrites e u HasDistinctKeys
  unfolding confirm_blob_upload abort_pending_blob trash_blob restore_blob hard_delete_blob
      move_blob rename_blob
  distinct_writes u = record {
    registers = λ p _. register-distinct p;
    confirms = λ id size. Keeps-exec e _ λ t d h. update-distinct d _ _ (λ b. refl) h _ refl;
    drops_pending = λ id. Keeps-exec e _ λ t d h. delete-distinct d _ h _ refl;
    trashes = λ id. Keeps-exec e _ λ t d h. update-distinct d _ _ (λ b. refl) h _ refl;
    brings_back = λ id. Keeps-exec e _ λ t d h. update-distinct d _ _ (λ b. refl) h _ refl;
    drops_trashed = λ id. Keeps-exec e _ λ t d h. delete-distinct d _ h _ refl;
    moves_to = λ id o. Keeps-bind _ _ (Keeps-query e _) λ found.
        Keeps-on_row found _ _ (Keeps-pure none) λ row.
          Keeps-bind _ _ (Keeps-sql e (move id u o) (move-distinct id u o)) λ moved. Keeps-pure _;
    renames_to = λ id name. Keeps-exec e _ λ t d h. update-distinct d _ _ (λ b. refl) h _ refl;
  }

-- Over any sequence of file requests of any users, two rows of the table never share an id or an
-- object key, if they did not before.
pub serve_files-HasDistinctKeys :
    (e : Env) (l : Limits) (rs : List (ℕ × FileRequest)) (w : World)
    → HasDistinctKeys w.db
    → HasDistinctKeys (serve_files e l rs w).db
unfolding serve_files
serve_files-HasDistinctKeys e l [] w h = h
serve_files-HasDistinctKeys e l ((u, r) ∷ rs) w h =
    serve_files-HasDistinctKeys e l rs (serve_file e l u r w)
      (serve_file-Keeps e l u (distinct_writes e u) r w h)
