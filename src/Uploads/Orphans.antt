-- ===== src/Uploads/Orphans.antt =====
-- What `CleanOrphanedBlobs` of internal/usecase/storage/service.go leaves.
use cloud_zero_knowledge_sto.Base.{ℕ, ◌-◌, Bool, ◌&&◌, List, [], ◌∷◌, ◌≡◌, refl, ltb}
use cloud_zero_knowledge_sto.Store.{Blob, Db, drop_blobs, Env, World, ignore_error}
use cloud_zero_knowledge_sto.Store.Ends.{
  Outcome, Ends, Ends-mono, Ends-given, Ends-bind, Ends-pure, Ends-exec, Ends-attempt,
  Ends-time_now,
}
use cloud_zero_knowledge_sto.Blobs.{OrphanedBlob, is_pending, purge_orphaned_blobs}
use cloud_zero_knowledge_sto.Uploads.{discard_all, clean_orphaned_blobs}
use cloud_zero_knowledge_sto.Uploads.Completion.{discard_lem}

-- Pending, and registered before a time.
abbrev pub is_orphan : ℕ → Blob → Bool
is_orphan before b = is_pending b && ltb b.created_at before

-- The tables without what was an orphan for `ttl` by some clock reading.
abbrev pub IsCleaned : Env → ℕ → Db → Db → Type 0
IsCleaned e ttl d₀ d = (n : ℕ) × (d ≡ drop_blobs (is_orphan (e.now n - ttl)) d₀)

discard_all_lem :
    (e : Env) {P : Db → Type 0} (bs : List OrphanedBlob) (R : Db → Type 0)
    → Ends P (discard_all e bs) (λ _. P) R
unfolding discard_all ignore_error
discard_all_lem e [] R = Ends-pure tt _ R λ d h. h
discard_all_lem e {P} (b ∷ bs) R =
    Ends-bind _ _ (λ _. P) _ R
      (Ends-attempt _ _ _ R
        (Ends-mono _ _ _ P P (discard_lem e b.object_key b.upload_id) (λ _ d h. h.1) (λ d h. h))
        λ _. Ends-pure tt _ R λ d h. h)
      λ _. discard_all_lem e bs R

clean_lem :
    (e : Env) (ttl : ℕ) (d₀ : Db)
    → Ends (λ d. d ≡ d₀) (clean_orphaned_blobs e ttl) (λ _. IsCleaned e ttl d₀) (λ d. d ≡ d₀)
unfolding clean_orphaned_blobs purge_orphaned_blobs
clean_lem e ttl d₀ =
    let R = λ (d : Db). d ≡ d₀ in
    Ends-bind _ _ _ _ R (Ends-time_now e R) λ now. Ends-given _ _ _ R λ (n, at).
      Ends-bind _ _ (λ _. IsCleaned e ttl d₀) _ R
        (Ends-exec e _ _ R (λ d h. h) (λ _ d h. (n, rw (h, at) refl)))
        λ blobs. discard_all_lem e blobs R

-- `CleanOrphanedBlobs` either fails and leaves every table as it was, or the rows deleted, with
-- those that hang on them, are exactly the pending ones registered before the clock's time less
-- the time to live: no upload that is younger, completed or in the trash is touched. That the object
-- store refuses to discard an object changes nothing.
pub clean_orphaned-IsCleaned :
    (e : Env) (ttl : ℕ) (w : World)
    → Outcome
        (clean_orphaned_blobs e ttl w).0
        (λ _. IsCleaned e ttl w.db (clean_orphaned_blobs e ttl w).1.db)
        ((clean_orphaned_blobs e ttl w).1.db ≡ w.db)
clean_orphaned-IsCleaned e ttl w = (clean_lem e ttl w.db).at w refl
