-- ===== src/Sharing/Access.antt =====
-- What `GetSharedFile` of internal/usecase/sharing/service.go has checked when it gives a link.
use cloud_zero_knowledge_sto.Base.{
  not-false, ℕ, ◌≤◌, subst, Bool, true, false, ◌&&◌, Option, none, some, List, [], ◌∷◌, ◌≡◌, ◌⊎◌,
  inl, inr, refl, sym, ap, ◌∙◌, arith, ltb, ◌==◌, ==_iff, is_null, is_not_null, select, first,
  Bool-cases,
}
use cloud_zero_knowledge_sto.Store.{Blob, FileShare, User, Db, Env, World}
use cloud_zero_knowledge_sto.Store.Ends.{
  Outcome, Ends, Ends-mono, Ends-given, Ends-bind, Ends-pure, Ends-raise_if, Ends-time_now,
}
use cloud_zero_knowledge_sto.Store.Transactions.{Ends-read, Ends-read_map}
use cloud_zero_knowledge_sto.Store.Answers.{presigned_get_lem}
use cloud_zero_knowledge_sto.Shares.{
  FileShareView, view_of, keep_view, join_view, join_views, to_info, get_share, get_blob_info,
}
use cloud_zero_knowledge_sto.Sharing.{
  SharedFileResult, check_expiry, validate_share_access, get_shared_file,
}

-- The share with an id, as the joins show it.
abbrev pub shown_share : ℕ → Db → Option FileShareView
shown_share id d = first (join_views d (select (λ s. s.id == id) d.shares))

abbrev pub live_blob : ℕ → Db → Option Blob
live_blob id d = first (select (λ b. b.id == id && is_null b.deleted_at) d.blobs)

-- What holds when a shared file was opened at the tables `d₀`.
pub record IsOpened (e : Env) (id caller : ℕ) (d₀ : Db) (r : SharedFileResult) : Type 0 where
  pub shown : shown_share id d₀ ≡ some r.share
  pub the_share : r.share.share.id ≡ id
  pub for_caller : r.share.share.recipient_id ≡ caller
  pub not_revoked : r.share.share.revoked_at ≡ none
  pub in_time :
      (r.share.share.expires_at ≡ none)
      ⊎ ((x : ℕ) × (n : ℕ) × (r.share.share.expires_at ≡ some x) × (e.now n ≤ x))
  pub row : Blob
  pub not_trashed : live_blob r.share.share.blob_id d₀ ≡ some row
  pub link : (n : ℕ) × (e.presigned_get_object n row.object_key ≡ some r.download_url)
  pub named : r.file_name ≡ row.file_name
  pub sized : r.file_size ≡ row.file_size

view_of_share :
    (s : FileShare) (b : Option Blob) (o r : Option User) (v : FileShareView)
    → view_of s b o r ≡ some v
    → v.share ≡ s
view_of_share s none o r v h = cc
view_of_share s (some b) none r v h = cc
view_of_share s (some b) (some o) none v h = cc
view_of_share s (some b) (some o) (some r) v h = cc

kept_cases :
    (o : Option FileShareView) (rest : List FileShareView) (v : FileShareView)
    → first (keep_view o rest) ≡ some v
    → (o ≡ some v) ⊎ (first rest ≡ some v)
kept_cases none rest v h = inr h
kept_cases (some v') rest v h = inl h

-- The joins show no share but those they are given.
join_views_sound :
    (q : FileShare → Bool) (d : Db) (rows : List FileShare) (v : FileShareView)
    → first (join_views d (select q rows)) ≡ some v
    → q v.share ≡ true
unfolding join_views
join_views_sound q d [] v h = cc
join_views_sound q d (s ∷ rows) v h = elim (Bool-cases (q s)) [
  | inr miss ↦ join_views_sound q d rows v (rw miss at h)
  | inl hit ↦ elim (kept_cases (join_view d s) (join_views d (select q rows)) v (rw hit at h)) [
    | inl shows ↦ ap q (view_of_share s _ _ _ v shows) ∙ hit
    | inr later ↦ join_views_sound q d rows v later
  ]
]

not_null_lem : (o : Option ℕ) → is_not_null o ≡ false → o ≡ none
not_null_lem none h = refl
not_null_lem (some x) h = cc

ltb_lem : (x y : ℕ) → ltb x y ≡ false → y ≤ x
ltb_lem x y h = ground arith

module _ (e : Env) (d₀ : Db) where
  abbrev Same : Db → Type 0
  Same d = d ≡ d₀

  abbrev InTime : Option ℕ → Type 0
  InTime o = (o ≡ none) ⊎ ((x : ℕ) × (n : ℕ) × (o ≡ some x) × (e.now n ≤ x))

  check_expiry_lem : (o : Option ℕ) → Ends Same (check_expiry e o) (λ _ d. InTime o × (d ≡ d₀)) Same
  check_expiry_lem none = Ends-pure tt _ Same λ d h. (inl refl, h)
  check_expiry_lem (some x) = Ends-bind _ _ _ _ Same (Ends-time_now e Same) λ now.
      Ends-mono _ _ _ Same Same (Ends-raise_if (ltb x now) _ Same (λ d h. h.1))
        (λ _ d (early, ((n, at), same)).
          (inr (x, n, refl, subst (λ t. t ≤ x) (sym at) (ltb_lem x now early)), same))
        (λ d h. h)

  abbrev IsValidFor : FileShare → ℕ → Type 0
  IsValidFor s caller = (s.recipient_id ≡ caller) × (s.revoked_at ≡ none) × InTime s.expires_at

  validate_lem :
      (s : FileShare) (caller : ℕ)
      → Ends Same (validate_share_access e s caller) (λ _ d. IsValidFor s caller × (d ≡ d₀)) Same
  unfolding validate_share_access
  validate_lem s caller = Ends-bind _ _ _ _ Same (Ends-raise_if _ _ Same (λ d h. h)) λ _.
      Ends-given _ _ _ Same λ mine. Ends-bind _ _ _ _ Same (Ends-raise_if _ _ Same (λ d h. h)) λ _.
        Ends-given _ _ _ Same λ active.
          Ends-mono _ _ _ Same Same (check_expiry_lem s.expires_at)
            (λ _ d (timely, same). (
              (
                (==_iff s.recipient_id caller).0 (not-false _ mine),
                not_null_lem s.revoked_at active,
                timely,
              ),
              same,
            ))
            (λ d h. h)

  get_shared_file_lem :
      (id caller : ℕ)
      → Ends Same (get_shared_file e id caller) (λ r d. IsOpened e id caller d₀ r × (d ≡ d₀)) Same
  unfolding get_shared_file get_share get_blob_info
  get_shared_file_lem id caller = Ends-read e d₀ _ _ (shown_share id) _ λ view shown.
      Ends-bind _ _ _ _ Same (validate_lem view.share caller) λ _. Ends-given _ _ _ Same λ valid.
        Ends-read_map e d₀ _ _ (live_blob view.share.blob_id) to_info _ λ row live.
          Ends-bind _ _ _ _ Same (presigned_get_lem e row.object_key Same (λ d h. h)) λ url.
            Ends-given _ _ _ Same λ link. Ends-pure _ _ Same λ d h. (
              record {
                shown = shown;
                the_share =
                    (==_iff view.share.id id).0
                      (join_views_sound (λ s. s.id == id) d₀ d₀.shares view shown);
                for_caller = valid.0;
                not_revoked = valid.1;
                in_time = valid.2;
                row = row;
                not_trashed = live;
                link = link;
                named = refl;
                sized = refl;
              },
              h,
            )

-- `GetSharedFile` changes no table. When it returns, the share with that id is for the caller, not
-- revoked and not past its time by the clock of the call, its blob is not in the trash, and the
-- link is the object store's for that blob's object.
pub get_shared_file-IsOpened :
    (e : Env) (id caller : ℕ) (w : World)
    → Outcome
        (get_shared_file e id caller w).0
        (λ r. IsOpened e id caller w.db r × ((get_shared_file e id caller w).1.db ≡ w.db))
        ((get_shared_file e id caller w).1.db ≡ w.db)
get_shared_file-IsOpened e id caller w = (get_shared_file_lem e w.db id caller).at w refl
