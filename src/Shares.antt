-- ===== src/Shares.antt =====
-- internal/repo/persistent/postgres/shares.go, with the constraints on file_shares of migrations.
use mathlib.Core.Option
use cloud_zero_knowledge_sto.Base.{
  ℕ, Bool, true, ◌&&◌, ◌||◌, Option, none, some, List, [], ◌∷◌, ◌++◌, Text, ⊤, ltb, ◌==◌,
  if◌then◌else◌, text_eq, is_null, is_empty, select, update, first, exists_row, order_desc,
}
use cloud_zero_knowledge_sto.Store.{
  Blob, FileShare, User, Db, Env, Action, Result, ok, err, Error, not_found, no_public_key,
  duplicate_share, unique_violation, foreign_key_violation, db_failed, map_errors, or_raise, on_row,
  pure, raise, ◌>>=◌, sql, query, exec,
}

pub record FileShareView : Type 0 where
  pub share : FileShare
  pub blob_file_name : Text
  pub blob_content_type : Text
  pub owner_email : Text
  pub recipient_email : Text

pub record BlobInfo : Type 0 where
  pub object_key : Text
  pub file_name : Text
  pub content_type : Text
  pub file_size : ℕ
  pub file_size_plain : ℕ
  pub chunk_size : ℕ
  pub owner_id : ℕ

-- `CreateShareParams` as the repository takes it, the recipient resolved.
pub record NewShare : Type 0 where
  pub blob_id : ℕ
  pub owner_id : ℕ
  pub recipient_id : ℕ
  pub ephemeral_pub : List ℕ
  pub wrapped_file_key : List ℕ
  pub expires_at : Option ℕ

abbrev pub to_info : Blob → BlobInfo
to_info b = record {
  object_key = b.object_key;
  file_name = b.file_name;
  content_type = b.content_type;
  file_size = b.file_size;
  file_size_plain = b.file_size_plain;
  chunk_size = b.chunk_size;
  owner_id = b.user_id;
}

abbrev pub view_of : FileShare → Option Blob → Option User → Option User → Option FileShareView
view_of s (some b) (some owner) (some recipient) = some (record {
  share = s;
  blob_file_name = b.file_name;
  blob_content_type = b.content_type;
  owner_email = owner.email;
  recipient_email = recipient.email;
})
view_of s _ _ _ = none

-- The joins with `stored_blobs` and twice `users`, on their primary keys.
abbrev pub join_view : Db → FileShare → Option FileShareView
join_view d s =
    view_of s (first (select (λ b. b.id == s.blob_id) d.blobs))
      (first (select (λ u. u.id == s.owner_id) d.users))
      (first (select (λ u. u.id == s.recipient_id) d.users))

abbrev pub keep_view : Option FileShareView → List FileShareView → List FileShareView
keep_view none rest = rest
keep_view (some v) rest = v ∷ rest

unfoldable pub join_views : Db → List FileShare → List FileShareView
join_views d [] = []
join_views d (s ∷ ss) = keep_view (join_view d s) (join_views d ss)

abbrev pub is_active : FileShare → Bool
is_active s = is_null s.revoked_at

-- `fs.expires_at IS NULL OR fs.expires_at > now()`
abbrev pub is_unexpired : ℕ → FileShare → Bool
is_unexpired t s = elim s.expires_at [ none ↦ true | some x ↦ ltb t x ]

abbrev pub new_share : NewShare → ℕ → ℕ → FileShare
new_share p id t = record {
  id = id;
  blob_id = p.blob_id;
  owner_id = p.owner_id;
  recipient_id = p.recipient_id;
  ephemeral_pub = p.ephemeral_pub;
  wrapped_file_key = p.wrapped_file_key;
  expires_at = p.expires_at;
  revoked_at = none;
  created_at = t;
}

-- The unique index on `(blob_id, recipient_id)` of the shares that are not revoked.
abbrev pub same_grant : ℕ → ℕ → FileShare → Bool
same_grant blob_id recipient s = s.blob_id == blob_id && s.recipient_id == recipient && is_active s

unfoldable pub insert_share : NewShare → ℕ → ℕ → Db → Result (Option FileShareView) × Db
insert_share p id t d =
    if exists_row (λ s. s.id == id) d.shares
      || exists_row (same_grant p.blob_id p.recipient_id) d.shares
    then (err unique_violation, d)
    else if exists_row (λ b. b.id == p.blob_id) d.blobs
        && exists_row (λ u. u.id == p.owner_id) d.users
        && exists_row (λ u. u.id == p.recipient_id) d.users
    then (
      ok (join_view d (new_share p id t)),
      record d { shares = d.shares ++ new_share p id t ∷ [] },
    )
    else (err foreign_key_violation, d)

abbrev pub as_duplicate : Error → Error
as_duplicate unique_violation = duplicate_share
as_duplicate x = x

module _ (e : Env) where
  -- The key, and the id of its owner.
  unfoldable pub get_public_key_by_email : Text → Action (List ℕ × ℕ)
  get_public_key_by_email email = do
    found ← query e λ t d. first (select (λ u. text_eq u.email email) d.users)
    on_row found (raise not_found)
        λ u. if is_empty u.public_key then raise no_public_key else pure (u.public_key, u.id)

  unfoldable pub get_blob_info : ℕ → Action (Option BlobInfo)
  get_blob_info blob_id = query e λ t d.
      Option.map to_info (first (select (λ b. b.id == blob_id && is_null b.deleted_at) d.blobs))

  -- A row that the joins drop is `pgx.ErrNoRows`, passed on as it is.
  unfoldable pub create_share : NewShare → Action FileShareView
  unfolding insert_share
  create_share p = do
    row ← map_errors as_duplicate λ w. sql e (insert_share p (e.new_uuid w.steps)) w
    or_raise row db_failed

  unfoldable pub get_share : ℕ → Action (Option FileShareView)
  unfolding join_views
  get_share id = query e λ t d. first (join_views d (select (λ s. s.id == id) d.shares))

  unfoldable pub list_shared_with_user : ℕ → Action (List FileShareView)
  unfolding join_views order_desc
  list_shared_with_user recipient = query e λ t d.
      let live =
        λ (s : FileShare). exists_row (λ b. b.id == s.blob_id && is_null b.deleted_at) d.blobs in
      join_views d (
        order_desc (λ s. s.created_at)
          (select (λ s. s.recipient_id == recipient && is_active s && live s && is_unexpired t s)
            d.shares))

  unfoldable pub list_shares_for_blob : ℕ → ℕ → Action (List FileShareView)
  unfolding join_views order_desc
  list_shares_for_blob blob_id owner = query e λ t d. join_views d (
      order_desc (λ s. s.created_at)
        (select (λ s. s.blob_id == blob_id && s.owner_id == owner && is_active s) d.shares))

  unfoldable pub revoke_share : ℕ → ℕ → Action ⊤
  revoke_share id owner = do
    done ← exec e λ t d.
        let here = λ (s : FileShare). s.id == id && s.owner_id == owner && is_active s in
        (
          exists_row here d.shares,
          record d { shares = update here (λ s. record s { revoked_at = some t }) d.shares },
        )
    if done then pure tt else raise not_found
