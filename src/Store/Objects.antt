-- ===== src/Store/Objects.antt =====
-- The interface ObjectStore of internal/usecase/storage/service.go: each method is one call, kept
-- in the world's record, and its answer is the environment's.
use cloud_zero_knowledge_sto.Base.{ℕ, not, List, Text, ⊤}
use cloud_zero_knowledge_sto.Store.Effects.{
  Env, Action, object_failed, presign_get, remove, stat, create_multipart, presign_part,
  complete_multipart, abort_multipart, UploadedPart, pure, ◌>>=◌, or_raise, raise_if, attempt, ask,
}

-- `_ = m`
unfoldable pub ignore_error : {A : Type 0} → Action A → Action ⊤
ignore_error m = attempt m λ _. pure tt

module _ (e : Env) where
  unfoldable pub presigned_get_object : Text → Action Text
  presigned_get_object key = do
    answer ← ask e (presign_get key) λ n. e.presigned_get_object n key
    or_raise answer object_failed

  unfoldable pub remove_object : Text → Action ⊤
  remove_object key = do
    done ← ask e (remove key) λ n. e.remove_object_ok n key
    raise_if (not done) object_failed

  unfoldable pub stat_object : Text → Action ℕ
  stat_object key = do
    answer ← ask e (stat key) λ n. e.stat_object_size n key
    or_raise answer object_failed

  unfoldable pub new_multipart_upload : Text → Action Text
  new_multipart_upload key = do
    answer ← ask e (create_multipart key) λ n. e.new_upload_id n key
    or_raise answer object_failed

  unfoldable pub presign_upload_part : Text → Text → ℕ → Action Text
  presign_upload_part key upload_id part = do
    answer ← ask e (presign_part key upload_id part) λ n. e.presigned_part n key upload_id part
    or_raise answer object_failed

  unfoldable pub complete_multipart_object : Text → Text → List UploadedPart → Action ⊤
  complete_multipart_object key upload_id parts = do
    done ← ask e (complete_multipart key upload_id) λ n. e.complete_ok n key upload_id parts
    raise_if (not done) object_failed

  unfoldable pub abort_multipart_upload : Text → Text → Action ⊤
  abort_multipart_upload key upload_id = do
    done ← ask e (abort_multipart key upload_id) λ n. e.abort_ok n key upload_id
    raise_if (not done) object_failed

-- Opens every call, for a test that runs an operation.
unfoldable pub calling : ⊤
unfolding ignore_error presigned_get_object remove_object stat_object new_multipart_upload
    presign_upload_part complete_multipart_object abort_multipart_upload
calling = tt
