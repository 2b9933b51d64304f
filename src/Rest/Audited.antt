-- ===== src/Rest/Audited.antt =====
-- The trail that trashDeleteBlob of internal/controller/restapi/v1/trash.go leaves.
use cloud_zero_knowledge_sto.Base.{
  ℕ, ◌≤◌, Option, none, some, List, ◌∷◌, Text, ◌≡◌, ◌⊎◌, inl, inr, refl, ap, arith, Bool-cases,
  ◌==◌, text,
}
use cloud_zero_knowledge_sto.Store.{
  AuditEvent, Env, World, Error, not_found, folder_not_found, file_too_large, quota_exceeded,
  Result, ok, err, pure, attempt, on_row, running,
}
use cloud_zero_knowledge_sto.Store.Ends.{Outcome}
use cloud_zero_knowledge_sto.Store.Quiet.{events, Quiet, quiet_rules}
use cloud_zero_knowledge_sto.Blobs.{peek_trashed_blob, hard_delete_blob}
use cloud_zero_knowledge_sto.Files.{hard_delete_file}
use cloud_zero_knowledge_sto.Files.Deletion.{IsDeleted, hard_delete-IsDeleted}
use cloud_zero_knowledge_sto.Sessions.{nil_uuid}
use cloud_zero_knowledge_sto.Middleware.{Response}
use cloud_zero_knowledge_sto.Rest.{
  Request, no_content, storage_error, audit_event, must_user_id, write_error,
}
use cloud_zero_knowledge_sto.Rest.Trash.{logged, trash_delete_blob}

-- The file was deleted for good, and one event was logged that names it.
pub record IsAudited (e : Env) (r : Request) (w : World) (answer : Result Response × World)
    : Type 0 where
  pub user : ℕ
  pub id : ℕ
  pub name : Text
  pub signed_in : r.user_id ≡ some user
  pub asked : e.parse_uuid r.url_param ≡ some id
  pub deleted : IsDeleted e user id w.db name answer.1.db
  pub said : answer.0 ≡ ok no_content
  pub trail :
      events answer.1.calls
      ≡ audit_event user (text "file_hard_deleted") r.real_ip r.user_agent (some id) name
        ∷ events w.calls

-- The answer is an error, no table has changed, and no event was logged.
pub record IsRejected (w : World) (answer : Result Response × World) : Type 0 where
  pub response : Response
  pub said : answer.0 ≡ ok response
  pub failed : 400 ≤ response.status
  pub same : answer.1.db ≡ w.db
  pub silent : events answer.1.calls ≡ events w.calls

error_fails : (x : Error) → 400 ≤ (storage_error x).status
error_fails not_found = omega arith
error_fails folder_not_found = omega arith
error_fails file_too_large = omega arith
error_fails quota_exceeded = omega arith
error_fails _ = omega arith

hard_delete-Quiet : (e : Env) (user id : ℕ) → Quiet (hard_delete_file e user id)
unfolding hard_delete_file peek_trashed_blob hard_delete_blob
hard_delete-Quiet e user id = search quiet_rules

module _ (e : Env) (r : Request) (w : World) where
  abbrev Answered : Result Response × World → Type 0
  Answered answer = IsAudited e r w answer ⊎ IsRejected w answer

  refuse : (response : Response) → 400 ≤ response.status → Answered (pure response w)
  unfolding pure
  refuse response failed =
      inr (record { response = response; said = refl; failed = failed; same = refl; silent = refl })

  logged_lem :
      (user id : ℕ)
      → r.user_id ≡ some user
      → e.parse_uuid r.url_param ≡ some id
      → (answer : Result Text) (v : World)
      → Outcome answer (λ name. IsDeleted e user id w.db name v.db) (v.db ≡ w.db)
      → events v.calls ≡ events w.calls
      → Answered (logged e r user id (text "file_hard_deleted") answer v)
  unfolding running events
  logged_lem user id signed_in asked (err x) v same silent = inr (record {
    response = storage_error x;
    said = refl;
    failed = error_fails x;
    same = same;
    silent = silent;
  })
  logged_lem user id signed_in asked (ok name) v deleted silent = inl (record {
    user = user;
    id = id;
    name = name;
    signed_in = signed_in;
    asked = asked;
    deleted = deleted;
    said = refl;
    trail =
        ap
          (λ (l : List AuditEvent).
            audit_event user (text "file_hard_deleted") r.real_ip r.user_agent (some id) name ∷ l)
          silent;
  })

  user_lem :
      (user : ℕ)
      → r.user_id ≡ some user
      → (o : Option ℕ) → e.parse_uuid r.url_param ≡ o
      → Answered (
          on_row o
            (pure (write_error 400 (text "invalid blob_id")))
            (λ id.
              attempt (hard_delete_file e user id) (logged e r user id (text "file_hard_deleted")))
            w)
  unfolding attempt on_row
  user_lem user signed_in none asked = refuse _ (omega arith)
  user_lem user signed_in (some id) asked =
      logged_lem user id signed_in asked (hard_delete_file e user id w).0
        (hard_delete_file e user id w).1 (hard_delete-IsDeleted e user id w)
        ((hard_delete-Quiet e user id).at w)

  request_lem :
      (o : Option ℕ)
      → r.user_id ≡ o
      → Answered (
          must_user_id o
            (λ user.
              on_row
                (e.parse_uuid r.url_param)
                (pure (write_error 400 (text "invalid blob_id")))
                λ id.
                  attempt
                    (hard_delete_file e user id)
                    (logged e r user id (text "file_hard_deleted")))
            w)
  request_lem none nobody = refuse _ (omega arith)
  request_lem (some user) signed_in = elim (Bool-cases (user == nil_uuid)) [
    | inl nil ↦ rw nil (refuse _ (omega arith))
    | inr known ↦ rw known (user_lem user signed_in (e.parse_uuid r.url_param) refl)
  ]

-- DELETE of a blob in the trash either answers 204, where a user is signed in and the id parses, the
-- user's trashed file was deleted for good, and exactly one event was logged, with the user, the id
-- and the name of the file; or it answers an error, changes no table and logs none.
pub trash_delete_blob-IsAudited :
    (e : Env) (r : Request) (w : World)
    → IsAudited e r w (trash_delete_blob e r w) ⊎ IsRejected w (trash_delete_blob e r w)
unfolding trash_delete_blob
trash_delete_blob-IsAudited e r w = request_lem e r w r.user_id refl
