-- ===== src/Store/Answers.antt =====
-- What the object store has answered when a call of it returns, and that the tables stay.
use cloud_zero_knowledge_sto.Base.{not-false, ℕ, true, not, some, List, Text, ◌≡◌, ◌∙◌}
use cloud_zero_knowledge_sto.Store.Rows.{Db}
use cloud_zero_knowledge_sto.Store.Effects.{Env, UploadedPart}
use cloud_zero_knowledge_sto.Store.Objects.{
  presigned_get_object, remove_object, stat_object, complete_multipart_object,
  abort_multipart_upload,
}
use cloud_zero_knowledge_sto.Store.Ends.{
  Ends, Ends-mono, Ends-bind, Ends-or_raise, Ends-raise_if, Ends-ask,
}

module _ (e : Env) {P : Db → Type 0} where
  pub presigned_get_lem :
      (key : Text) (R : Db → Type 0)
      → ((d : Db) → P d → R d)
      → Ends P
          (presigned_get_object e key)
          (λ url d. ((n : ℕ) × (e.presigned_get_object n key ≡ some url)) × P d)
          R
  unfolding presigned_get_object
  presigned_get_lem key R h = Ends-bind _ _ _ _ R (Ends-ask e _ _ R) λ answer.
      Ends-mono _ _ _ _ R (Ends-or_raise answer _ R (λ d x. h d x.1))
        (λ url d (got, ((n, eq), p)). ((n, eq ∙ got), p)) (λ d r. r)

  pub complete_object_lem :
      (key id : Text) (parts : List UploadedPart) (R : Db → Type 0)
      → ((d : Db) → P d → R d)
      → Ends P
          (complete_multipart_object e key id parts)
          (λ _ d. ((n : ℕ) × (e.complete_ok n key id parts ≡ true)) × P d)
          R
  unfolding complete_multipart_object
  complete_object_lem key id parts R h = Ends-bind _ _ _ _ R (Ends-ask e _ _ R) λ done.
      Ends-mono _ _ _ _ R (Ends-raise_if (not done) _ R (λ d x. h d x.1))
        (λ _ d (sure, ((n, eq), p)). ((n, eq ∙ not-false done sure), p)) (λ d r. r)

  pub stat_object_lem :
      (key : Text) (R : Db → Type 0)
      → ((d : Db) → P d → R d)
      → Ends P
          (stat_object e key)
          (λ size d. ((n : ℕ) × (e.stat_object_size n key ≡ some size)) × P d)
          R
  unfolding stat_object
  stat_object_lem key R h = Ends-bind _ _ _ _ R (Ends-ask e _ _ R) λ answer.
      Ends-mono _ _ _ _ R (Ends-or_raise answer _ R (λ d x. h d x.1))
        (λ size d (got, ((n, eq), p)). ((n, eq ∙ got), p)) (λ d r. r)

  pub remove_object_lem :
      (key : Text) (R : Db → Type 0)
      → ((d : Db) → P d → R d)
      → Ends P (remove_object e key) (λ _ d. ((n : ℕ) × (e.remove_object_ok n key ≡ true)) × P d) R
  unfolding remove_object
  remove_object_lem key R h = Ends-bind _ _ _ _ R (Ends-ask e _ _ R) λ done.
      Ends-mono _ _ _ _ R (Ends-raise_if (not done) _ R (λ d x. h d x.1))
        (λ _ d (sure, ((n, eq), p)). ((n, eq ∙ not-false done sure), p)) (λ d r. r)

  pub abort_multipart_lem :
      (key id : Text) (R : Db → Type 0)
      → ((d : Db) → P d → R d)
      → Ends P
          (abort_multipart_upload e key id)
          (λ _ d. ((n : ℕ) × (e.abort_ok n key id ≡ true)) × P d)
          R
  unfolding abort_multipart_upload
  abort_multipart_lem key id R h = Ends-bind _ _ _ _ R (Ends-ask e _ _ R) λ done.
      Ends-mono _ _ _ _ R (Ends-raise_if (not done) _ R (λ d x. h d x.1))
        (λ _ d (sure, ((n, eq), p)). ((n, eq ∙ not-false done sure), p)) (λ d r. r)
