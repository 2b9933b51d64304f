-- ===== src/Auth/Issuing.antt =====
-- What the pairs of issueTokenPairForDevice of internal/usecase/auth/service.go leave in
-- refresh_sessions.
use cloud_zero_knowledge_sto.Base.{
  ℕ, false, some, List, [], ◌∷◌, ◌++◌, ◌≡◌, refl, ap, is_empty, exists_row, ◌==◌, ◌||◌, ◌&&◌, ◌+◌,
  inl, inr, Bool-cases,
}
use cloud_zero_knowledge_sto.Store.{RefreshSession, Db, Env, Action, ◌>>=◌}
use cloud_zero_knowledge_sto.Store.Keeps.{Keeps, Keeps-exec, keeps_rules}
use cloud_zero_knowledge_sto.Store.Yields.{
  After, Yields, Yields-bind, Yields-keep, Yields-given, Yields-mono, Yields-pure, Yields-sql,
  Yields-query,
}
use cloud_zero_knowledge_sto.Sessions.{
  RefreshSessionParams, ConsumedSession, holds_token, has_user, new_refresh_session,
  insert_refresh_session, create_refresh_session, update_last_active,
}
use cloud_zero_knowledge_sto.Users.{get_crypto_salt_and_kek_by_user_id}
use cloud_zero_knowledge_sto.Tokens.{issue_access}
use cloud_zero_knowledge_sto.Auth.Models.{TokenPair, AuthSettings}
use cloud_zero_knowledge_sto.Auth.Pairs.{
  refresh_token_hash, new_refresh_token, key_or_new, issue_token_pair_for_device,
}
use cloud_zero_knowledge_sto.Auth.{rotate}

-- The rows of refresh_sessions.
pub record HasTokens (rows : List RefreshSession) (d : Db) : Type 0 where
  pub tokens : d.refresh_sessions ≡ rows

module _ {A B : Type 0} {P : Db → Type 0} where
  pub Yields-after :
      (m : Action A) (f : A → Action B) (Q : B → Db → Type 0)
      → Keeps P m
      → ((a : A) → Yields P (f a) Q)
      → Yields P (m >>= f) Q
  Yields-after m f Q k y = Yields-bind m f _ Q (Yields-keep m k) y

-- A row was added for the device session, with the hash of the token of the pair.
abbrev pub IsIssued : Env → List RefreshSession → ℕ → ℕ → List ℕ → TokenPair → Db → Type 0
IsIssued e rows user device key pair d =
    (p : RefreshSessionParams) × (created_at : ℕ) × (d.refresh_sessions
      ≡ rows ++ new_refresh_session p created_at ∷ [])
    × (p.user_id ≡ user)
    × (p.device_session_id ≡ device)
    × (p.token_hash ≡ refresh_token_hash e pair.refresh_token)
    × (is_empty key ≡ false → p.client_key ≡ key)
    × (pair.device_session_id ≡ device)

insert_yields :
    (p : RefreshSessionParams) (t : ℕ) (rows : List RefreshSession) (d : Db)
    → HasTokens rows d
    → After (insert_refresh_session p t d).0 (λ _.
      (created_at : ℕ) × ((insert_refresh_session p t d).1.refresh_sessions
        ≡ rows ++ new_refresh_session p created_at ∷ []))
unfolding insert_refresh_session
insert_yields p t rows d h =
    elim (Bool-cases
      (exists_row (λ r. r.id == p.session_id || holds_token p.token_hash r) d.refresh_sessions)) [
        | inl taken ↦ rw taken tt
        | inr free ↦
            elim (Bool-cases (
              has_user d p.user_id
              && exists_row (λ s. s.id == p.device_session_id) d.device_sessions)) [
                | inl there ↦
                    rw (free, there) (t, ap (λ l. l ++ new_refresh_session p t ∷ []) h.tokens)
                | inr missing ↦ rw (free, missing) tt
              ]
      ]

module _ (e : Env) (rows : List RefreshSession) where
  token_yields :
      Yields
        (HasTokens rows)
        (new_refresh_token e)
        (λ r d. (r.1 ≡ refresh_token_hash e r.0) × HasTokens rows d)
  unfolding new_refresh_token
  token_yields = Yields-after _ _ _ (search keeps_rules) λ bytes. Yields-pure _ _ λ d h. (refl, h)

  key_yields :
      (key : List ℕ)
      → Yields
          (HasTokens rows)
          (key_or_new e key)
          (λ k d. (is_empty key ≡ false → k ≡ key) × HasTokens rows d)
  unfolding key_or_new
  key_yields key = elim (Bool-cases (is_empty key)) [
    | inl none_given ↦
        rw none_given
          (Yields-mono _ _ _ (Yields-keep _ (search keeps_rules)) λ k d h. ((λ given. cc), h))
    | inr given ↦ rw given (Yields-pure _ _ λ d h. ((λ _. refl), h))
  ]

  issue_access-HasTokens :
      (ttl user device : ℕ) → Keeps (HasTokens rows) (issue_access e ttl user device)
  unfolding issue_access
  issue_access-HasTokens ttl user device = search keeps_rules

  last_active-HasTokens : (device : ℕ) → Keeps (HasTokens rows) (update_last_active e device)
  unfolding update_last_active
  last_active-HasTokens device = Keeps-exec e _ λ t d h. record { tokens = h.tokens }

  module _ (s : AuthSettings) where
    pair_yields :
        (user device : ℕ) (key : List ℕ)
        → Yields
            (HasTokens rows)
            (issue_token_pair_for_device e s user device key)
            (IsIssued e rows user device key)
    unfolding issue_token_pair_for_device create_refresh_session
    pair_yields user device key =
        Yields-after _ _ _ (issue_access-HasTokens s.access_ttl user device) λ access.
          Yields-bind _ _ _ _ token_yields λ token. Yields-given _ _ _ λ hash.
            Yields-bind _ _ _ _ (key_yields key) λ k. Yields-given _ _ _ λ kept.
              Yields-after _ _ _ (search keeps_rules) λ id.
                Yields-after _ _ _ (search keeps_rules) λ now.
                  Yields-bind _ _ _ _
                    (Yields-sql e _
                      (λ _ d.
                        (created_at : ℕ) × (d.refresh_sessions
                          ≡ rows ++ new_refresh_session (params id now token.1 k) created_at ∷ []))
                      (λ t d h. insert_yields (params id now token.1 k) t rows d h))
                    λ _.
                      Yields-pure _ _
                        λ d h. (params id now token.1 k, h.0, h.1, refl, refl, hash, kept, refl)
      where
        params : ℕ → ℕ → List ℕ → List ℕ → RefreshSessionParams
        params id now hash k = record {
          session_id = id;
          user_id = user;
          device_session_id = device;
          token_hash = hash;
          client_key = k;
          expires_at = now + s.refresh_ttl;
        }

    pub rotate_yields :
        (hash : List ℕ) (c : ConsumedSession)
        → Yields
            (HasTokens rows)
            (rotate e s hash (some c))
            (IsIssued e rows c.user_id c.device_session_id c.client_key)
    unfolding rotate get_crypto_salt_and_kek_by_user_id
    rotate_yields hash c = Yields-after _ _ _ (search (keeps_rules, last_active-HasTokens)) λ _.
        Yields-bind _ _ _ _ (pair_yields c.user_id c.device_session_id c.client_key) λ pair.
          Yields-bind _ _ (λ _. IsIssued e rows c.user_id c.device_session_id c.client_key pair) _
            (Yields-query e _ _ λ t d h. h) λ keys. Yields-pure _ _ λ d h. h
