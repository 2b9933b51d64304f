-- ===== src/Auth/Rotation.antt =====
-- What Refresh of internal/usecase/auth/service.go has done when it returns a token pair.
use mathlib.Core.Option
use cloud_zero_knowledge_sto.Base.{
  ℕ, Bool, false, Option, none, some, List, [], ◌∷◌, ◌++◌, Text, ◌≡◌, refl, sym, ap, ◌∙◌, is_empty,
  first, select, update, updated, first-updated,
}
use cloud_zero_knowledge_sto.Store.{
  RefreshSession, Db, Env, World, Action, Result, ok, err, Error, continue, raise, ◌>>=◌,
}
use cloud_zero_knowledge_sto.Store.Yields.{
  After, Yields, Yields-ok, Yields-bind, Yields-mono, Yields-exec,
}
use cloud_zero_knowledge_sto.Names.{trim_space}
use cloud_zero_knowledge_sto.Sessions.{
  RefreshSessionParams, is_consumable, revoke_token, to_consumed, new_refresh_session,
  consume_refresh_session,
}
use cloud_zero_knowledge_sto.Auth.Models.{TokenPair, AuthSettings}
use cloud_zero_knowledge_sto.Auth.Pairs.{refresh_token_hash}
use cloud_zero_knowledge_sto.Auth.{handle_token_reuse, rotate, refresh}
use cloud_zero_knowledge_sto.Auth.Issuing.{HasTokens, rotate_yields}

-- A row of the token was active and is revoked, and one new row is added: for the user and the
-- device session of the old one, with the hash of the token of the pair, and with the key of the
-- client if there was one.
pub record IsRotated (e : Env) (token : Text) (before : Db) (pair : TokenPair) (after : Db)
    : Type 0 where
  pub t : ℕ
  pub row : RefreshSession
  pub active :
      first (
        select
          (is_consumable (refresh_token_hash e (trim_space token)) t before.device_sessions)
          before.refresh_sessions)
      ≡ some row
  pub p : RefreshSessionParams
  pub created_at : ℕ
  pub tokens :
      after.refresh_sessions
      ≡ update
          (is_consumable (refresh_token_hash e (trim_space token)) t before.device_sessions)
          (revoke_token t)
          before.refresh_sessions
        ++ new_refresh_session p created_at ∷ []
  pub user : p.user_id ≡ row.user_id
  pub device : p.device_session_id ≡ row.device_session_id
  pub hash : p.token_hash ≡ refresh_token_hash e pair.refresh_token
  pub key : is_empty row.client_key ≡ false → p.client_key ≡ row.client_key
  pub pair_device : pair.device_session_id ≡ row.device_session_id

never_after :
    {A B : Type 0} (r : Result A) (x : Error) (w : World) (Q : B → Db → Type 0)
    → After
        (continue {B = B} r (λ _. raise x) w).0
        (λ b. Q b (continue {B = B} r (λ _. raise x) w).1.db)
unfolding raise
never_after (ok a) x w Q = tt
never_after (err _) x w Q = tt

raise_yields :
    {A B : Type 0} {P : Db → Type 0} (m : Action A) (x : Error) (Q : B → Db → Type 0)
    → Yields P (m >>= λ _. raise x) Q
unfolding ◌>>=◌
raise_yields m x Q = record { at = λ w p. never_after (m w).0 x (m w).1 Q }

module _ (e : Env) (s : AuthSettings) (token : Text) (d₀ : Db) where
  abbrev presented : List ℕ
  presented = refresh_token_hash e (trim_space token)

  abbrev here : ℕ → RefreshSession → Bool
  here t = is_consumable presented t d₀.device_sessions

  after_consume :
      (t : ℕ) (o : Option RefreshSession)
      → first (updated (here t) (revoke_token t) d₀.refresh_sessions) ≡ o
      → Yields
          (HasTokens (update (here t) (revoke_token t) d₀.refresh_sessions))
          (rotate e s presented (Option.map to_consumed o))
          (IsRotated e token d₀)
  unfolding rotate
  after_consume t none at = raise_yields (handle_token_reuse e s presented) _ _
  after_consume t (some x) at =
      let (row, met, made, found) =
        first-updated (here t) (revoke_token t) d₀.refresh_sessions x at in
      Yields-mono _ _ _ (rotate_yields e _ s presented (to_consumed x)) λ pair d h. record {
        t = t;
        row = row;
        active = found;
        p = h.0;
        created_at = h.1;
        tokens = h.2;
        user = h.3 ∙ sym (ap (λ (y : RefreshSession). y.user_id) made);
        device = h.4 ∙ sym (ap (λ (y : RefreshSession). y.device_session_id) made);
        hash = h.5;
        key =
            λ given. h.6 (rw (← made) given) ∙ sym (ap (λ (y : RefreshSession). y.client_key) made);
        pair_device = h.7 ∙ sym (ap (λ (y : RefreshSession). y.device_session_id) made);
      }

  refresh_yields : Yields (λ d. d ≡ d₀) (refresh e s token) (IsRotated e token d₀)
  unfolding refresh consume_refresh_session
  refresh_yields =
      Yields-bind _ _
        (λ found d.
          (t : ℕ) × (found
            ≡ Option.map to_consumed
                (first (updated (here t) (revoke_token t) d₀.refresh_sessions)))
          × HasTokens (update (here t) (revoke_token t) d₀.refresh_sessions) d)
        _
        (Yields-exec e _ _ λ t d same. (
          t,
          ap
              (λ (x : Db). Option.map to_consumed (
                first (
                  updated (is_consumable presented t x.device_sessions) (revoke_token t)
                    x.refresh_sessions)))
              same,
          record {
            tokens =
                ap
                  (λ (x : Db).
                    update (is_consumable presented t x.device_sessions) (revoke_token t)
                      x.refresh_sessions)
                  same;
          },
        ))
        λ found. record { at = λ w h. rw h.1 ((after_consume h.0 _ refl).at w h.2) }

-- When Refresh returns a token pair, a row of the presented token was active, of a device session
-- that is not revoked; every such row is revoked, and exactly one row is added: for the same user
-- and device session, with the hash of the new token, and with the client's key kept.
pub refresh-IsRotated :
    (e : Env) (s : AuthSettings) (token : Text) (w : World) (pair : TokenPair)
    → (refresh e s token w).0 ≡ ok pair
    → IsRotated e token w.db pair (refresh e s token w).1.db
refresh-IsRotated e s token w pair returned =
    Yields-ok (refresh_yields e s token w.db) w refl pair returned
