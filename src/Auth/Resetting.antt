-- ===== src/Auth/Resetting.antt =====
-- What ResetPassword of internal/usecase/auth/service.go leaves, where the database answers.
use mathlib.Core.Option
use cloud_zero_knowledge_sto.Base.{
  ℕ, false, ◌&&◌, Option, none, some, List, Text, ◌≡◌, refl, sym, ap, subst, arith, ◌==◌, is_null,
  length, first, select, update, updated, exists_row, first-updated, update-none, exists-update_but,
  Bool-cases, inl, inr,
}
use cloud_zero_knowledge_sto.Store.{
  DeviceSession, RefreshSession, PasswordResetToken, Db, Redis, Env, World, command, or_raise,
  reset_token_invalid, ignore_error, ◌>>=◌,
}
use cloud_zero_knowledge_sto.Store.Keeps.{Keeps, Keeps-command, keeps_rules}
use cloud_zero_knowledge_sto.Store.Ends.{
  Outcome, Ends, Ends-bind, Ends-pure, Ends-attempt_split, Ends-keep, Ends-ask, Ends-mono,
}
use cloud_zero_knowledge_sto.Store.Steps.{Ends-or_raise_then}
use cloud_zero_knowledge_sto.Store.Answering.{Ends-exec_then_up, Ends-never}
use cloud_zero_knowledge_sto.Sessions.{
  nil_uuid, is_active_device, is_other_session, is_other_token, revoke_device, revoke_token,
  revoke_other_sessions,
}
use cloud_zero_knowledge_sto.Sessions.Ending.{revoke_other_sessions_ends}
use cloud_zero_knowledge_sto.Users.{
  ResetPasswordParams, is_usable, use_token, with_credentials, consume_reset_token,
  update_credentials_and_kek,
}
use cloud_zero_knowledge_sto.Blocklist.{block_batch}
use cloud_zero_knowledge_sto.Auth.Models.{AuthSettings}
use cloud_zero_knowledge_sto.Auth.Pairs.{refresh_token_hash, block_revoked}
use cloud_zero_knowledge_sto.Auth.Resets.{renew_credentials, reset_password}

-- The token was usable and is used, its user has the new credentials, and no device session and no
-- refresh session of the user is active.
pub record IsReset (hash : List ℕ) (p : ResetPasswordParams) (before after : Db) : Type 0 where
  pub t : ℕ
  pub token : PasswordResetToken
  pub usable : first (select (is_usable hash t) before.reset_tokens) ≡ some token
  pub used : after.reset_tokens ≡ update (is_usable hash t) (use_token t) before.reset_tokens
  pub users : after.users ≡ update (λ u. u.id == token.user_id) (with_credentials p) before.users
  pub no_device :
      exists_row (λ s. s.user_id == token.user_id && is_active_device s) after.device_sessions
      ≡ false
  pub no_session :
      exists_row (λ r. r.user_id == token.user_id && is_null r.revoked_at) after.refresh_sessions
      ≡ false

devices_gone :
    (user t : ℕ) (rows : List DeviceSession)
    → exists_row (λ s. s.id == nil_uuid) rows ≡ false
    → exists_row
        (λ s. s.user_id == user && is_active_device s)
        (update (is_other_session user nil_uuid) (revoke_device t) rows)
      ≡ false
devices_gone user t rows h =
    exists-update_but (λ s. s.user_id == user && is_active_device s)
      (is_other_session user nil_uuid) (λ s. s.id == nil_uuid) (revoke_device t)
      (λ a x y. ground arith) (λ a x. ground arith) rows h

tokens_gone :
    (user t : ℕ) (rows : List RefreshSession)
    → exists_row (λ r. r.device_session_id == nil_uuid) rows ≡ false
    → exists_row
        (λ r. r.user_id == user && is_null r.revoked_at)
        (update (is_other_token user nil_uuid) (revoke_token t) rows)
      ≡ false
tokens_gone user t rows h =
    exists-update_but (λ r. r.user_id == user && is_null r.revoked_at)
      (is_other_token user nil_uuid) (λ r. r.device_session_id == nil_uuid) (revoke_token t)
      (λ a x y. ground arith) (λ a x. ground arith) rows h

module _ (e : Env) (s : AuthSettings) (hash : List ℕ) (p : ResetPasswordParams) (d₀ : Db) where
  abbrev Reset : {A : Type 0} → A → Db → Type 0
  Reset _ = IsReset hash p d₀

  command-Keeps : {A : Type 0} (f : ℕ → Redis → A × Redis) → Keeps (IsReset hash p d₀) (command e f)
  command-Keeps f = Keeps-command e f λ t d h. record {
    t = h.t;
    token = h.token;
    usable = h.usable;
    used = h.used;
    users = h.users;
    no_device = h.no_device;
    no_session = h.no_session;
  }

  block_lem : (ids : List ℕ) → Ends (IsReset hash p d₀) (block_revoked e s ids) Reset (λ d. d ≡ d₀)
  unfolding block_revoked block_batch ignore_error
  block_lem ids = elim (Bool-cases (length ids == 0)) [
    | inl none_left ↦ rw none_left (Ends-pure _ _ _ λ d h. h)
    | inr some_left ↦ rw some_left (
        Ends-attempt_split _ _ Reset (IsReset hash p d₀) _ _
          (Ends-keep _ (search (keeps_rules, command-Keeps))) (λ a. Ends-pure _ _ _ λ d h. h)
          (λ x. Ends-pure _ _ _ λ d h. h))
  ]

  module _ (sql_up : (n : ℕ) → e.sql_fails n ≡ false)
      (no_nil_device : exists_row (λ s. s.id == nil_uuid) d₀.device_sessions ≡ false)
      (no_nil_token : exists_row (λ r. r.device_session_id == nil_uuid) d₀.refresh_sessions
        ≡ false) where
    abbrev used_at : ℕ → Db
    used_at t = record d₀ { reset_tokens = update (is_usable hash t) (use_token t) d₀.reset_tokens }

    abbrev renewed_at : ℕ → ℕ → Db
    renewed_at t user = record (used_at t) {
      users = update (λ u. u.id == user) (with_credentials p) d₀.users;
    }

    revoke_lem :
        (t : ℕ) (k : PasswordResetToken)
        → first (select (is_usable hash t) d₀.reset_tokens) ≡ some k
        → Ends
            (λ d. d ≡ renewed_at t k.user_id)
            (revoke_other_sessions e k.user_id nil_uuid)
            Reset
            (λ _. ⊥)
    revoke_lem t k usable =
        Ends-mono _ _ _ _ _
          (revoke_other_sessions_ends e sql_up k.user_id nil_uuid (renewed_at t k.user_id) (λ _. ⊥))
          (λ ids d (t', is). subst (IsReset hash p d₀) (sym is) (record {
            t = t;
            token = k;
            usable = usable;
            used = refl;
            users = refl;
            no_device = devices_gone k.user_id t' d₀.device_sessions no_nil_device;
            no_session = tokens_gone k.user_id t' d₀.refresh_sessions no_nil_token;
          }))
          (λ d h. h)

    renew_lem :
        (t : ℕ) (k : PasswordResetToken)
        → first (select (is_usable hash t) d₀.reset_tokens) ≡ some k
        → Ends (λ d. d ≡ used_at t) (renew_credentials e s p k.user_id) Reset (λ d. d ≡ d₀)
    unfolding renew_credentials update_credentials_and_kek
    renew_lem t k usable = Ends-exec_then_up (used_at t) _ _ e sql_up _ _ λ _.
        Ends-bind _ _ Reset _ _
          (Ends-attempt_split _ _ Reset (λ _. ⊥) _ _ (revoke_lem t k usable) block_lem
            (λ x. Ends-never _ _ _))
          λ _. Ends-mono _ _ _ _ _ (Ends-ask e _ _ _) (λ a d h. h.1) (λ d h. h)

    after_found :
        (t : ℕ) (o : Option PasswordResetToken)
        → first (updated (is_usable hash t) (use_token t) d₀.reset_tokens) ≡ o
        → Ends
            (λ d. d ≡ used_at t)
            (or_raise (Option.map (λ k. k.user_id) o) reset_token_invalid >>= λ user.
              renew_credentials e s p user)
            Reset
            (λ d. d ≡ d₀)
    after_found t none at =
        Ends-or_raise_then _ _ _ _ _ _
          (λ _.
            ap (λ (l : List PasswordResetToken). record d₀ { reset_tokens = l })
              (update-none (is_usable hash t) (use_token t) d₀.reset_tokens at))
          λ user is. absurd (cc)
    after_found t (some x) at =
        let (k, met, made, usable) =
          first-updated (is_usable hash t) (use_token t) d₀.reset_tokens x at in
        Ends-or_raise_then _ _ _ _ _ _ (λ is. absurd (cc))
          λ user is.
            let same : k.user_id ≡ user =
              ground (arith, ap (λ (y : PasswordResetToken). y.user_id) made) in
            rw (← same) (renew_lem t k usable)

-- With a database that answers, and ids that are not the nil one, ResetPassword returns when a row
-- of the token is usable: it is used, the user of the row has the new credentials, and no device
-- session and no refresh session of the user is active; or it fails and changes no table and no key.
pub reset_password-IsReset :
    (e : Env) (s : AuthSettings) (token : Text) (p : ResetPasswordParams) (w : World)
    → ((n : ℕ) → e.sql_fails n ≡ false)
    → exists_row (λ x. x.id == nil_uuid) w.db.device_sessions ≡ false
    → exists_row (λ r. r.device_session_id == nil_uuid) w.db.refresh_sessions ≡ false
    → Outcome
        (reset_password e s token p w).0
        (λ _. IsReset (refresh_token_hash e token) p w.db (reset_password e s token p w).1.db)
        ((reset_password e s token p w).1.db ≡ w.db)
unfolding reset_password consume_reset_token
reset_password-IsReset e s token p w sql_up no_nil_device no_nil_token =
    let hash = refresh_token_hash e token in
    (Ends-exec_then_up w.db (λ _. IsReset hash p w.db) (λ d. d ≡ w.db) e sql_up _ _
        λ t. after_found e s hash p w.db sql_up no_nil_device no_nil_token t _ refl).at
      w refl
