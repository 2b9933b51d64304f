-- ===== src/Sharing/Grants.antt =====
-- The shares in force over sequences of requests to internal/usecase/sharing/service.go.
use cloud_zero_knowledge_sto.Base.{
  ℕ, Bool, true, false, ◌&&◌, not, Option, none, some, List, [], ◌∷◌, ◌++◌, Text, ◌≡◌, refl, arith,
  update, exists_row,
}
use cloud_zero_knowledge_sto.Store.{FileShare, Db, Env, World}
use cloud_zero_knowledge_sto.Store.Keeps.{
  Keeps, keeps_rules, Keeps-bind, Keeps-map_errors, Keeps-sql, Keeps-exec, Keeps-or_raise,
}
use cloud_zero_knowledge_sto.Shares.{
  NewShare, new_share, same_grant, is_active, insert_share, as_duplicate, get_public_key_by_email,
  get_blob_info, create_share, get_share, list_shared_with_user, list_shares_for_blob, revoke_share,
}
use cloud_zero_knowledge_sto.Sharing.{
  get_recipient_public_key, share_file, check_expiry, validate_share_access, get_shared_file,
  list_shared_with_me, list_my_shares, revoke_my_share,
}

-- The requests of a user on shares, as the handlers of internal/controller/restapi/v1 pass them on.
pub data ShareRequest : Type 0 where
  looks_up : Text → ShareRequest
  shares : ℕ → Text → List ℕ → List ℕ → Option ℕ → ShareRequest
  opens : ℕ → ShareRequest
  lists_received : ShareRequest
  lists_given : ℕ → ShareRequest
  revokes : ℕ → ShareRequest

-- Whether no two rows in force grant one blob to one recipient.
abbrev pub is_single : List FileShare → Bool
is_single [] = true
is_single (s ∷ ss) =
    not (is_active s && exists_row (same_grant s.blob_id s.recipient_id) ss) && is_single ss

pub record HasSingleGrants (d : Db) : Type 0 where
  pub single : is_single d.shares ≡ true

-- Revoking leaves fewer grants.
exists-revoke :
    (b r t : ℕ) (p : FileShare → Bool) (ss : List FileShare)
    → exists_row (same_grant b r) ss ≡ false
    → exists_row (same_grant b r) (update p (λ s. record s { revoked_at = some t }) ss) ≡ false
exists-revoke b r t p [] h = refl
exists-revoke b r t p (s ∷ ss) h = ground (arith, exists-revoke b r t p ss)

single-revoke :
    (t : ℕ) (p : FileShare → Bool) (ss : List FileShare)
    → is_single ss ≡ true
    → is_single (update p (λ s. record s { revoked_at = some t }) ss) ≡ true
single-revoke t p [] h = refl
single-revoke t p (s ∷ ss) h =
    ground (arith, single-revoke t p ss, exists-revoke s.blob_id s.recipient_id t p ss)

exists-snoc_share :
    (b r : ℕ) (x : FileShare) (ss : List FileShare)
    → exists_row (same_grant b r) ss ≡ false
    → same_grant b r x ≡ false
    → exists_row (same_grant b r) (ss ++ x ∷ []) ≡ false
exists-snoc_share b r x [] h h' = ground arith
exists-snoc_share b r x (s ∷ ss) h h' = ground (arith, exists-snoc_share b r x ss)

single-snoc :
    (x : FileShare) (ss : List FileShare)
    → is_single ss ≡ true
    → exists_row (same_grant x.blob_id x.recipient_id) ss ≡ false
    → is_single (ss ++ x ∷ []) ≡ true
single-snoc x [] h fresh = ground arith
single-snoc x (s ∷ ss) h fresh =
    ground (arith, single-snoc x ss, exists-snoc_share s.blob_id s.recipient_id x ss)

module _ (e : Env) where
  insert-HasSingleGrants :
      (p : NewShare) (id t : ℕ) (d : Db)
      → HasSingleGrants d
      → HasSingleGrants (insert_share p id t d).1
  unfolding insert_share
  insert-HasSingleGrants p id t d h = record {
    single = ground (arith, h.single, single-snoc (new_share p id t) d.shares);
  }

  create_share-Keeps : (p : NewShare) → Keeps HasSingleGrants (create_share e p)
  unfolding create_share
  create_share-Keeps p =
      Keeps-bind _ _
        (Keeps-map_errors as_duplicate _ (record {
          at = λ w h.
              (Keeps-sql e (insert_share p (e.new_uuid w.steps))
                  (insert-HasSingleGrants p (e.new_uuid w.steps))).at
                w h;
        }))
        λ row. Keeps-or_raise row _

  revoke_share-Keeps : (id owner : ℕ) → Keeps HasSingleGrants (revoke_share e id owner)
  unfolding revoke_share
  revoke_share-Keeps id owner =
      Keeps-bind _ _
        (Keeps-exec e _ λ t d h. record { single = single-revoke t _ d.shares h.single })
        λ done. search keeps_rules

  -- One request of the user `u`, whatever it answers.
  unfoldable pub serve_share : ℕ → ShareRequest → World → World
  serve_share u (looks_up email) w = (get_recipient_public_key e email w).1
  serve_share u (shares id email key wrapped until) w =
      (share_file e
        (record {
          blob_id = id;
          owner_id = u;
          recipient_email = email;
          ephemeral_pub = key;
          wrapped_file_key = wrapped;
          expires_at = until;
        })
        w).1
  serve_share u (opens id) w = (get_shared_file e id u w).1
  serve_share u lists_received w = (list_shared_with_me e u w).1
  serve_share u (lists_given id) w = (list_my_shares e id u w).1
  serve_share u (revokes id) w = (revoke_my_share e id u w).1

  unfoldable pub serve_shares : List (ℕ × ShareRequest) → World → World
  unfolding serve_share
  serve_shares [] w = w
  serve_shares ((u, r) ∷ rs) w = serve_shares rs (serve_share u r w)

  check_expiry-Keeps : (o : Option ℕ) → Keeps HasSingleGrants (check_expiry e o)
  check_expiry-Keeps none = search keeps_rules
  check_expiry-Keeps (some x) = search keeps_rules

  get_public_key-Keeps : (email : Text) → Keeps HasSingleGrants (get_public_key_by_email e email)
  unfolding get_public_key_by_email
  get_public_key-Keeps email = search keeps_rules depth 12

  serve_share-HasSingleGrants :
      (u : ℕ) (r : ShareRequest) (w : World)
      → HasSingleGrants w.db
      → HasSingleGrants (serve_share u r w).db
  unfolding serve_share get_recipient_public_key share_file get_shared_file list_shared_with_me
      list_my_shares revoke_my_share get_blob_info get_share list_shared_with_user
      list_shares_for_blob validate_share_access
  serve_share-HasSingleGrants u (looks_up email) w =
      let k : Keeps HasSingleGrants (get_recipient_public_key e email) =
        search (keeps_rules, get_public_key-Keeps) in
      k.at w
  serve_share-HasSingleGrants u (shares id email key wrapped until) w =
      let k : Keeps HasSingleGrants (
          share_file e (record {
            blob_id = id;
            owner_id = u;
            recipient_email = email;
            ephemeral_pub = key;
            wrapped_file_key = wrapped;
            expires_at = until;
          })) =
        search (keeps_rules, get_public_key-Keeps, create_share-Keeps) depth 12 in
      k.at w
  serve_share-HasSingleGrants u (opens id) w =
      let k : Keeps HasSingleGrants (get_shared_file e id u) =
        search (keeps_rules, check_expiry-Keeps) depth 14 in
      k.at w
  serve_share-HasSingleGrants u lists_received w =
      let k : Keeps HasSingleGrants (list_shared_with_me e u) = search keeps_rules in k.at w
  serve_share-HasSingleGrants u (lists_given id) w =
      let k : Keeps HasSingleGrants (list_my_shares e id u) = search keeps_rules in k.at w
  serve_share-HasSingleGrants u (revokes id) w =
      let k : Keeps HasSingleGrants (revoke_my_share e id u) = search revoke_share-Keeps in k.at w

-- Over any sequence of sharing requests of any users, two shares that are not revoked never give
-- one blob to one recipient, if they did not before.
pub serve_shares-HasSingleGrants :
    (e : Env) (rs : List (ℕ × ShareRequest)) (w : World)
    → HasSingleGrants w.db
    → HasSingleGrants (serve_shares e rs w).db
unfolding serve_shares
serve_shares-HasSingleGrants e [] w h = h
serve_shares-HasSingleGrants e ((u, r) ∷ rs) w h =
    serve_shares-HasSingleGrants e rs (serve_share e u r w) (serve_share-HasSingleGrants e u r w h)
