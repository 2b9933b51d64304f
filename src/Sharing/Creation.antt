-- ===== src/Sharing/Creation.antt =====
-- What `CreateShare` of internal/usecase/sharing/service.go has checked and written when it
-- returns.
use mathlib.Core.Option
use cloud_zero_knowledge_sto.Base.{
  not-false, ℕ, Bool, true, false, ◌&&◌, ◌||◌, Option, none, some, List, [], ◌∷◌, ◌++◌, Text, ◌≡◌,
  refl, sym, ap, ◌∙◌, arith, ◌==◌, ==_iff, text_eq, is_empty, select, first, exists_row, Bool-cases,
  inl, inr,
}
use cloud_zero_knowledge_sto.Store.{Blob, FileShare, User, Db, Env, World}
use cloud_zero_knowledge_sto.Store.Ends.{
  Outcome, Outcome-mono, Ends, Ends-mono, Ends-given, Ends-bind, Ends-pure, Ends-raise,
  Ends-raise_if, Ends-query, Ends-on_row, Ends-sql, Ends-or_raise_when, Ends-map_errors,
}
use cloud_zero_knowledge_sto.Shares.{
  FileShareView, NewShare, new_share, same_grant, view_of, insert_share, as_duplicate, to_info,
  get_public_key_by_email, get_blob_info, create_share,
}
use cloud_zero_knowledge_sto.Sharing.{CreateShareParams, owns, normal_email, share_file}
use cloud_zero_knowledge_sto.Sharing.Access.{live_blob}

abbrev pub user_at : Text → Db → Option User
user_at email d = first (select (λ u. text_eq u.email email) d.users)

-- What holds when a file was shared at the tables `d₀`.
pub record IsShared (e : Env) (p : CreateShareParams) (d₀ d : Db) : Type 0 where
  pub row : Blob
  pub not_trashed : live_blob p.blob_id d₀ ≡ some row
  pub owned : row.user_id ≡ p.owner_id
  pub recipient : User
  pub found : user_at (normal_email e p.recipient_email) d₀ ≡ some recipient
  pub has_key : is_empty recipient.public_key ≡ false
  pub not_self : (recipient.id == p.owner_id) ≡ false
  pub fresh : exists_row (same_grant p.blob_id recipient.id) d₀.shares ≡ false
  pub granted :
      (id : ℕ) × (t : ℕ) × (d ≡ record d₀ {
        shares =
            d₀.shares
            ++ record {
              id = id;
              blob_id = p.blob_id;
              owner_id = p.owner_id;
              recipient_id = recipient.id;
              ephemeral_pub = p.ephemeral_pub;
              wrapped_file_key = p.wrapped_file_key;
              expires_at = p.expires_at;
              revoked_at = none;
              created_at = t;
            }
              ∷ [];
      })

-- A share whose keys are good shows in the joins.
exists-first :
    {A : Type 0} (p : A → Bool) (rows : List A)
    → exists_row p rows ≡ true
    → (a : A) × (first (select p rows) ≡ some a)
exists-first p [] h = cc
exists-first p (x ∷ rows) h = elim (Bool-cases (p x)) [
  | inl hit ↦ (x, rw hit refl)
  | inr miss ↦ let (a, eq) = exists-first p rows (rw miss at h) in (a, rw miss eq)
]

view_some :
    (s : FileShare) (b : Option Blob) (o r : Option User)
    → (x : Blob) × (b ≡ some x)
    → (x : User) × (o ≡ some x)
    → (x : User) × (r ≡ some x)
    → (v : FileShareView) × (view_of s b o r ≡ some v)
view_some s b o r (x, eb) (y, eo) (z, er) = rw (eb, eo, er) (_, refl)

abbrev with_share : FileShare → Db → Db
with_share s d = record d { shares = d.shares ++ s ∷ [] }

-- What the `INSERT` does.
abbrev InsertedBy : NewShare → ℕ → ℕ → Db → Option FileShareView → Db → Type 0
InsertedBy p id t d row d' =
    ((v : FileShareView) × (row ≡ some v))
    × (exists_row (same_grant p.blob_id p.recipient_id) d.shares ≡ false)
    × (d' ≡ with_share (new_share p id t) d)

or_false : (x y : Bool) → (x || y) ≡ false → y ≡ false
or_false x y h = ground arith

three_true : (x y z : Bool) → (x && y && z) ≡ true → (x ≡ true) × (y ≡ true) × (z ≡ true)
three_true x y z h = ground arith

insert_cases :
    (p : NewShare) (id t : ℕ) (d : Db)
    → Outcome
        (insert_share p id t d).0
        (λ row. InsertedBy p id t d row (insert_share p id t d).1)
        ((insert_share p id t d).1 ≡ d)
unfolding insert_share
insert_cases p id t d =
    let taken =
      exists_row (λ s. s.id == id) d.shares
      || exists_row (same_grant p.blob_id p.recipient_id) d.shares in
    let keys =
      exists_row (λ b. b.id == p.blob_id) d.blobs
      && exists_row (λ u. u.id == p.owner_id) d.users
      && exists_row (λ u. u.id == p.recipient_id) d.users in
    elim (Bool-cases taken) [
      | inl clash ↦ rw clash refl
      | inr free ↦ elim (Bool-cases keys) [
        | inr dangling ↦ rw (free, dangling) refl
        | inl good ↦
            let (hb, ho, hr) = three_true _ _ _ good in
            rw (free, good)
              (
                view_some (new_share p id t) _ _ _ (exists-first _ d.blobs hb)
                    (exists-first _ d.users ho) (exists-first _ d.users hr),
                or_false _ _ free,
                refl,
              )
      ]
    ]

no_row :
    (row : Option FileShareView)
    → row ≡ none
    → (v : FileShareView) → row ≡ some v
    → (Y : Type 0) → Y
no_row row gone v there Y = cc

module _ (e : Env) (d₀ : Db) where
  abbrev Same : Db → Type 0
  Same d = d ≡ d₀

  create_share_lem :
      (p : NewShare)
      → Ends Same
          (create_share e p)
          (λ _ d.
            (exists_row (same_grant p.blob_id p.recipient_id) d₀.shares ≡ false)
            × ((id : ℕ) × (t : ℕ) × (d ≡ with_share (new_share p id t) d₀)))
          Same
  unfolding create_share
  create_share_lem p =
      Ends-bind _ _ (λ row d. (id : ℕ) × (t : ℕ) × InsertedBy p id t d₀ row d) _ Same
        (Ends-map_errors as_duplicate _ _ Same (record {
          at = λ w h.
              (Ends-sql e (insert_share p (e.new_uuid w.steps))
                  (λ row d. (id : ℕ) × (t : ℕ) × InsertedBy p id t d₀ row d) Same (λ d h. h)
                  (λ t d h. rw h (
                    Outcome-mono (insert_share p (e.new_uuid w.steps) t d₀).0 _ _ _ _
                      (λ row i. (e.new_uuid w.steps, t, i)) (λ same. same)
                      (insert_cases p (e.new_uuid w.steps) t d₀)))).at
                w h;
        }))
        λ row.
          Ends-mono _ _ _ Same Same
            (Ends-or_raise_when row _ Same (λ gone d h. no_row row gone h.2.0.0 h.2.0.1 _))
            (λ _ d (_, (id, t, i)). (i.1, (id, t, i.2))) (λ d h. h)

  key_lem :
      (email : Text)
      → Ends Same
          (get_public_key_by_email e email)
          (λ r d.
            ((u : User) × (user_at email d₀ ≡ some u)
              × (is_empty u.public_key ≡ false)
              × (u.id ≡ r.1))
            × (d ≡ d₀))
          Same
  unfolding get_public_key_by_email
  key_lem email =
      Ends-bind _ _ (λ found d. (found ≡ user_at email d₀) × (d ≡ d₀)) _ Same
        (Ends-query e _ _ Same (λ d h. h) (λ t d h. (ap (user_at email) h, h)))
        λ found. Ends-given _ _ _ Same λ read.
          Ends-on_row found _ _ _ Same (λ _. Ends-raise _ _ Same (λ d h. h))
            λ u got. elim (Bool-cases (is_empty u.public_key)) [
              | inl bare ↦ rw bare (Ends-raise _ _ Same (λ d h. h))
              | inr keyed ↦
                  rw keyed (Ends-pure _ _ Same λ d h. ((u, sym read ∙ got, keyed, refl), h))
            ]

  owner_lem :
      (owner : ℕ) (o : Option Blob)
      → owns owner (Option.map to_info o) ≡ true
      → (b : Blob) × (o ≡ some b) × (b.user_id ≡ owner)
  owner_lem owner none h = cc
  owner_lem owner (some b) h = (b, refl, (==_iff b.user_id owner).0 h)

  share_file_lem : (p : CreateShareParams) → Ends Same (share_file e p) (λ _. IsShared e p d₀) Same
  unfolding share_file get_blob_info
  share_file_lem p =
      Ends-bind _ _ (λ found d. (found ≡ Option.map to_info (live_blob p.blob_id d₀)) × (d ≡ d₀)) _
        Same
        (Ends-query e _ _ Same (λ d h. h)
          (λ t d h. (ap (λ x. Option.map to_info (live_blob p.blob_id x)) h, h)))
        λ found. Ends-bind _ _ _ _ Same (Ends-raise_if _ _ Same (λ d h. h.1)) λ _.
          Ends-given _ _ _ Same λ mine. Ends-given _ _ _ Same λ read.
            let owned : owns p.owner_id (Option.map to_info (live_blob p.blob_id d₀)) ≡ true =
              ap (owns p.owner_id) (sym read) ∙ not-false _ mine in
            let (b, live, by) = owner_lem p.owner_id (live_blob p.blob_id d₀) owned in
            Ends-bind _ _ _ _ Same (key_lem (normal_email e p.recipient_email)) λ r.
              Ends-given _ _ _ Same λ (u, at, keyed, same_id).
                Ends-bind _ _ _ _ Same (Ends-raise_if (r.1 == p.owner_id) _ Same (λ d h. h)) λ _.
                  Ends-given _ _ _ Same λ not_self.
                    Ends-mono _ _ _ Same Same (create_share_lem _)
                      (λ _ d (fresh, made). record {
                        row = b;
                        not_trashed = live;
                        owned = by;
                        recipient = u;
                        found = at;
                        has_key = keyed;
                        not_self = rw same_id not_self;
                        fresh = rw same_id fresh;
                        granted = rw same_id made;
                      })
                      (λ d h. h)

-- `CreateShare` either fails and leaves every table as it was, or: the file was not in the trash
-- and its owner the caller, the address was that of another user who has a public key and had no
-- share of the file in force, and the table has one share more, not revoked, with the given keys
-- and time.
pub share_file-IsShared :
    (e : Env) (p : CreateShareParams) (w : World)
    → Outcome
        (share_file e p w).0
        (λ _. IsShared e p w.db (share_file e p w).1.db)
        ((share_file e p w).1.db ≡ w.db)
share_file-IsShared e p w = (share_file_lem e w.db p).at w refl
