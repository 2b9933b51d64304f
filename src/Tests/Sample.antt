-- ===== src/Tests/Sample.antt =====
-- Sample tables and an environment in which every call succeeds. The id of a test user is 1 or 2.
use cloud_zero_knowledge_sto.Base.{
  if◌then◌else◌, ℕ, ◌+◌, true, false, none, some, List, [], ◌∷◌, ◌==◌, first,
}
use cloud_zero_knowledge_sto.Store.{Blob, Folder, User, Db, Env, World, UploadedPart}

abbrev pub env : Env
env = record {
  sql_fails = λ _. false;
  cte_rounds = 10;
  order_by_name = λ fs. fs;
  now = λ n. 100 + n;
  new_uuid = λ n. 50 + n;
  uuid_text = λ n. n ∷ [];
  to_lower = λ s. s;
  fold_case = λ c. if c == b'A' then b'a' else c;
  inet_text = λ s. some s;
  presigned_get_object = λ _ key. some key;
  remove_object_ok = λ _ _. true;
  stat_object_size = λ _ _. some 7;
  new_upload_id = λ _ _. some (9 ∷ []);
  presigned_part = λ _ _ _ i. some (i ∷ []);
  complete_ok = λ _ _ _ _. true;
  abort_ok = λ _ _ _. true;
  redis_fails = λ _. false;
  mail_ok = λ _. true;
  random_bytes = λ n _. some (n ∷ []);
  parse_uuid = first;
  utf_8 = λ s. s;
  sha_256 = λ bs. bs;
  base_64 = λ bs. bs;
  raw_url_base_64 = λ bs. bs;
  decode_base_64 = λ s. s;
  signed_token = λ c. some (c.issued_at ∷ []);
  verified_claims = λ _. none;
}

-- The same with a database that answers once.
abbrev pub failing_env : Env
failing_env = record env { sql_fails = λ n. n == 1 }

abbrev pub blob : ℕ → ℕ → Blob
blob id user = record {
  id = id;
  user_id = user;
  folder_id = none;
  file_name = id ∷ [];
  content_type = [];
  object_key = user ∷ id ∷ [];
  file_size = 5;
  file_size_plain = 4;
  chunk_size = 4;
  created_at = 3;
  uploaded_at = some 4;
  encrypted_file_key = [];
  upload_id = [];
  deleted_at = none;
}

abbrev pub folder : ℕ → ℕ → Folder
folder id user = record {
  id = id;
  user_id = user;
  parent_id = none;
  name = id ∷ [];
  created_at = 3;
  deleted_at = none;
}

abbrev pub user : ℕ → User
user id = record {
  id = id;
  email = id ∷ [];
  srp_salt = [];
  srp_verifier = [];
  bcrypt_salt = [];
  crypto_salt = [];
  public_key = 1 ∷ [];
  encrypted_private_key = [];
  kek_encrypted_master = [];
  kek_encrypted_recovery = 7 ∷ [];
  recovery_salt = [];
}

-- Blob 20 in folder 10, 21 pending, 22 in the trash, 23 of the other user; folder 11 below 10,
-- folder 12 in the trash with blob 24; blob 20 is shared with user 2.
abbrev pub tables : Db
tables = record {
  blobs =
      record (blob 20 1) { folder_id = some 10 }
      ∷ record (blob 21 1) { uploaded_at = none; upload_id = 9 ∷ [] }
      ∷ record (blob 22 1) { deleted_at = some 6 }
      ∷ blob 23 2
      ∷ record (blob 24 1) { folder_id = some 12; deleted_at = some 6 }
      ∷ [];
  folders =
      folder 10 1
      ∷ record (folder 11 1) { parent_id = some 10 }
      ∷ record (folder 12 1) { deleted_at = some 6 }
      ∷ folder 13 1
      ∷ [];
  shares =
      record {
        id = 30;
        blob_id = 20;
        owner_id = 1;
        recipient_id = 2;
        ephemeral_pub = [];
        wrapped_file_key = [];
        expires_at = some 1000;
        revoked_at = none;
        created_at = 5;
      }
      ∷ [];
  users = user 1 ∷ user 2 ∷ [];
  favorites = [];
  device_sessions = [];
  refresh_sessions = [];
  reset_tokens = [];
  audit_log = [];
  redis = record { blocked_sessions = []; srp_sessions = []; counters = [] };
}

abbrev pub start : World
start = record { db = tables; calls = []; steps = 0 }

abbrev pub parts : List UploadedPart
parts = record { part_number = 1; etag = [] } ∷ []
