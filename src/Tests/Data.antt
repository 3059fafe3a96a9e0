-- ===== src/Tests/Data.antt =====
-- Accounts, sessions and stand-ins for what the program calls, for the tests.
use kubby.Prelude.{
  ℕ, zero, suc, ◌+◌, String, true, ◌&&◌, Option, none, some, [], ◌∷◌, ◌++◌, map, leb, ◌==◌,
  if◌then◌else◌, length, drop, codes, text_eq,
}
use kubby.Rbac.{Role}
use kubby.Rbac
use kubby.Crypto.{Aead, Bytes, Randomness}
use kubby.Store.Models.{User, Session, RecoveryCode}
use kubby.Store.Db.{Db}
use kubby.Auth.Policy.{Unicode}
use kubby.Auth.Service.Types.{Primitives, Settings, Draw}

abbrev pub account : ℕ → Role → User
account id role = record {
  id = id;
  email = b'a' ∷ b'@' ∷ id ∷ [];
  display_name = codes "Some Body";
  provider = "local";
  external_id = none;
  password_hash = "secret";
  role = role;
  totp_secret_enc = none;
  totp_confirmed_at = none;
  is_active = true;
  failed_login_count = 0;
  locked_until = none;
  lockout_count = 0;
  blocked_at = none;
  last_login_at = none;
  created_at = id;
  updated_at = id;
}

abbrev pub root : User
root = account 1 Rbac.admin

abbrev pub guest : User
guest = account 2 Rbac.user

abbrev pub session : ℕ → ℕ → String → Session
session id user_id hash = record {
  id = id;
  user_id = user_id;
  refresh_token_hash = hash;
  ip_address = none;
  user_agent = [];
  mfa_satisfied = true;
  created_at = 0;
  last_seen_at = 0;
  expires_at = 100;
  revoked_at = none;
}

abbrev pub code_row : RecoveryCode
code_row = record { id = 9; user_id = 2; code_hash = "code"; used_at = none }

abbrev pub db : Db
db = record {
  users = root ∷ guest ∷ [];
  sessions = session 7 2 "token" ∷ session 8 2 "other" ∷ [];
  codes = code_row ∷ [];
  clusters = [];
  credentials = [];
  grants = [];
  events = [];
  settings = [];
  secrets = [];
  faults = [];
}

-- A cipher that only marks a text with the length of its additional data.
abbrev open_marked : Bytes → ℕ → Option Bytes
open_marked [] n = none
open_marked (c ∷ cs) n = if c == n then some (drop 15 cs) else none

abbrev pub zeros : ℕ → Bytes
zeros zero = []
zeros (suc n) = 0 ∷ zeros n

abbrev pub gcm : Aead
gcm = record {
  seal = λ key nonce plaintext aad. length aad ∷ (zeros 15 ++ plaintext);
  open_text = λ key nonce ciphertext aad. open_marked ciphertext (length aad);
}

abbrev pub randomness : Randomness
randomness = record {
  dek = some (zeros 32);
  dek_nonce = some (zeros 12);
  payload_nonce = some (zeros 12);
}

abbrev pub ascii : Unicode
ascii = record {
  is_upper = λ c. leb b'A' c && leb c b'Z';
  is_lower = λ c. leb b'a' c && leb c b'z';
  is_digit = λ c. leb b'0' c && leb c b'9';
  is_punct = λ c. c == b'-';
  is_symbol = λ c. c == b'+';
  to_lower = map (λ c. if leb b'A' c && leb c b'Z' then c + 32 else c);
}

abbrev pub primitives : Primitives
primitives = record {
  hash_token = λ token. token;
  verify_password = λ password hash. text_eq password (codes hash);
  lower = λ s. s;
  validate_totp = λ code secret now. text_eq code secret;
  gcm = gcm;
  unicode = ascii;
  id_bytes = λ id. id ∷ [];
}

abbrev pub settings : Settings
settings = record {
  refresh_ttl = 50;
  login_max_attempts = 2;
  lockout_durations = 5 ∷ [];
  max_lockouts = 2;
  require_mfa_for_admin = true;
}

abbrev pub at_time : ℕ → Draw
at_time now = record {
  now = now;
  db_now = now;
  new_id = 20;
  new_token = some "fresh";
  password_hash = some "hashed";
  recovery_codes = none;
  randomness = randomness;
}
