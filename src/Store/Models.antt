-- ===== src/Store/Models.antt =====
-- server/internal/store/models.go: accounts, sessions and audit events, and what is read off them.
--
-- A `time.Time` is a number of nanoseconds since an epoch before every value, a nullable column an
-- `Option`, and a UUID a number. A session row holds the column `refresh_token_hash` as well, which
-- the Go struct leaves out.
use kubby.Prelude.{
  ℕ, ◌-◌, String, Bool, true, false, ◌&&◌, not, Option, none, some, List, [], ◌∷◌, ltb,
  if◌then◌else◌, is_some, Text,
}
use kubby.Rbac.{Role}

abbrev pub Time : Type 0
Time = ℕ

abbrev pub Duration : Type 0
Duration = ℕ

abbrev pub Uuid : Type 0
Uuid = ℕ

abbrev pub Bytes : Type 0
Bytes = List ℕ

pub record User : Type 0 where
  pub id : Uuid
  pub email : Text
  pub display_name : Text
  pub provider : String
  pub external_id : Option String
  pub password_hash : String
  pub role : Role
  pub totp_secret_enc : Option Bytes
  pub totp_confirmed_at : Option Time
  pub is_active : Bool
  pub failed_login_count : ℕ
  pub locked_until : Option Time
  pub lockout_count : ℕ
  pub blocked_at : Option Time
  pub last_login_at : Option Time
  pub created_at : Time
  pub updated_at : Time

-- `len(u.TOTPSecretEnc) > 0`; a NULL column is read as no bytes.
abbrev pub is_present : Option Bytes → Bool
is_present none = false
is_present (some []) = false
is_present (some (b ∷ bs)) = true

unfoldable pub has_mfa : User → Bool
has_mfa u = is_present u.totp_secret_enc && is_some u.totp_confirmed_at

abbrev pub is_after : Option Time → Time → Bool
is_after none now = false
is_after (some t) now = ltb now t

unfoldable pub is_locked : User → Time → Bool
is_locked u now = is_after u.locked_until now

unfoldable pub is_blocked : User → Bool
is_blocked u = is_some u.blocked_at

abbrev until : Option Time → Time → Duration
until none now = 0
until (some t) now = t - now

-- The subtraction is reached only where `locked_until` lies after `now`, so it does not stop at 0.
unfoldable pub lockout_remaining : User → Time → Duration
unfolding is_locked
lockout_remaining u now = if not (is_locked u now) then 0 else until u.locked_until now

pub record Session : Type 0 where
  pub id : Uuid
  pub user_id : Uuid
  pub refresh_token_hash : String
  pub ip_address : Option String
  pub user_agent : Bytes
  pub mfa_satisfied : Bool
  pub created_at : Time
  pub last_seen_at : Time
  pub expires_at : Time
  pub revoked_at : Option Time

unfoldable pub is_valid : Session → Time → Bool
is_valid s now = not (is_some s.revoked_at) && ltb now s.expires_at

pub record RecoveryCode : Type 0 where
  pub id : Uuid
  pub user_id : Uuid
  pub code_hash : String
  pub used_at : Option Time

-- The details are the JSON of the map, and none where it is nil.
pub record AuditEvent : Type 0 where
  pub id : ℕ
  pub occurred_at : Time
  pub actor_id : Option Uuid
  pub actor_email : Text
  pub action : Text
  pub result : Text
  pub cluster_id : Option Uuid
  pub namespace : Text
  pub resource_kind : Text
  pub resource_name : Text
  pub ip_address : Option String
  pub request_id : Text
  pub details : Option Text

-- The rows of `settings` and `setting_secrets` (server/migrations/00005_settings.sql). A value is the JSON
-- as it is stored.
pub record SettingRow : Type 0 where
  pub key : Text
  pub value : Bytes
  pub updated_at : Time
  pub updated_by : Option Uuid

pub record SecretRow : Type 0 where
  pub key : Text
  pub ciphertext : Bytes
  pub key_version : ℕ
  pub updated_at : Time
  pub updated_by : Option Uuid
