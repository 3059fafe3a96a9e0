-- ===== src/Auth/Service/SecondFactor.antt =====
-- server/internal/auth/service.go: enrolling, confirming and presenting a second factor.
use kubby.Prelude.{
  ℕ, zero, suc, String, Bool, ◌&&◌, not, Option, none, some, List, [], ◌∷◌, map, if◌then◌else◌,
  codes, Text,
}
use kubby.Rbac.{requires_mfa}
use kubby.Crypto
use kubby.Crypto.{Keyring, seal, open_blob}
use kubby.Store.Models.{User, Session, Uuid, Bytes, RecoveryCode, has_mfa, is_present}
use kubby.Store.Users
use kubby.Store.Sessions
use kubby.Store.Codes
use kubby.Auth.Totp.{match_recovery_code, verify_totp}
use kubby.Auth.Service.Types.{
  Primitives, Settings, Draw, Auth, mfa_required, invalid_totp, invalid_recovery_code, bad_secret,
  pure, fail, ◌>>=◌, ◌>>◌, call, call_or,
}
use kubby.Auth.Service.Login.{drawn}

unfoldable pub mfa_enrolment_pending : Settings → User → Bool
mfa_enrolment_pending settings user =
    not (has_mfa user) && requires_mfa user.role settings.require_mfa_for_admin

abbrev pub stored : Option Bytes → Bytes
stored none = []
stored (some bytes) = bytes

abbrev opened : Crypto.Result Bytes → Auth Text
opened (Crypto.ok plaintext) = pure plaintext
opened (Crypto.err e) = fail bad_secret

abbrev sealed : Crypto.Result Bytes → Auth Bytes
sealed (Crypto.ok blob) = pure blob
sealed (Crypto.err e) = fail bad_secret

-- The row at a position of the two slices that `UnusedHashes` returns.
abbrev pub row_at : List RecoveryCode → ℕ → Option RecoveryCode
row_at [] i = none
row_at (c ∷ cs) zero = some c
row_at (c ∷ cs) (suc i) = row_at cs i

abbrev pub code_hash_of : RecoveryCode → String
code_hash_of c = c.code_hash

module _ (x : Primitives) (k : Keyring) (d : Draw) where
  unfoldable pub decrypt_totp_secret : User → Auth Text
  decrypt_totp_secret user =
      if not (is_present user.totp_secret_enc)
      then fail mfa_required
      else opened (open_blob x.gcm k (stored user.totp_secret_enc) (x.id_bytes user.id))

  abbrev check_code : Text → Text → Auth (Unit {0})
  check_code code secret =
      if verify_totp x.validate_totp code secret d.now then pure tt else fail invalid_totp

  -- The two writes that end a second factor.
  abbrev pub satisfy : Session → User → Auth (Unit {0})
  satisfy session user = do
    call (Sessions.mark_mfa_satisfied session.id)
    call (Users.record_successful_login user.id d.db_now)

  unfoldable pub complete_mfa : Session → User → Text → Auth (Unit {0})
  unfolding decrypt_totp_secret
  complete_mfa session user code =
      if not (has_mfa user)
      then fail mfa_required
      else do secret ← decrypt_totp_secret user; check_code code secret; satisfy session user

  abbrev consume_matched : Session → User → Option RecoveryCode → Auth (Unit {0})
  consume_matched session user none = fail invalid_recovery_code
  consume_matched session user (some c) = do
    call_or (λ e. invalid_recovery_code) (Codes.consume c.id d.db_now)
    satisfy session user

  abbrev at_match : List RecoveryCode → Option ℕ → Option RecoveryCode
  at_match rows none = none
  at_match rows (some i) = row_at rows i

  unfoldable pub complete_mfa_with_recovery_code : Session → User → Text → Auth (Unit {0})
  complete_mfa_with_recovery_code session user code = do
    rows ← call (Codes.unused_hashes user.id)
    let index = match_recovery_code x.unicode x.verify_password code (map code_hash_of rows)
    consume_matched session user (at_match rows index)

  -- `secret` is what the library generates, none where it fails. The sealed secret is bound to
  -- the account's id.
  unfoldable pub enroll_totp : Option Text → User → Auth Text
  enroll_totp generated user = do
    secret ← drawn generated
    blob ← sealed (seal x.gcm k d.randomness secret (x.id_bytes user.id))
    call (Users.set_totp_secret user.id blob d.db_now)
    pure secret

  abbrev satisfy_pending : Option Session → User → Auth (Unit {0})
  satisfy_pending none user = pure tt
  satisfy_pending (some session) user =
      if session.mfa_satisfied then pure tt else satisfy session user

  abbrev shown : List Text × List (Uuid × String) → List Text
  shown (codes, rows) = codes

  abbrev hashed : List Text × List (Uuid × String) → List (Uuid × String)
  hashed (codes, rows) = rows

  unfoldable pub confirm_totp : Option Session → User → Text → Auth (List Text)
  unfolding decrypt_totp_secret
  confirm_totp session user code = do
    secret ← decrypt_totp_secret user
    check_code code secret
    recovery ← drawn d.recovery_codes
    call (Codes.replace user.id (hashed recovery))
    call (Users.confirm_totp user.id d.db_now)
    satisfy_pending session user
    pure (shown recovery)
