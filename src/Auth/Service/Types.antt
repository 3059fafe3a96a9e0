-- ===== src/Auth/Service/Types.antt =====
-- server/internal/auth/service.go: errors, settings, and what the service takes from outside.
use kubby.Prelude.{
  ℕ, zero, suc, ◌*◌, String, ◌≡◌, refl, ◌⊎◌, inl, inr, Bool, Option, List, [], ◌∷◌, Text,
}
use kubby.Crypto.{Aead, Randomness}
use kubby.Auth.Policy.{Unicode}
use kubby.Store.Models.{Time, Duration, Uuid, Bytes}
use kubby.Store.Db.{Db, Query, Error}
use kubby.Store.Db

pub data LoginError : Type 0 where
  invalid_credentials account_locked account_blocked : LoginError

-- What the sign-in screen needs to explain a refusal.
pub record FailedLogin : Type 0 where
  pub reason : LoginError
  pub attempts_remaining : ℕ
  pub locked_for : Duration
  pub blocked : Bool

pub data AuthError : Type 0 where
  failed_login : FailedLogin → AuthError
  wrong_password account_inactive mfa_required session_invalid setup_complete : AuthError
  invalid_totp invalid_recovery_code weak_password no_randomness bad_secret : AuthError
  store : Error → AuthError

pub data Result (A : Type 0) : Type 0 where
  ok : A → Result A
  err : AuthError → Result A

pub Result-cases :
    {A : Type 0} (r : Result A) → ((a : A) × (r ≡ ok a)) ⊎ ((e : AuthError) × (r ≡ err e))
Result-cases (ok a) = inl (a, refl)
Result-cases (err e) = inr (e, refl)

-- A method of the service: it may change the database, also where it returns an error.
abbrev pub Auth : Type 0 → Type 0
Auth A = Db → Result A × Db

abbrev pub pure : {A : Type 0} → A → Auth A
pure a db = (ok a, db)

abbrev pub fail : {A : Type 0} → AuthError → Auth A
fail e db = (err e, db)

infixl 5 ◌>>=◌ ◌>>◌
abbrev pub ◌>>=◌ : {A B : Type 0} → Auth A → (A → Auth B) → Auth B
◌>>=◌ m f db = let (r, db') = m db in elim r [ ok a ↦ f a db' | err e ↦ (err e, db') ]

abbrev pub ◌>>◌ : {B : Type 0} → Auth Unit → Auth B → Auth B
m >> k = m >>= λ _. k

-- A call of a repository whose error is handled by `on_error`.
abbrev from_store : {A : Type 0} → (Error → AuthError) → Db.Result A → Result A
from_store on_error (Db.ok a) = ok a
from_store on_error (Db.err e) = err (on_error e)

abbrev pub call_or : {A : Type 0} → (Error → AuthError) → Query A → Auth A
call_or on_error q db = let (r, db') = q db in (from_store on_error r, db')

-- `if err != nil { return err }`
abbrev pub call : {A : Type 0} → Query A → Auth A
call q = call_or store q

-- `if errors.Is(err, store.ErrNotFound) { return e }`, and any other error as it is.
abbrev pub not_found_as : AuthError → Error → AuthError
not_found_as e Error.not_found = e
not_found_as e other = store other

-- The lockout durations escalate; the last one repeats.
pub record Settings : Type 0 where
  pub refresh_ttl : Duration
  pub login_max_attempts : ℕ
  pub lockout_durations : List Duration
  pub max_lockouts : ℕ
  pub require_mfa_for_admin : Bool

abbrev minute : Duration
minute = 60000000000

abbrev duration_at : Duration → List Duration → ℕ → Duration
duration_at d [] i = d
duration_at d (x ∷ xs) zero = x
duration_at d (x ∷ xs) (suc i) = duration_at x xs i

unfoldable pub lockout_duration : Settings → ℕ → Duration
lockout_duration s previous_lockouts =
    duration_at (15 * minute) s.lockout_durations previous_lockouts

-- What the service calls and does not implement: SHA-256 in hexadecimal, the argon2id check,
-- PostgreSQL's lower(), the TOTP check, AES-GCM, the tables of unicode, and the text of a UUID.
pub record Primitives : Type 0 where
  pub hash_token : String → String
  pub verify_password : Text → String → Bool
  pub lower : Text → Text
  pub validate_totp : Text → Text → ℕ → Bool
  pub gcm : Aead
  pub unicode : Unicode
  pub id_bytes : Uuid → Bytes

-- What a call draws from outside: the service's clock and the database's, a new row's identity, a
-- fresh token, the hash of the password that is set with its salt, the recovery codes with the rows
-- of their hashes, and the
-- randomness of a seal. `none` is a failed read of the random source. One call reads each clock
-- once here.
pub record Draw : Type 0 where
  pub now : Time
  pub db_now : Time
  pub new_id : Uuid
  pub new_token : Option String
  pub password_hash : Option String
  pub recovery_codes : Option (List Text × List (Uuid × String))
  pub randomness : Randomness
