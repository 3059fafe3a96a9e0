-- ===== src/HttpApi/SignIn.antt =====
-- server/internal/httpapi/auth_handlers.go: setting up, signing in and out, second factors and sessions.
-- The proofs are in HttpApi/SignIn/Attempts.
--
-- A handler yields its reply, what it does to the session cookie, and the audit entries it records. The
-- request is the fields of its body, decoded. The CSRF cookie that goes with a session cookie, the
-- login counters, the JSON of a reply and the list of problems in the reply to a weak password are left
-- out; the reset of the rate limit is in HttpApi/RateLimit.
pub mod Attempts
use kubby.Prelude.{
  ℕ, ◌+◌, ◌/◌, String, Bool, false, not, Option, none, some, List, [], ◌∷◌, map, ◌==◌,
  if◌then◌else◌, Text, is_empty,
}
use kubby.Store.Models.{User, Session, Uuid, Bytes, Duration, has_mfa}
use kubby.Store.Db.{Db, Query}
use kubby.Store.Db
use kubby.Crypto.{Keyring}
use kubby.Store.Sessions
use kubby.Auth.Service.Types.{
  LoginError, invalid_credentials, account_locked, account_blocked, FailedLogin, AuthError,
  failed_login, wrong_password, account_inactive, mfa_required, setup_complete, weak_password, ok,
  err, Auth, call, Settings, Primitives, Draw,
}
use kubby.Auth.Service.Login.{
  LoginResult, setup_required, create_first_admin, authenticate, refresh, logout, change_password,
}
use kubby.Auth.Service.SecondFactor.{
  complete_mfa, complete_mfa_with_recovery_code, enroll_totp, confirm_totp,
}

pub data AuditAction : Type 0 where
  setup_completed login_failed login_blocked login_locked : AuditAction
  login_succeeded : Bool → AuditAction
  mfa_verified recovery_code_used mfa_failed mfa_enrolled : AuditAction
  token_reuse token_refreshed logged_out password_changed : AuditAction
  sessions_revoked : ℕ → AuditAction

pub data AuditResult : Type 0 where
  success denied error : AuditResult

pub record AuditEntry : Type 0 where
  pub action : AuditAction
  pub result : AuditResult

pub data SessionCookie : Type 0 where
  kept cleared : SessionCookie
  set : String → SessionCookie

pub record LoginFailure : Type 0 where
  pub status : ℕ
  pub message : String
  pub attempts_remaining : ℕ
  pub locked_for_seconds : ℕ
  pub blocked : Bool

pub data Reply : Type 0 where
  setup_status : Bool → Reply
  created signed_in : User → Reply
  second_factor_owed : Bool → Reply
  login_refused : LoginFailure → Reply
  enrolling : Text → Reply
  recovery_codes : List Text → Reply
  sessions_shown : List (Session × Bool) → Reply
  revoked : ℕ → Reply
  no_content : Reply
  refused : ℕ → String → Reply

pub record Reaction : Type 0 where
  pub reply : Reply
  pub cookie : SessionCookie
  pub audited : List AuditEntry

abbrev pub Handler : Type 0
Handler = Db → Reaction × Db

-- A reply that touches neither the cookie nor the audit log.
abbrev only : Reply → Reaction
only r = record { reply = r; cookie = kept; audited = [] }

abbrev pub react : {A : Type 0} → (A → Reaction) → (AuthError → Reaction) → Auth A → Handler
react on_ok on_error m db =
    let (r, db') = m db in elim r [ ok a ↦ (on_ok a, db') | err e ↦ (on_error e, db') ]

-- `Round(time.Second).Seconds()`
abbrev seconds : Duration → ℕ
seconds d = (d + 500000000) / 1000000000

abbrev failure : ℕ → String → FailedLogin → LoginFailure
failure status message f = record {
  status = status;
  message = message;
  attempts_remaining = f.attempts_remaining;
  locked_for_seconds = seconds f.locked_for;
  blocked = f.blocked;
}

abbrev unexplained : ℕ → String → LoginFailure
unexplained status message = record {
  status = status;
  message = message;
  attempts_remaining = 0;
  locked_for_seconds = 0;
  blocked = false;
}

abbrev explained : FailedLogin → LoginError → LoginFailure
explained f account_blocked =
    failure 403
      "account is blocked after repeated failed sign-ins; ask an administrator to unblock it" f
explained f account_locked =
    failure 429 "too many failed attempts; this account is temporarily locked" f
explained f invalid_credentials = failure 401 "invalid email or password" f

unfoldable pub login_failure : AuthError → LoginFailure
login_failure (failed_login f) = explained f f.reason
login_failure account_inactive = unexplained 403 "account is deactivated"
login_failure wrong_password = unexplained 401 "invalid email or password"
login_failure other = unexplained 500 "could not sign in"

abbrev audit_entry : AuditAction → AuditResult → AuditEntry
audit_entry action result = record { action = action; result = result }

abbrev entry_of : LoginError → AuditAction
entry_of account_blocked = login_blocked
entry_of account_locked = login_locked
entry_of invalid_credentials = login_failed

unfoldable pub failed_entry : AuthError → AuditEntry
failed_entry (failed_login f) = audit_entry (entry_of f.reason) denied
failed_entry other = audit_entry login_failed denied

unfoldable pub login_reaction : LoginResult → Reaction
login_reaction r = record {
  reply = if r.mfa_required then second_factor_owed (has_mfa r.user) else signed_in r.user;
  cookie = set r.token;
  audited = audit_entry (login_succeeded r.mfa_required) success ∷ [];
}

unfoldable pub login_rejection : AuthError → Reaction
unfolding login_failure failed_entry
login_rejection e = record {
  reply = login_refused (login_failure e);
  cookie = kept;
  audited = failed_entry e ∷ [];
}

abbrev setup_reply : AuthError → Reply
setup_reply setup_complete = refused 410 "setup has already been completed"
setup_reply weak_password = refused 422 "password does not meet the policy"
setup_reply other = refused 500 "could not create the administrator account"

abbrev password_reply : AuthError → Reply
password_reply wrong_password = refused 401 "current password is incorrect"
password_reply weak_password = refused 422 "password does not meet the policy"
password_reply other = refused 500 "could not change the password"

module _ (x : Primitives) (settings : Settings) (k : Keyring) (d : Draw) where
  unfoldable pub show_setup_status : Handler
  show_setup_status =
      react (λ required. only (setup_status required))
        (λ e. only (refused 500 "could not determine setup state")) setup_required

  unfoldable pub set_up : Text → Text → Text → Handler
  set_up email display_name password =
      react
        (λ u. record {
          reply = created u;
          cookie = kept;
          audited = audit_entry setup_completed success ∷ [];
        })
        (λ e. only (setup_reply e)) (create_first_admin x settings d email display_name password)

  unfoldable pub login : Text → Text → Option String → Bytes → Handler
  unfolding login_reaction login_rejection authenticate
  login email password ip user_agent =
      react login_reaction login_rejection (authenticate x settings d email password ip user_agent)

  abbrev verified : AuditAction → User → Auth (Unit {0}) → Handler
  verified action user m =
      react
        (λ u. record {
          reply = signed_in user;
          cookie = kept;
          audited = audit_entry action success ∷ [];
        })
        (λ e. record {
          reply = refused 401 "invalid verification code";
          cookie = kept;
          audited = audit_entry mfa_failed denied ∷ [];
        })
        m

  unfoldable pub verify_mfa : Session → User → Text → Text → Handler
  verify_mfa session user code recovery_code =
      if session.mfa_satisfied
      then (λ db. (only (signed_in user), db))
      else if not (has_mfa user)
      then (λ db. (only (refused 409 "no authenticator is enrolled; complete enrolment first"), db))
      else if not (is_empty recovery_code)
      then verified recovery_code_used user
          (complete_mfa_with_recovery_code x k d session user recovery_code)
      else verified mfa_verified user (complete_mfa x k d session user code)

  unfoldable pub start_enrolment : Option Text → User → Handler
  start_enrolment generated user =
      react (λ secret. only (enrolling secret))
        (λ e. only (refused 500 "could not start MFA enrolment")) (enroll_totp x k d generated user)

  unfoldable pub confirm_enrolment : Session → User → Text → Handler
  confirm_enrolment session user code =
      react
        (λ cs. record {
          reply = recovery_codes cs;
          cookie = kept;
          audited = audit_entry mfa_enrolled success ∷ [];
        })
        (λ e. only (refused 401 "invalid verification code"))
        (confirm_totp x k d (some session) user code)

  unfoldable pub refresh_session : Option String → Handler
  refresh_session none db = (only (refused 401 "authentication required"), db)
  refresh_session (some token) db =
      react
        (λ s. record {
          reply = no_content;
          cookie = set s.1;
          audited = audit_entry token_refreshed success ∷ [];
        })
        (λ e. record {
          reply = refused 401 "session expired, please sign in again";
          cookie = cleared;
          audited = audit_entry token_reuse denied ∷ [];
        })
        (refresh x settings d token) db

  unfoldable pub sign_out : Session → Handler
  sign_out session =
      react
        (λ u. record {
          reply = no_content;
          cookie = cleared;
          audited = audit_entry logged_out success ∷ [];
        })
        (λ e. only (refused 500 "could not sign out")) (logout x settings d session.id)

  unfoldable pub new_password : Session → User → Text → Text → Handler
  new_password session user current_password password =
      react
        (λ u. record {
          reply = no_content;
          cookie = kept;
          audited = audit_entry password_changed success ∷ [];
        })
        (λ e. only (password_reply e))
        (change_password x settings d user current_password password session.id)

  abbrev mark_current : Uuid → List Session → List (Session × Bool)
  mark_current id = map (λ s. (s, s.id == id))

  unfoldable pub list_sessions : Session → User → Handler
  list_sessions current user =
      react (λ ss. only (sessions_shown (mark_current current.id ss)))
        (λ e. only (refused 500 "could not list sessions"))
        (call (Sessions.list_active_for_user user.id d.db_now))

  unfoldable pub revoke_other_sessions : Session → User → Handler
  revoke_other_sessions current user =
      react
        (λ n. record {
          reply = revoked n;
          cookie = kept;
          audited = audit_entry (sessions_revoked n) success ∷ [];
        })
        (λ e. only (refused 500 "could not revoke sessions"))
        (call (Sessions.revoke_all_for_user user.id (some current.id) d.db_now))
