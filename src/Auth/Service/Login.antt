-- ===== src/Auth/Service/Login.antt =====
-- server/internal/auth/service.go: the setup wizard, the password step, sessions and passwords.
use kubby.Prelude.{
  ℕ, ◌+◌, ◌-◌, String, Bool, true, false, ◌||◌, not, Option, none, some, ◌==◌, if◌then◌else◌, Text,
  trim_space,
}
use kubby.Rbac.{requires_mfa}
use kubby.Store.Models.{
  User, Session, Uuid, Bytes, has_mfa, is_locked, is_blocked, lockout_remaining, is_valid,
}
use kubby.Store.Db.{Error}
use kubby.Store.Users
use kubby.Store.Sessions
use kubby.Auth.Policy.{validate_password}
use kubby.Auth.Service.Types.{
  LoginError, invalid_credentials, account_locked, account_blocked, AuthError, failed_login,
  wrong_password, account_inactive, session_invalid, setup_complete, weak_password, no_randomness,
  store, Result, ok, err, Auth, pure, fail, ◌>>=◌, ◌>>◌, call_or, call, not_found_as, Settings,
  lockout_duration, Primitives, Draw,
}

pub record LoginResult : Type 0 where
  pub user : User
  pub session : Session
  pub token : String
  pub mfa_required : Bool

abbrev pub refusal : LoginError → ℕ → ℕ → Bool → AuthError
refusal reason attempts_remaining locked_for blocked = failed_login (record {
  reason = reason;
  attempts_remaining = attempts_remaining;
  locked_for = locked_for;
  blocked = blocked;
})

-- A value that the random source may fail to give.
abbrev pub drawn : {A : Type 0} → Option A → Auth A
drawn none = fail no_randomness
drawn (some a) = pure a

unfoldable pub setup_required : Auth Bool
setup_required = do n ← call Users.count; pure (n == 0)

-- What `Resolve` hands out: a session with its user, that may be used or that still owes its second
-- factor (`pending`, which the code returns beside ErrMFARequired).
pub data Resolved : Type 0 where
  satisfied pending : Session → User → Resolved

module _ (x : Primitives) (settings : Settings) (d : Draw) where
  abbrev setup_error : Error → AuthError
  setup_error Error.setup_complete = setup_complete
  setup_error other = store other

  unfoldable pub create_first_admin : Text → Text → Text → Auth User
  create_first_admin email display_name password =
      let trimmed = trim_space email in
      if not (validate_password x.unicode password trimmed display_name)
      then fail weak_password
      else do
        hash ← drawn d.password_hash
        call_or setup_error (Users.create_first_admin d.new_id trimmed display_name hash d.db_now)

  -- The switch behind a wrong password, on the row that `RecordFailedLogin` returns.
  abbrev pub explain : User → AuthError
  explain updated =
      if is_blocked updated
      then refusal account_blocked 0 0 true
      else if is_locked updated d.now
      then refusal account_locked 0 (lockout_remaining updated d.now) false
      else refusal invalid_credentials (settings.login_max_attempts - updated.failed_login_count) 0
          false

  unfoldable pub reject_password : User → Auth LoginResult
  unfolding lockout_duration
  reject_password user = do
    updated ← call (
        Users.record_failed_login user.id settings.login_max_attempts
          (lockout_duration settings user.lockout_count) settings.max_lockouts d.db_now)
    fail (explain updated)

  unfoldable pub mfa_required_for : User → Bool
  mfa_required_for user = has_mfa user || requires_mfa user.role settings.require_mfa_for_admin

  abbrev record_success : Bool → User → Auth (Unit {0})
  record_success mfa_required user =
      if mfa_required then pure tt else call (Users.record_successful_login user.id d.db_now)

  unfoldable pub issue_session : Option String → Bytes → User → Auth LoginResult
  unfolding mfa_required_for
  issue_session ip user_agent user = do
    token ← drawn d.new_token
    session ← call (
        Sessions.create d.new_id user.id (x.hash_token token) ip user_agent
          (not (mfa_required_for user)) (d.now + settings.refresh_ttl) d.db_now)
    record_success (mfa_required_for user) user
    pure (record {
      user = user;
      session = session;
      token = token;
      mfa_required = mfa_required_for user;
    })

  -- The guards, in their order, on the account that was found.
  unfoldable pub authenticate_user : Text → Option String → Bytes → User → Auth LoginResult
  unfolding reject_password issue_session
  authenticate_user password ip user_agent user =
      if not user.is_active
      then fail account_inactive
      else if is_blocked user
      then fail (refusal account_blocked 0 0 true)
      else if is_locked user d.now
      then fail (refusal account_locked 0 (lockout_remaining user d.now) false)
      else if not (x.verify_password password user.password_hash)
      then reject_password user
      else issue_session ip user_agent user

  -- An unknown account is refused as a wrong password is, but for the attempts that remain.
  unfoldable pub authenticate : Text → Text → Option String → Bytes → Auth LoginResult
  unfolding authenticate_user
  authenticate email password ip user_agent = do
    user ←
        call_or (not_found_as (refusal invalid_credentials 0 0 false))
          (Users.by_email x.lower email)
    authenticate_user password ip user_agent user

  abbrev resolve_user : Session → User → Auth Resolved
  resolve_user session user =
      if not user.is_active
      then fail account_inactive
      else if not session.mfa_satisfied
      then pure (pending session user)
      else pure (satisfied session user)

  unfoldable pub resolve : String → Auth Resolved
  resolve token = do
    session ← call_or (not_found_as session_invalid) (Sessions.by_token_hash (x.hash_token token))
    if not (is_valid session d.now) then fail session_invalid else do
      user ← call_or (λ e. session_invalid) (Users.by_id session.user_id)
      resolve_user session user

  unfoldable pub refresh : String → Auth (Session × String)
  refresh token = do
    new_token ← drawn d.new_token
    session ← call_or (not_found_as session_invalid) (
        Sessions.rotate (x.hash_token token) d.new_id (x.hash_token new_token)
          (d.now + settings.refresh_ttl) d.db_now)
    pure (session, new_token)

  abbrev ignore_not_found : Result (Unit {0}) → Result (Unit {0})
  ignore_not_found (err (store Error.not_found)) = ok tt
  ignore_not_found r = r

  -- Already gone is no error: logout is idempotent.
  unfoldable pub logout : Uuid → Auth (Unit {0})
  logout session_id db =
      let (r, db') = call (Sessions.revoke session_id d.db_now) db in (ignore_not_found r, db')

  unfoldable pub change_password : User → Text → Text → Uuid → Auth (Unit {0})
  change_password user current_password new_password keep_session =
      if not (x.verify_password current_password user.password_hash)
      then fail wrong_password
      else if not (validate_password x.unicode new_password user.email user.display_name)
      then fail weak_password
      else do
        hash ← drawn d.password_hash
        call (Users.update_password user.id hash d.db_now)
        _ ← call (Sessions.revoke_all_for_user user.id (some keep_session) d.db_now)
        pure tt
