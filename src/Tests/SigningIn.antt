-- ===== src/Tests/SigningIn.antt =====
-- Sign-in requests at concrete inputs.
use kubby.Prelude.{
  ◌≡◌, refl, none, some, [], arith, length, all, codes, Text, is_space, trim_left, trim_space,
  text_eq,
}
use kubby.Store.Models.{User, Session, has_mfa, is_locked, is_blocked}
use kubby.Store.Db.{Db}
use kubby.Store.Users.{by_email, record_successful_login}
use kubby.Store.Sessions
use kubby.Store.Sessions.{by_token_hash, truncate}
use kubby.Auth.Service.Types.{ok}
use kubby.Auth.Service.Login.{
  satisfied, mfa_required_for, issue_session, authenticate_user, authenticate, resolve,
}
use kubby.HttpApi.SignIn
use kubby.HttpApi.SignIn.{Reaction, login_reaction, login_rejection, login_failure, failed_entry}
use kubby.HttpApi.SignIn.Attempts.{
  is_success, is_sign_in, sets_cookie, is_ok, login_audited, resolve-login,
}
use kubby.Rbac.{requires_mfa}
use kubby.Tests.Data.{primitives, settings, at_time, db, guest, session}
use kubby.Tests.Sealing.{ring}

abbrev start : Session
start = record (session 20 2 "fresh") { created_at = 10; last_seen_at = 10; expires_at = 60 }

abbrev seen : User
seen = record guest { last_login_at = some 10; updated_at = 10 }

abbrev attempt : Text → Reaction × Db
attempt password =
    SignIn.login primitives settings (ring 3) (at_time 10) guest.email password none [] db

login_audited_example :
    let r = (attempt (codes "guessed")).0 in
    (length r.audited ≡ 1)
    × (all is_success r.audited ≡ sets_cookie r.cookie)
    × (all (λ e. is_sign_in e.action) r.audited ≡ sets_cookie r.cookie)
    × (sets_cookie r.cookie
        ≡ is_ok (
            (authenticate primitives settings
              (at_time 10)
              guest.email
              (codes "guessed")
              none
              []
              db).0))
login_audited_example =
    login_audited primitives settings (ring 3) (at_time 10) guest.email (codes "guessed") none [] db

resolve-login_example :
    (s : Session) × ((resolve primitives settings
        (at_time 11)
        "fresh"
        (attempt (codes "secret")).1).0
      ≡ ok (satisfied s seen))
unfolding SignIn.login login_reaction login_rejection login_failure failed_entry authenticate
    authenticate_user issue_session mfa_required_for by_email Sessions.create truncate
    record_successful_login is_blocked is_locked has_mfa requires_mfa trim_space trim_left is_space
    text_eq
resolve-login_example =
    resolve-login primitives settings (ring 3) (at_time 10) (at_time 11) guest.email
      (codes "secret") none [] db {shown = guest} {u = seen} {token = "fresh"} refl refl
      (omega arith) refl refl refl
