-- ===== src/Tests/Signing.antt =====
-- Passwords, codes and the sign-in service at concrete inputs.
use kubby.Prelude.{
  ◌<◌, String, ◌≡◌, refl, ◌≢◌, Bool, true, false, not, none, some, [], arith, codes, Text, text_eq,
  is_space, trim_left, trim_space,
}
use kubby.Store.Models.{Uuid, has_mfa, is_locked, is_blocked, Session, is_valid}
use kubby.Store.Db.{find}
use kubby.Store.Users
use kubby.Store.Users.{by_email, by_id, record_successful_login}
use kubby.Store.Sessions
use kubby.Store.Sessions.{has_hash, by_token_hash, rotate, truncate, revoke_all_for_user}
use kubby.Auth.Service.Types.{ok}
use kubby.Auth.Service.Login.{
  LoginResult, satisfied, mfa_required_for, issue_session, authenticate_user, authenticate, resolve,
  refresh,
}
use kubby.Auth.Service.Sound.{resolve-satisfied, authenticate-ok}
use kubby.Auth.Service.Rounds.{resolve-refresh}
use kubby.Rbac.{requires_mfa}
use kubby.Tests.Data.{primitives, settings, at_time, db, guest, session}

abbrev good : Text
good = codes "Correct-Horse7"

abbrev is_hash_of : Text → String → Bool
is_hash_of s hash = text_eq s (codes hash)

resolve-satisfied_example :
    (find (has_hash "token") db.sessions ≡ some (session 7 2 "token"))
    × ((session 7 2 "token").revoked_at ≡ none)
    × (10 < 100)
    × (true ≡ true)
    × (guest.is_active ≡ true)
    × (find (Users.has_id 2) db.users ≡ some guest)
unfolding resolve by_token_hash by_id is_valid
resolve-satisfied_example =
    resolve-satisfied primitives settings (at_time 10) "token" db {s = session 7 2 "token"}
      {u = guest} refl

abbrev issued : Session
issued = record (session 20 2 "fresh") { created_at = 10; last_seen_at = 10; expires_at = 60 }

abbrev signed_in : LoginResult
signed_in = record { user = guest; session = issued; token = "fresh"; mfa_required = false }

abbrev email : Text
email = guest.email

authenticate-ok_example :
    (guest.is_active ≡ true)
    × (is_blocked guest ≡ false)
    × (is_locked guest 10 ≡ false)
    × (primitives.verify_password (codes "secret") "secret" ≡ true)
    × (true ≡ not (mfa_required_for primitives settings (at_time 10) guest))
    × (issued.refresh_token_hash ≡ primitives.hash_token signed_in.token)
    × (find (Users.same_email primitives.lower (trim_space email)) db.users ≡ some guest)
    × (issued.user_id ≡ guest.id)
    × (find
          (has_hash (primitives.hash_token "fresh"))
          (authenticate primitives settings
            (at_time 10)
            email
            (codes "secret")
            none
            []
            db).1.sessions
        ≡ some issued)
unfolding authenticate authenticate_user issue_session mfa_required_for by_email Sessions.create
    truncate record_successful_login is_blocked is_locked has_mfa requires_mfa trim_space trim_left
    is_space text_eq
authenticate-ok_example =
    authenticate-ok primitives settings (at_time 10) email (codes "secret") none [] db
      {r = signed_in} refl

abbrev refreshed : Session × String
refreshed = (issued, "fresh")

resolve-refresh_example :
    (resolve primitives settings
      (at_time 11)
      "token"
      (refresh primitives settings (at_time 10) "token" db).1).0
    ≢ ok (satisfied issued guest)
unfolding refresh rotate
resolve-refresh_example =
    resolve-refresh primitives settings (at_time 10) (at_time 11) "token" db {r = refreshed}
      {v = satisfied issued guest} (omega arith) refl

abbrev keeping : Uuid
keeping = 8
