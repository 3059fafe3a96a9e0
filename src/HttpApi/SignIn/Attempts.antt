-- ===== src/HttpApi/SignIn/Attempts.antt =====
-- What a sign-in leaves behind (server/internal/httpapi/auth_handlers.go over the auth service).
use kubby.Prelude.{
  ◌+◌, ◌<◌, String, ◌≡◌, inl, inr, Bool, true, false, Option, some, [], arith, length, all, Text,
}
use kubby.Crypto.{Keyring}
use kubby.Store.Models.{User, Session, Bytes}
use kubby.Store.Db.{Db, find}
use kubby.Store.Users.{has_id}
use kubby.Auth.Service.Types.{Result-cases, Auth, Primitives, Settings, Draw, ok, err, Result}
use kubby.Auth.Service.Login.{LoginResult, authenticate, resolve, satisfied}
use kubby.Auth.Service.Rounds.{resolve-authenticate}
use kubby.HttpApi.SignIn.{
  AuditAction, login_succeeded, AuditResult, AuditEntry, success, SessionCookie, set, signed_in,
  react, failed_entry, login_reaction, login_rejection, login,
}

abbrev has_succeeded : AuditResult → Bool
has_succeeded success = true
has_succeeded other = false

abbrev pub is_success : AuditEntry → Bool
is_success entry = has_succeeded entry.result

abbrev pub is_sign_in : AuditAction → Bool
is_sign_in (login_succeeded owed) = true
is_sign_in other = false

abbrev pub sets_cookie : SessionCookie → Bool
sets_cookie (set token) = true
sets_cookie other = false

abbrev pub is_ok : {A : Type 0} → Result A → Bool
is_ok (ok a) = true
is_ok (err e) = false

reaction_audited :
    (m : Auth LoginResult) (db : Db)
    → let r = (react login_reaction login_rejection m db).0 in
      (length r.audited ≡ 1)
      × (all is_success r.audited ≡ sets_cookie r.cookie)
      × (all (λ e. is_sign_in e.action) r.audited ≡ sets_cookie r.cookie)
      × (sets_cookie r.cookie ≡ is_ok ((m db).0))
unfolding login_reaction login_rejection failed_entry
reaction_audited m db = ground arith

-- What the service decided, read off the reply and the cookie.
record Accepted (m : Auth LoginResult) (db : Db) (shown : User) (token : String) : Type 0 where
  result : LoginResult
  accepted : (m db).0 ≡ ok result
  no_factor : result.mfa_required ≡ false
  same_token : result.token ≡ token
  same_user : result.user ≡ shown
  same_db : (react login_reaction login_rejection m db).1 ≡ (m db).1

reaction-Accepted :
    (m : Auth LoginResult) (db : Db) {shown : User} {token : String}
    → ((react login_reaction login_rejection m db).0).reply ≡ signed_in shown
    → ((react login_reaction login_rejection m db).0).cookie ≡ set token
    → Accepted m db shown token
unfolding login_reaction login_rejection
reaction-Accepted m db {shown} {token} h k = elim (Result-cases ((m db).0)) [
  | inl (r, e) ↦ record {
    result = r;
    accepted = e;
    no_factor = ground (arith, e, h);
    same_token = ground (arith, e, k);
    same_user = ground (arith, e, h);
    same_db = ground (arith, e);
  }
  | inr (x, e) ↦ absurd (ground (arith, e, k))
]

module _ (x : Primitives) (settings : Settings) (k : Keyring) (d : Draw) where
  -- Every attempt to sign in is recorded once: with the result "success" exactly if it sets a session
  -- cookie, under the action of a sign-in that succeeded exactly then too, and the service accepted the
  -- attempt exactly then.
  pub login_audited :
      (email password : Text) (ip : Option String) (user_agent : Bytes) (db : Db)
      → let r = (login x settings k d email password ip user_agent db).0 in
        (length r.audited ≡ 1)
        × (all is_success r.audited ≡ sets_cookie r.cookie)
        × (all (λ e. is_sign_in e.action) r.audited ≡ sets_cookie r.cookie)
        × (sets_cookie r.cookie
            ≡ is_ok ((authenticate x settings d email password ip user_agent db).0))
  unfolding login
  login_audited email password ip user_agent db =
      reaction_audited (authenticate x settings d email password ip user_agent) db

  -- The cookie of a sign-in that shows the account to the caller is good for requests: the token in it
  -- resolves to a session of the account that owes no second factor, until it expires, while the
  -- account's row is active and no statement fails.
  pub resolve-login :
      (later : Draw) (email password : Text) (ip : Option String) (user_agent : Bytes) (db : Db)
      {shown u : User} {token : String}
      → ((login x settings k d email password ip user_agent db).0).reply ≡ signed_in shown
      → ((login x settings k d email password ip user_agent db).0).cookie ≡ set token
      → later.now < d.now + settings.refresh_ttl
      → (login x settings k d email password ip user_agent db).1.faults ≡ []
      → find (has_id shown.id) ((login x settings k d email password ip user_agent db).1).users
        ≡ some u
      → u.is_active ≡ true
      → (s : Session) × ((resolve x settings later token
            ((login x settings k d email password ip user_agent db).1)).0
          ≡ ok (satisfied s u))
  unfolding login
  resolve-login later email password ip user_agent db {shown} {u} {token} shows cookie in_time
        no_fault row active =
      let a =
        reaction-Accepted (authenticate x settings d email password ip user_agent) db shows
          cookie in
      (
        a.result.session,
        rw (← a.same_token, a.same_db)
            (resolve-authenticate x settings d later email password ip user_agent db a.accepted
              a.no_factor in_time (rw (← a.same_db) no_fault) (rw (a.same_user, ← a.same_db) row)
              active),
      )
