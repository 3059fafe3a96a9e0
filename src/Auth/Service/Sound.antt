-- ===== src/Auth/Service/Sound.antt =====
-- What a success of the service implies (server/internal/auth/service.go).
use kubby.Prelude.{
  ◌+◌, inl, inr, List, [], ◌∷◌, ◌++◌, Option-cases, Bool-cases, any, trim_space, eq_iff, refl, ◌<◌,
  String, ◌≡◌, ap, sym, ◌∙◌, true, false, not, Option, none, some, arith, Text,
}
use kubby.Store.Models.{User, Session, Bytes, is_valid, is_blocked, is_locked}
use kubby.Store.Db.{Db, tick, next_fault, find, find-append_none}
use kubby.Store.Sessions.{by_token_hash, has_hash, create, new_session, truncate}
use kubby.Store.Users.{by_id, has_id, same_email, by_email, record_successful_login}
use kubby.Auth.Service.Types.{Primitives, Settings, Draw, ok}
use kubby.Auth.Service.Login.{
  satisfied, resolve, authenticate, LoginResult, reject_password, issue_session, authenticate_user,
  mfa_required_for,
}

find-inserted :
    (s : Session) (ss : List Session)
    → any (has_hash s.refresh_token_hash) ss ≡ false
    → find (has_hash s.refresh_token_hash) (ss ++ s ∷ []) ≡ some s
find-inserted s ss h = ground (
  arith,
  find-append_none (has_hash s.refresh_token_hash) ss (s ∷ []) h,
  (eq_iff s.refresh_token_hash s.refresh_token_hash).1 refl,
)

module _ (x : Primitives) (settings : Settings) (d : Draw) where
  -- A token is resolved to a usable session only if there is a row for its hash that is neither
  -- revoked nor expired nor still in want of a second factor; the account is the one that the row
  -- belongs to, as it stands in the database, and is active.
  pub resolve-satisfied :
      (token : String) (db : Db) {s : Session} {u : User}
      → (resolve x settings d token db).0 ≡ ok (satisfied s u)
      → (find (has_hash (x.hash_token token)) db.sessions ≡ some s)
        × (s.revoked_at ≡ none)
        × (d.now < s.expires_at)
        × (s.mfa_satisfied ≡ true)
        × (u.is_active ≡ true)
        × (find (has_id s.user_id) db.users ≡ some u)
  unfolding resolve by_token_hash by_id is_valid
  resolve-satisfied token db h = ground arith

  issue_session-ok :
      (ip : Option String) (user_agent : Bytes) (user : User) (db : Db) {r : LoginResult}
      → (issue_session x settings d ip user_agent user db).0 ≡ ok r
      → (r.user ≡ user)
        × (r.session.mfa_satisfied ≡ not (mfa_required_for x settings d user))
        × (r.session.refresh_token_hash ≡ x.hash_token r.token)
        × (r.session.user_id ≡ user.id)
        × (find
              (has_hash (x.hash_token r.token))
              (issue_session x settings d ip user_agent user db).1.sessions
            ≡ some r.session)
  unfolding issue_session create record_successful_login
  issue_session-ok ip user_agent user db h = elim (Option-cases d.new_token) [
    | inl e ↦ absurd (ground (arith, e, h))
    | inr (token, e) ↦
        let s =
          new_session d.new_id user.id (x.hash_token token) ip (truncate user_agent 512)
            (not (mfa_required_for x settings d user)) (d.now + settings.refresh_ttl) d.db_now in
        elim (Bool-cases (any (has_hash (x.hash_token token)) db.sessions)) [
          | inl f ↦ absurd (ground (arith, e, f, h))
          | inr f ↦ ground (arith, e, f, h, find-inserted s db.sessions f)
        ]
  ]

  authenticate_user-ok :
      (password : Text) (ip : Option String) (user_agent : Bytes) (user : User) (db : Db)
      {r : LoginResult}
      → (authenticate_user x settings d password ip user_agent user db).0 ≡ ok r
      → (user.is_active ≡ true)
        × (is_blocked user ≡ false)
        × (is_locked user d.now ≡ false)
        × (x.verify_password password user.password_hash ≡ true)
        × (authenticate_user x settings d password ip user_agent user db
            ≡ issue_session x settings d ip user_agent user db)
  unfolding authenticate_user reject_password
  authenticate_user-ok password ip user_agent user db h = ground arith

  authenticate-found :
      (email password : Text) (ip : Option String) (user_agent : Bytes) (db : Db) {r : LoginResult}
      → (authenticate x settings d email password ip user_agent db).0 ≡ ok r
      → (u : User) × (find (same_email x.lower (trim_space email)) db.users ≡ some u)
        × (authenticate x settings d email password ip user_agent db
            ≡ authenticate_user x settings d password ip user_agent u (tick db))
  unfolding authenticate by_email
  authenticate-found email password ip user_agent db h =
      elim (Option-cases (find (same_email x.lower (trim_space email)) db.users)) [
        | inl e ↦ absurd (ground (arith, e, h))
        | inr (u, e) ↦ (
          u,
          e,
          elim (Bool-cases (next_fault db.faults)) [
            | inl f ↦ absurd (ground (arith, e, f, h))
            | inr f ↦ ground (arith, e, f)
          ],
        )
      ]

  -- A sign-in succeeds only for the account of the address that was given, which is active, neither
  -- blocked nor locked, and whose stored hash the password verifies against. Its session is that
  -- account's, may be used at once exactly if no second factor is owed, and stands in the table under
  -- the hash of the token that is handed out.
  pub authenticate-ok :
      (email password : Text) (ip : Option String) (user_agent : Bytes) (db : Db) {r : LoginResult}
      → (authenticate x settings d email password ip user_agent db).0 ≡ ok r
      → (r.user.is_active ≡ true)
        × (is_blocked r.user ≡ false)
        × (is_locked r.user d.now ≡ false)
        × (x.verify_password password r.user.password_hash ≡ true)
        × (r.session.mfa_satisfied ≡ not (mfa_required_for x settings d r.user))
        × (r.session.refresh_token_hash ≡ x.hash_token r.token)
        × (find (same_email x.lower (trim_space email)) db.users ≡ some r.user)
        × (r.session.user_id ≡ r.user.id)
        × (find
              (has_hash (x.hash_token r.token))
              (authenticate x settings d email password ip user_agent db).1.sessions
            ≡ some r.session)
  authenticate-ok email password ip user_agent db {r} h =
      let (u, found, run) = authenticate-found email password ip user_agent db h in
      let done : (authenticate_user x settings d password ip user_agent u (tick db)).0 ≡ ok r =
        ap (λ p. p.0) (sym run) ∙ h in
      let (active, not_blocked, not_locked, verified, issue) =
        authenticate_user-ok password ip user_agent u (tick db) done in
      let (same, factor, hashed, own, row) =
        issue_session-ok ip user_agent u (tick db) (ap (λ p. p.0) (sym issue) ∙ done) in
      (
        rw same active,
        rw same not_blocked,
        rw same not_locked,
        rw same verified,
        rw same factor,
        hashed,
        rw same found,
        rw same own,
        rw (run, issue) row,
      )
