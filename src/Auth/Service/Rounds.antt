-- ===== src/Auth/Service/Rounds.antt =====
-- What follows a success of the service in later calls (server/internal/auth/service.go).
use kubby.Prelude.{
  ◌+◌, ◌≤◌, ◌<◌, String, ◌≡◌, ◌≢◌, inl, inr, true, false, ◌&&◌, not, Option, none, some, [], ◌∷◌,
  arith, eq_iff, ◌==◌, Option-cases, is_some, All, Text,
}
use kubby.Store.Models.{User, Session, Uuid, Bytes, is_valid}
use kubby.Store.Db.{
  Db, find, find-append_none, find-holds, All-find, All-update_where, update_where,
}
use kubby.Store.Db
use kubby.Store.Users.{
  by_id, by_email, record_successful_login, record_failed_login, has_id, update_password,
}
use kubby.Store.Sessions.{
  by_token_hash, has_hash, create, rotate, ends_for_user, revoke_all_for_user, revoke_row,
}
use kubby.Store.Sessions.Rotation.{IsSpent, All-IsSpent-rotate}
use kubby.Auth.Service.Types.{Primitives, Settings, Draw, ok}
use kubby.Auth.Service.Login.{
  Resolved, satisfied, resolve, refresh, authenticate, LoginResult, change_password,
}

module _ (x : Primitives) (settings : Settings) where
  resolve-row :
      (d : Draw) (token : String) (db : Db) {v : Resolved}
      → (resolve x settings d token db).0 ≡ ok v
      → (s : Session) × (find (has_hash (x.hash_token token)) db.sessions ≡ some s)
        × (is_valid s d.now ≡ true)
  unfolding resolve by_token_hash
  resolve-row d token db h =
      elim (Option-cases (find (has_hash (x.hash_token token)) db.sessions)) [
        | inl e ↦ absurd (ground arith)
        | inr (s, e) ↦ (s, e, ground arith)
      ]

  refresh-ok :
      (d : Draw) (token : String) (db : Db) {r : Session × String}
      → (refresh x settings d token db).0 ≡ ok r
      → (d.new_token ≡ some r.1)
        × ((rotate
              (x.hash_token token)
              d.new_id
              (x.hash_token r.1)
              (d.now + settings.refresh_ttl)
              d.db_now
              db).0
            ≡ Db.ok r.0)
        × ((refresh x settings d token db).1
            ≡ (rotate
                (x.hash_token token)
                d.new_id
                (x.hash_token r.1)
                (d.now + settings.refresh_ttl)
                d.db_now
                db).1)
  unfolding refresh
  refresh-ok d token db h = ground arith

  -- A token that was refreshed resolves to nothing afterwards, whatever is drawn, if the service's
  -- clock does not lag behind the time at which the database revoked it.
  pub resolve-refresh :
      (d later : Draw) (token : String) (db : Db) {r : Session × String} {v : Resolved}
      → d.db_now ≤ later.now
      → (refresh x settings d token db).0 ≡ ok r
      → (resolve x settings later token (refresh x settings d token db).1).0 ≢ ok v
  unfolding is_valid
  resolve-refresh d later token db {r} order refreshed resolved =
      let (drew, rotated, same) = refresh-ok d token db refreshed in
      let (s, found, valid) = resolve-row later token (refresh x settings d token db).1 resolved in
      let hash = x.hash_token token in
      let spent : IsSpent hash later.now s =
        All-find (IsSpent hash later.now) (has_hash hash) (refresh x settings d token db).1.sessions
          (rw same (
            All-IsSpent-rotate hash (x.hash_token r.1) d.new_id (d.now + settings.refresh_ttl)
              d.db_now later.now db order rotated))
          found in
      ground (
        arith,
        spent,
        valid,
        find-holds (has_hash hash) (refresh x settings d token db).1.sessions found,
      )

  -- The row that a sign-in made.
  authenticate-row :
      (d : Draw) (email password : Text) (ip : Option String) (user_agent : Bytes) (db : Db)
      {r : LoginResult}
      → (authenticate x settings d email password ip user_agent db).0 ≡ ok r
      → (find
            (has_hash r.session.refresh_token_hash)
            (authenticate x settings d email password ip user_agent db).1.sessions
          ≡ some r.session)
        × (r.session.refresh_token_hash ≡ x.hash_token r.token)
        × (r.session.user_id ≡ r.user.id)
        × (r.session.revoked_at ≡ none)
        × (r.session.expires_at ≡ d.now + settings.refresh_ttl)
        × (r.session.mfa_satisfied ≡ not r.mfa_required)
  unfolding authenticate by_email create record_successful_login record_failed_login
  authenticate-row d email password ip user_agent db {r} h = ground (
    arith,
    find-append_none (has_hash r.session.refresh_token_hash) db.sessions (r.session ∷ []),
    eq_iff r.session.refresh_token_hash r.session.refresh_token_hash,
  )

  -- The token of a sign-in that owes no second factor resolves to its session, until that expires,
  -- while the account's row is active and no statement fails.
  pub resolve-authenticate :
      (d later : Draw) (email password : Text) (ip : Option String) (user_agent : Bytes) (db : Db)
      {r : LoginResult} {u : User}
      → (authenticate x settings d email password ip user_agent db).0 ≡ ok r
      → r.mfa_required ≡ false
      → later.now < d.now + settings.refresh_ttl
      → (authenticate x settings d email password ip user_agent db).1.faults ≡ []
      → find (has_id r.user.id) (authenticate x settings d email password ip user_agent db).1.users
        ≡ some u
      → u.is_active ≡ true
      → (resolve x settings later r.token
          (authenticate x settings d email password ip user_agent db).1).0
        ≡ ok (satisfied r.session u)
  unfolding resolve by_token_hash by_id is_valid
  resolve-authenticate d later email password ip user_agent db {r} signed_in no_factor in_time
        no_fault row active =
      ground (arith, authenticate-row d email password ip user_agent db signed_in)

  change_password-sessions :
      (d : Draw) (user : User) (current new_password : Text) (keep : Uuid) (db : Db)
      → (change_password x settings d user current new_password keep db).0 ≡ ok tt
      → (change_password x settings d user current new_password keep db).1.sessions
        ≡ update_where (ends_for_user user.id (some keep)) (revoke_row d.db_now) db.sessions
  unfolding change_password revoke_all_for_user update_password
  change_password-sessions d user current new_password keep db h = ground arith

  -- After a change of password every session of the account but the one that is kept is revoked.
  change_password-revokes :
      (d : Draw) (user : User) (current new_password : Text) (keep : Uuid) (db : Db)
      → (change_password x settings d user current new_password keep db).0 ≡ ok tt
      → All
          (λ s. (s.user_id == user.id && not (s.id == keep) && not (is_some s.revoked_at)) ≡ false)
          (change_password x settings d user current new_password keep db).1.sessions
  change_password-revokes d user current new_password keep db h =
      rw (change_password-sessions d user current new_password keep db h) (
        All-update_where
          (λ (s : Session).
            (s.user_id == user.id && not (s.id == keep) && not (is_some s.revoked_at)) ≡ false)
          (ends_for_user user.id (some keep)) (revoke_row d.db_now) (λ s e. ground arith)
          (λ s e. ground arith) db.sessions)
