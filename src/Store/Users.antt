-- ===== src/Store/Users.antt =====
-- server/internal/store/users.go: the table `users` and its repository `UserRepo`.
-- The proofs are in Store/Users/Lockout.
--
-- `lower` is PostgreSQL's lower(), and `now` the statement's now(). A UUID that the database
-- generates is an argument. The unique index on (provider, lower(email)) is that of
-- server/migrations/00002_auth.sql; external_id is NULL for every account made here.
pub mod Lockout
use kubby.Prelude.{
  ℕ, ◌+◌, String, Bool, true, false, ◌&&◌, ◌||◌, not, none, some, List, [], ◌∷◌, ◌++◌, str_eq, ltb,
  leb, ◌==◌, if◌then◌else◌, is_some, length, any, Text, text_eq, trim_space, sort_by,
}
use kubby.Rbac.{Role, admin, is_admin}
use kubby.Store.Models.{User, Time, Duration, Uuid, Bytes}
use kubby.Store.Db.{
  email_in_use, setup_complete, database, ok, err, Db, Query, statement, find, update_where,
  count_where, or_not_found, affected,
}

abbrev pub has_id : Uuid → User → Bool
has_id id u = u.id == id

-- An account as an INSERT makes it, with the column defaults.
abbrev pub new_user : Uuid → Text → Text → String → Role → Time → User
new_user id email display_name password_hash role now = record {
  id = id;
  email = email;
  display_name = display_name;
  provider = "local";
  external_id = none;
  password_hash = password_hash;
  role = role;
  totp_secret_enc = none;
  totp_confirmed_at = none;
  is_active = true;
  failed_login_count = 0;
  locked_until = none;
  lockout_count = 0;
  blocked_at = none;
  last_login_at = none;
  created_at = now;
  updated_at = now;
}

-- UPDATE users SET … WHERE id = $1, with the test of `RowsAffected`.
abbrev pub update_by_id : Uuid → (User → User) → Query (Unit {0})
update_by_id id f = statement (λ db. (
  affected (count_where (has_id id) db.users),
  record db { users = update_where (has_id id) f db.users },
))

unfoldable pub count : Query ℕ
count = statement (λ db. (ok (length db.users), db))

unfoldable pub by_id : Uuid → Query User
by_id id = statement (λ db. (or_not_found (find (has_id id) db.users), db))

abbrev is_empty {ℓ} : {A : Type ℓ} → List A → Bool
is_empty [] = true
is_empty (x ∷ xs) = false

-- INSERT … SELECT … WHERE NOT EXISTS (SELECT 1 FROM users)
unfoldable pub create_first_admin : Uuid → Text → Text → String → Time → Query User
create_first_admin id email display_name password_hash now = statement (λ db.
    let u = new_user id (trim_space email) (trim_space display_name) password_hash admin now in
    if is_empty db.users then (ok u, record db { users = u ∷ [] }) else (err setup_complete, db))

module _ (lower : Text → Text) where
  -- Two rows with this key clash in the unique index.
  abbrev pub same_email : Text → User → Bool
  same_email email u = str_eq u.provider "local" && text_eq (lower u.email) (lower email)

  unfoldable pub create : Uuid → Text → Text → String → Role → Time → Query User
  create id email display_name password_hash role now = statement (λ db.
      let u = new_user id (trim_space email) (trim_space display_name) password_hash role now in
      if any (same_email (trim_space email)) db.users
      then (err email_in_use, db)
      else (ok u, record db { users = db.users ++ u ∷ [] }))

  unfoldable pub by_email : Text → Query User
  by_email email =
      statement (λ db. (or_not_found (find (same_email (trim_space email)) db.users), db))

  -- INSERT … ON CONFLICT DO NOTHING
  unfoldable pub restore_user : Uuid → Text → Text → String → Role → Bool → Time → Query (Unit {0})
  restore_user id email display_name password_hash role is_active now = statement (λ db.
      let fresh = new_user id email display_name password_hash role now in
      let u = record fresh { is_active = is_active } in
      if any (has_id id) db.users || any (same_email email) db.users
      then (ok tt, db)
      else (ok tt, record db { users = db.users ++ u ∷ [] }))

abbrev created_before : User → User → Bool
created_before a b = ltb a.created_at b.created_at

unfoldable pub list : Query (List User)
list = statement (λ db. (ok (sort_by created_before db.users), db))

-- The SET clause of `RecordFailedLogin`: each CASE reads the row as it was.
unfoldable pub failed_login : ℕ → Duration → ℕ → Time → User → User
failed_login max_attempts lock_for max_lockouts now u =
    let reached = leb max_attempts (u.failed_login_count + 1) in
    let blocks =
      reached
      && leb max_lockouts (u.lockout_count + 1)
      && not (is_admin u.role)
      && not (is_some u.blocked_at) in
    record u {
      failed_login_count = if reached then 0 else u.failed_login_count + 1;
      lockout_count = if reached then u.lockout_count + 1 else u.lockout_count;
      locked_until = if reached then some (now + lock_for) else u.locked_until;
      blocked_at = if blocks then some now else u.blocked_at;
      updated_at = now;
    }

-- UPDATE … RETURNING
unfoldable pub record_failed_login : Uuid → ℕ → Duration → ℕ → Time → Query User
unfolding failed_login
record_failed_login id max_attempts lock_for max_lockouts now = statement (λ db.
    let users' =
      update_where (has_id id) (failed_login max_attempts lock_for max_lockouts now) db.users in
    (or_not_found (find (has_id id) users'), record db { users = users' }))

unfoldable pub unblock : Uuid → Time → Query (Unit {0})
unblock id now = update_by_id id (λ u. record u {
  blocked_at = none;
  locked_until = none;
  failed_login_count = 0;
  lockout_count = 0;
  updated_at = now;
})

-- The SET clause of `RecordSuccessfulLogin`.
unfoldable pub successful_login : Time → User → User
successful_login now u = record u {
  failed_login_count = 0;
  lockout_count = 0;
  locked_until = none;
  last_login_at = some now;
  updated_at = now;
}

-- No test of `RowsAffected` here: an account that is gone is no error.
unfoldable pub record_successful_login : Uuid → Time → Query (Unit {0})
unfolding successful_login
record_successful_login id now =
    statement (λ db.
      (ok tt, record db { users = update_where (has_id id) (successful_login now) db.users }))

unfoldable pub update_password : Uuid → String → Time → Query (Unit {0})
update_password id hash now =
    update_by_id id (λ u. record u { password_hash = hash; updated_at = now })

unfoldable pub update_role : Uuid → Role → Time → Query (Unit {0})
update_role id role now = update_by_id id (λ u. record u { role = role; updated_at = now })

unfoldable pub set_active : Uuid → Bool → Time → Query (Unit {0})
set_active id active now = update_by_id id (λ u. record u { is_active = active; updated_at = now })

abbrev pub is_other_active_admin : Uuid → User → Bool
is_other_active_admin excluding u = is_admin u.role && u.is_active && not (u.id == excluding)

unfoldable pub count_active_admins : Uuid → Query ℕ
count_active_admins excluding =
    statement (λ db. (ok (count_where (is_other_active_admin excluding) db.users), db))

unfoldable pub set_totp_secret : Uuid → Bytes → Time → Query (Unit {0})
set_totp_secret id secret now =
    update_by_id id
      (λ u. record u { totp_secret_enc = some secret; totp_confirmed_at = none; updated_at = now })

abbrev pub has_secret : Uuid → User → Bool
has_secret id u = u.id == id && is_some u.totp_secret_enc

unfoldable pub confirm_totp : Uuid → Time → Query (Unit {0})
confirm_totp id now = statement (λ db. (
  affected (count_where (has_secret id) db.users),
  record db {
    users =
        update_where (has_secret id)
          (λ u. record u { totp_confirmed_at = some now; updated_at = now }) db.users;
  },
))

unfoldable pub disable_totp : Uuid → Time → Query (Unit {0})
disable_totp id now =
    update_by_id id
      (λ u. record u { totp_secret_enc = none; totp_confirmed_at = none; updated_at = now })
