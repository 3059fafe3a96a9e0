-- ===== src/HttpApi/UserAdmin/LastAdmin.antt =====
-- The installation keeps an administrator (server/internal/httpapi/user_handlers.go).
use kubby.Store.Sessions.{revoke_all_for_user}
use kubby.Prelude.{
  ℕ, ◌≤◌, ◌<◌, String, ◌≡◌, refl, inl, inr, Bool, true, false, ◌&&◌, Option, none, some, List, [],
  ◌∷◌, arith, ◌==◌, ==_iff, Bool-cases, Option-cases, All,
}
use kubby.Rbac.{is_admin, Role, parse_role}
use kubby.Store.Models.{User, Uuid, Time}
use kubby.Store.Db.{find-holds, other_faults, Db, update_where, count_where, find}
use kubby.Store.Users.{
  by_id, has_id, is_other_active_admin, count_active_admins, update_role, set_active, unblock,
}
use kubby.HttpApi.UserAdmin.{
  Reply, updated, own_account, reload_failed, UpdateRequest, Outcome, go, stop, Handler, pure,
  ◌>>=◌, ◌>>◌, run, refuse_if, change_role, change_active, change_block, changes_own, update_target,
  update,
}

abbrev pub is_active_admin : User → Bool
is_active_admin u = is_admin u.role && u.is_active

abbrev pub active_admins : List User → ℕ
active_admins = count_where is_active_admin

abbrev other_admins : Uuid → List User → ℕ
other_admins id = count_where (is_other_active_admin id)

other_admins-le : (id : Uuid) (users : List User) → other_admins id users ≤ active_admins users
other_admins-le id [] = omega arith
other_admins-le id (u ∷ us) = ground (arith, other_admins-le id us)

-- A change to the rows of one identity leaves the count of the other administrators.
other_admins-update :
    (id : Uuid) (f : User → User) (users : List User)
    → ((u : User) → (f u).id ≡ u.id)
    → other_admins id (update_where (has_id id) f users) ≡ other_admins id users
other_admins-update id f [] h = refl
other_admins-update id f (u ∷ us) h = ground (arith, h u, other_admins-update id f us h)

active_admins-grows :
    (id : Uuid) (f : User → User) (users : List User)
    → ((u : User) → is_active_admin u ≡ true → is_active_admin (f u) ≡ true)
    → active_admins users ≤ active_admins (update_where (has_id id) f users)
active_admins-grows id f [] h = omega arith
active_admins-grows id f (u ∷ us) h = ground (arith, h u, active_admins-grows id f us h)

-- While the request runs: there is an active administrator, and one besides the target where the
-- target, as it was loaded, is none.
abbrev IsGuarded : User → List User → Type 0
IsGuarded target users =
    (0 < active_admins users) × (is_admin target.role ≡ false → 0 < other_admins target.id users)

abbrev users_after : {A : Type 0} → Outcome A × Db → List User
users_after (r, db) = db.users

abbrev with_role : Role → Time → User → User
with_role role now u = record u { role = role; updated_at = now }

abbrev with_active : Bool → Time → User → User
with_active active now u = record u { is_active = active; updated_at = now }

role-grows :
    (id : Uuid) (role : Role) (now : Time) (users : List User)
    → is_admin role ≡ true
    → active_admins users ≤ active_admins (update_where (has_id id) (with_role role now) users)
role-grows id role now users h =
    active_admins-grows id (with_role role now) users (λ u e. ground arith)

change_role-IsGuarded :
    (target : User) (now : Time) (name : Option String) (db : Db)
    → IsGuarded target db.users
    → IsGuarded target (change_role target now name db).1.users
unfolding change_role count_active_admins update_role
change_role-IsGuarded target now none db h = h
change_role-IsGuarded target now (some name) db h = elim (Option-cases (parse_role name)) [
  | inl e ↦ ground arith
  | inr (role, e) ↦ ground (
    arith,
    other_admins-update target.id (with_role role now) db.users (λ u. refl),
    other_admins-le target.id (update_where (has_id target.id) (with_role role now) db.users),
    role-grows target.id role now db.users,
  )
]

change_active-IsGuarded :
    (target : User) (now : Time) (active : Option Bool) (db : Db)
    → IsGuarded target db.users
    → IsGuarded target (change_active target now active db).1.users
unfolding change_active count_active_admins set_active revoke_all_for_user
change_active-IsGuarded target now none db h = h
change_active-IsGuarded target now (some true) db h = ground (
  arith,
  other_admins-update target.id (with_active true now) db.users (λ u. refl),
  active_admins-grows target.id (with_active true now) db.users (λ u e. ground arith),
)
change_active-IsGuarded target now (some false) db h = ground (
  arith,
  other_admins-update target.id (with_active false now) db.users (λ u. refl),
  other_admins-le target.id (update_where (has_id target.id) (with_active false now) db.users),
)

abbrev without_block : Time → User → User
without_block now u = record u {
  blocked_at = none;
  locked_until = none;
  failed_login_count = 0;
  lockout_count = 0;
  updated_at = now;
}

change_block-IsGuarded :
    (target : User) (now : Time) (flag : Option Bool) (db : Db)
    → IsGuarded target db.users
    → IsGuarded target (change_block target now flag db).1.users
unfolding change_block unblock
change_block-IsGuarded target now none db h = h
change_block-IsGuarded target now (some false) db h = h
change_block-IsGuarded target now (some true) db h = ground (
  arith,
  other_admins-update target.id (without_block now) db.users (λ u. refl),
  active_admins-grows target.id (without_block now) db.users (λ u e. e),
)

-- Identities are unique, as the primary key has it.
abbrev pub IsKeyed : List User → Type 0
IsKeyed [] = Unit
IsKeyed (u ∷ us) = All (λ v. (v.id == u.id) ≡ false) us × IsKeyed us

none_of_id :
    (id : Uuid) (users : List User)
    → All (λ v. (v.id == id) ≡ false) users
    → active_admins users ≡ other_admins id users
none_of_id id [] h = refl
none_of_id id (u ∷ us) h = ground (arith, h.0, none_of_id id us h.1)

other_admins_of_not_admin :
    (id : Uuid) (users : List User) (target : User)
    → IsKeyed users
    → find (has_id id) users ≡ some target
    → is_admin target.role ≡ false
    → active_admins users ≡ other_admins id users
other_admins_of_not_admin id [] target k f h = refl
other_admins_of_not_admin id (u ∷ us) target k f h = elim (Bool-cases (u.id == id)) [
  | inl e ↦
      let same : u ≡ target = ground (arith, e, f) in
      let key : u.id ≡ id = ground arith in
      ground (arith, same, key, none_of_id id us (rw key at k.0))
  | inr e ↦ ground (arith, e, other_admins_of_not_admin id us target k.1 (rw e at f) h)
]

-- A chain of handlers keeps what each of them keeps.
>>=-keeps :
    (P : List User → Type 0) {A B : Type 0} (m : Handler A) (f : A → Handler B) (db : Db)
    → P (m db).1.users
    → ((a : A) (db' : Db) → P db'.users → P (f a db').1.users)
    → P ((m >>= f) db).1.users
>>=-keeps P {A} {B} m f db first rest = go_on (m db).0 (m db).1 first
  where
    go_on :
        (r : Outcome A) (db' : Db)
        → P db'.users
        → P (elim r as (λ _. Outcome B × Db) [ go a ↦ f a db' | stop e ↦ (stop e, db') ]).1.users
    go_on (go a) db' h = rest a db' h
    go_on (stop e) db' h = h

refuse_if-IsGuarded :
    (target : User) (b : Bool) (r : Reply) (db : Db)
    → IsGuarded target db.users
    → IsGuarded target (refuse_if b r db).1.users
refuse_if-IsGuarded target true r db h = h
refuse_if-IsGuarded target false r db h = h

reload-IsGuarded :
    (target : User) (db : Db)
    → IsGuarded target db.users
    → IsGuarded target (run (λ e. reload_failed) (by_id target.id) db).1.users
unfolding by_id
reload-IsGuarded target db h = ground arith

update_target-IsGuarded :
    (actor_id : Uuid) (req : UpdateRequest) (now : Time) (target : User) (db : Db)
    → IsGuarded target db.users
    → IsGuarded target (update_target actor_id req now target db).1.users
unfolding update_target
update_target-IsGuarded actor_id req now target db h =
    let P = λ (users : List User). IsGuarded target users in
    let reload : Handler Reply =
      run (λ e. reload_failed) (by_id target.id) >>= (λ (u : User). pure (updated u)) in
    let from_block : Handler Reply = change_block target now req.unblock >> reload in
    let from_active : Handler Reply = change_active target now req.is_active >> from_block in
    let from_role : Handler Reply = change_role target now req.role >> from_active in
    >>=-keeps P (refuse_if (changes_own actor_id target req) own_account) (λ _. from_role) db
      (refuse_if-IsGuarded target (changes_own actor_id target req) own_account db h)
      λ _ db1 h1.
        >>=-keeps P (change_role target now req.role) (λ _. from_active) db1
          (change_role-IsGuarded target now req.role db1 h1)
          λ _ db2 h2.
            >>=-keeps P (change_active target now req.is_active) (λ _. from_block) db2
              (change_active-IsGuarded target now req.is_active db2 h2)
              λ _ db3 h3.
                >>=-keeps P (change_block target now req.unblock) (λ _. reload) db3
                  (change_block-IsGuarded target now req.unblock db3 h3)
                  λ _ db4 h4.
                    >>=-keeps P (run (λ e. reload_failed) (by_id target.id))
                      (λ (u : User). pure (updated u)) db4 (reload-IsGuarded target db4 h4)
                      (λ _ db5 h5. h5)

-- No update request leaves the installation without an active administrator, whatever it asks for,
-- whoever sends it and whichever statement fails, if there was one before it and no other request
-- runs in between.
pub update-active_admins :
    (actor_id target_id : Uuid) (req : UpdateRequest) (now : Time) (db : Db)
    → IsKeyed db.users
    → 0 < active_admins db.users
    → 0 < active_admins (update actor_id target_id req now db).1.users
unfolding update by_id
update-active_admins actor_id target_id req now db keyed some_admin =
    elim (Option-cases (find (has_id target_id) db.users)) [
      | inl e ↦ ground arith
      | inr (target, e) ↦
          let key : target.id ≡ target_id =
            (==_iff target.id target_id).0 (find-holds (has_id target_id) db.users e) in
          let guarded : IsGuarded target db.users = (
            some_admin,
            λ not_admin. rw key (
                rw (← other_admins_of_not_admin target_id db.users target keyed e not_admin)
                  some_admin),
          ) in
          ground (
            arith,
            update_target-IsGuarded actor_id req now target
                (record db { faults = other_faults db.faults }) guarded,
          )
    ]
