-- ===== src/HttpApi/UserAdmin.antt =====
-- server/internal/httpapi/user_handlers.go: listing, creating and changing accounts, and reading the
-- audit trail. The proofs are in HttpApi/UserAdmin/LastAdmin and HttpApi/UserAdmin/Creating.
--
-- A handler writes one reply and ends: `Handler` stops at the first `stop`. The audit records that
-- it writes along the way do not decide anything, and are left out, as are the parsing of the URL
-- and of the JSON body, whose fields are the request, and the copying of rows into the JSON of a reply.
-- The reply to a weak password leaves out the list of its problems.
pub mod LastAdmin
pub mod Creating
use kubby.Prelude.{
  ℕ, ℤ, pos, String, Bool, true, false, ◌&&◌, ◌||◌, not, Option, none, some, List, ◌==◌, is_some,
  Text, is_empty, if◌then◌else◌,
}
use kubby.Rbac.{Role, is_admin, parse_role}
use kubby.Store.Models.{User, Uuid, Time, AuditEvent}
use kubby.Store.Audit
use kubby.Store.Audit.{AuditFilter}
use kubby.Auth.Policy.{Unicode, validate_password}
use kubby.Store.Db.{Db, Query, Error, not_found}
use kubby.Store.Db
use kubby.Store.Users
use kubby.Store.Sessions

pub data Reply : Type 0 where
  updated : User → Reply
  user_not_found load_failed own_account bad_role : Reply
  last_admin_demoted role_failed last_admin_deactivated active_failed sessions_failed : Reply
  unblock_failed reload_failed : Reply
  users_shown : List User → Reply
  list_failed weak_password create_failed email_taken : Reply
  created : User → Reply
  events_shown : List AuditEvent → Reply
  audit_failed : Reply

pub record UpdateRequest : Type 0 where
  pub role : Option String
  pub is_active : Option Bool
  pub unblock : Option Bool

pub record CreateUserRequest : Type 0 where
  pub email : Text
  pub display_name : Text
  pub password : Text
  pub role : String

pub data Outcome (A : Type 0) : Type 0 where
  go : A → Outcome A
  stop : Reply → Outcome A

abbrev pub Handler : Type 0 → Type 0
Handler A = Db → Outcome A × Db

abbrev pub pure : {A : Type 0} → A → Handler A
pure a db = (go a, db)

abbrev pub reply : {A : Type 0} → Reply → Handler A
reply r db = (stop r, db)

infixl 5 ◌>>=◌ ◌>>◌
abbrev pub ◌>>=◌ : {A B : Type 0} → Handler A → (A → Handler B) → Handler B
◌>>=◌ m f db = let (r, db') = m db in elim r [ go a ↦ f a db' | stop e ↦ (stop e, db') ]

abbrev pub ◌>>◌ : {B : Type 0} → Handler Unit → Handler B → Handler B
m >> k = m >>= λ _. k

abbrev answer : {A : Type 0} → (Error → Reply) → Db.Result A → Outcome A
answer on_error (Db.ok a) = go a
answer on_error (Db.err e) = stop (on_error e)

-- A repository call whose error ends the request.
abbrev pub run : {A : Type 0} → (Error → Reply) → Query A → Handler A
run on_error q db = let (r, db') = q db in (answer on_error r, db')

abbrev load_error : Error → Reply
load_error Error.not_found = user_not_found
load_error other = load_failed

abbrev no_others : Db.Result ℕ → Bool
no_others (Db.ok others) = others == 0
no_others (Db.err e) = true

-- Fails closed: where the count cannot be read the account is taken for the last administrator.
unfoldable pub is_last_admin : User → Handler Bool
is_last_admin target db = elim (is_admin target.role) [
  | false ↦ (go false, db)
  | true ↦ let (r, db') = Users.count_active_admins target.id db in (go (no_others r), db')
]

unfoldable pub demotes_last_admin : User → Role → Handler Bool
unfolding is_last_admin
demotes_last_admin target new_role db = elim (not (is_admin target.role) || is_admin new_role) [
  | true ↦ (go false, db)
  | false ↦ is_last_admin target db
]

abbrev pub refuse_if : Bool → Reply → Handler (Unit {0})
refuse_if true r = reply r
refuse_if false r = pure tt

abbrev parsed : Option Role → Handler Role
parsed none = reply bad_role
parsed (some role) = pure role

unfoldable pub change_role : User → Time → Option String → Handler (Unit {0})
unfolding demotes_last_admin
change_role target now none = pure tt
change_role target now (some name) = do
  role ← parsed (parse_role name)
  last ← demotes_last_admin target role
  refuse_if last last_admin_demoted
  run (λ e. role_failed) (Users.update_role target.id role now)

abbrev guard_deactivation : Bool → User → Handler (Unit {0})
guard_deactivation true target = pure tt
guard_deactivation false target = do
  last ← is_last_admin target
  refuse_if last last_admin_deactivated

-- A deactivated account loses its sessions at once.
abbrev end_sessions : Bool → User → Time → Handler (Unit {0})
end_sessions true target now = pure tt
end_sessions false target now = do
  _ ← run (λ e. sessions_failed) (Sessions.revoke_all_for_user target.id none now)
  pure tt

unfoldable pub change_active : User → Time → Option Bool → Handler (Unit {0})
unfolding is_last_admin
change_active target now none = pure tt
change_active target now (some active) = do
  guard_deactivation active target
  run (λ e. active_failed) (Users.set_active target.id active now)
  end_sessions active target now

unfoldable pub change_block : User → Time → Option Bool → Handler (Unit {0})
change_block target now (some true) = run (λ e. unblock_failed) (Users.unblock target.id now)
change_block target now other = pure tt

abbrev pub changes_own : Uuid → User → UpdateRequest → Bool
changes_own actor_id target req =
    target.id == actor_id && (is_some req.role || is_some req.is_active)

-- The request on the account that was loaded.
unfoldable pub update_target : Uuid → UpdateRequest → Time → User → Handler Reply
update_target actor_id req now target = do
  refuse_if (changes_own actor_id target req) own_account
  change_role target now req.role
  change_active target now req.is_active
  change_block target now req.unblock
  u ← run (λ e. reload_failed) (Users.by_id target.id)
  pure (updated u)

unfoldable pub update : Uuid → Uuid → UpdateRequest → Time → Handler Reply
update actor_id target_id req now = do
  target ← run load_error (Users.by_id target_id)
  update_target actor_id req now target

unfoldable pub list : Handler Reply
list = do users ← run (λ e. list_failed) Users.list; pure (users_shown users)

abbrev hashed : Option String → Handler String
hashed none = reply create_failed
hashed (some hash) = pure hash

abbrev create_error : Error → Reply
create_error Error.email_in_use = email_taken
create_error other = create_failed

-- `id` and `now` are the row's identity and time; `hash` is what HashPassword yields.
unfoldable pub create :
    Unicode → (Text → Text) → Uuid → Time → Option String → CreateUserRequest → Handler Reply
create unicode lower id now hash req = do
  role ← parsed (parse_role req.role)
  refuse_if (not (validate_password unicode req.password req.email req.display_name)) weak_password
  password_hash ← hashed hash
  u ← run create_error (Users.create lower id req.email req.display_name password_hash role now)
  pure (created u)

-- The fields of the query; empty where one is missing.
pub record AuditQuery : Type 0 where
  pub action : Text
  pub result : Text
  pub limit : Text
  pub offset : Text
  pub actor_id : Text

-- `atoi` is strconv.Atoi, and `parse_uuid` uuid.Parse.
abbrev atoi_or : (Text → Option ℤ) → Text → ℤ → ℤ
atoi_or atoi s fallback =
    if is_empty s then fallback else elim (atoi s) [ none ↦ fallback | some n ↦ n ]

abbrev actor_asked : (Text → Option Uuid) → Text → Option Uuid
actor_asked parse_uuid raw = if is_empty raw then none else parse_uuid raw

unfoldable pub filter_of : (Text → Option ℤ) → (Text → Option Uuid) → AuditQuery → AuditFilter
filter_of atoi parse_uuid q = record {
  actor_id = actor_asked parse_uuid q.actor_id;
  action = q.action;
  result = q.result;
  since = none;
  until = none;
  limit = atoi_or atoi q.limit (pos 100);
  offset = atoi_or atoi q.offset (pos 0);
}

unfoldable pub list_audit : (Text → Option ℤ) → (Text → Option Uuid) → AuditQuery → Handler Reply
unfolding filter_of
list_audit atoi parse_uuid q = do
  events ← run (λ e. audit_failed) (Audit.list (filter_of atoi parse_uuid q))
  pure (events_shown events)
