-- ===== src/HttpApi/UserAdmin/Creating.antt =====
-- What it takes to create an account (server/internal/httpapi/user_handlers.go).
use kubby.Prelude.{
  String, ◌≡◌, true, false, Option, some, [], ◌∷◌, ◌++◌, arith, any, Text, trim_space,
}
use kubby.Rbac.{parse_role}
use kubby.Store.Models.{User, Uuid, Time}
use kubby.Store.Db.{Db}
use kubby.Store.Users
use kubby.Store.Users.{same_email}
use kubby.Auth.Policy.{Unicode, validate_password}
use kubby.HttpApi.UserAdmin.{CreateUserRequest, created, go, create}

-- An account that the reply shows as created has the role that was asked for, was given a password that
-- meets the policy, has an address that no account had, and is the one row that was added.
create-ok :
    (unicode : Unicode) (lower : Text → Text) (id : Uuid) (now : Time) (hash : Option String)
    (req : CreateUserRequest) (db : Db) {u : User}
    → (create unicode lower id now hash req db).0 ≡ go (created u)
    → (parse_role req.role ≡ some u.role)
      × (validate_password unicode req.password req.email req.display_name ≡ true)
      × (hash ≡ some u.password_hash)
      × (u.email ≡ trim_space req.email)
      × (any (same_email lower u.email) db.users ≡ false)
      × ((create unicode lower id now hash req db).1.users ≡ db.users ++ (u ∷ []))
unfolding create Users.create
create-ok unicode lower id now hash req db {u} h = ground arith
