-- ===== src/Rbac.antt =====
-- server/internal/rbac/role.go: the roles and what each grants. The proofs are in Rbac/Grants.
--
-- `Role` is a Go string, and a stored role may be any string: `unknown` holds every string that is
-- none of the three constants. A lookup of an absent key in the Go map gives false.
pub mod Grants
use kubby.Prelude.{
  String, Bool, true, false, ◌&&◌, List, [], ◌∷◌, str_eq, if◌then◌else◌, Option, none, some,
}

pub data Role : Type 0 where
  admin user readonly : Role
  unknown : String → Role

pub data Permission : Type 0 where
  cluster_read cluster_write cluster_manage user_manage audit_read settings_write : Permission

-- The conversion `Role(s)`.
unfoldable pub of_string : String → Role
of_string s =
    if str_eq s "admin"
    then admin
    else if str_eq s "user"
    then user
    else if str_eq s "readonly"
    then readonly
    else unknown s

abbrev known : Role → Option Role
known admin = some admin
known user = some user
known readonly = some readonly
known (unknown s) = none

unfoldable pub parse_role : String → Option Role
unfolding of_string
parse_role s = known (of_string s)

-- The table `rolePermissions`.
unfoldable pub role_permissions : Role → Permission → Bool
role_permissions admin p = true
role_permissions user cluster_read = true
role_permissions user cluster_write = true
role_permissions user _ = false
role_permissions readonly cluster_read = true
role_permissions readonly _ = false
role_permissions (unknown s) p = false

unfoldable pub can : Role → Permission → Bool
unfolding role_permissions
can r p = role_permissions r p

abbrev pub all_permissions : List Permission
all_permissions =
    cluster_read ∷ cluster_write ∷ cluster_manage ∷ user_manage ∷ audit_read ∷ settings_write ∷ []

-- The loop of `Permissions` over the fixed order.
abbrev collect : (Permission → Bool) → List Permission → List Permission
collect granted [] = []
collect granted (p ∷ ps) = let rest = collect granted ps in if granted p then p ∷ rest else rest

unfoldable pub permissions : Role → List Permission
unfolding role_permissions
permissions r = collect (role_permissions r) all_permissions

abbrev pub is_admin : Role → Bool
is_admin admin = true
is_admin _ = false

unfoldable pub requires_mfa : Role → Bool → Bool
requires_mfa r enforce_for_admin = enforce_for_admin && is_admin r
