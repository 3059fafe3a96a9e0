-- ===== src/Rbac/Grants.antt =====
-- What the roles grant (server/internal/rbac/role.go).
use kubby.Prelude.{String, ◌≡◌, ◌↔◌, ◌⊎◌, true, none, some, arith, if◌then◌else◌, In}
use kubby.Rbac.{
  Role, admin, user, readonly, unknown, Permission, cluster_read, cluster_write, of_string,
  parse_role, can, permissions,
}

-- What the /me endpoint lists for a role is what the server checks: a permission stands in
-- `Permissions` exactly if `Can` grants it, for every role and every permission.
In-permissions : (r : Role) (p : Permission) → In p (permissions r) ↔ (can r p ≡ true)
unfolding can permissions
In-permissions admin p = ground arith
In-permissions user p = ground arith
In-permissions readonly p = ground arith
In-permissions (unknown s) p = ground arith

-- Parsing accepts exactly the strings whose role may read a cluster, and gives that role.
parse_role-can :
    (s : String)
    → parse_role s ≡ (if can (of_string s) cluster_read then some (of_string s) else none)
unfolding parse_role can
parse_role-can s = ground arith

-- A permission beyond reading and writing clusters is an administrator's alone, and only a role
-- that may read a cluster may write to it.
can_of_role :
    (r : Role) (p : Permission)
    → can r p ≡ true
    → ((r ≡ admin) ⊎ (p ≡ cluster_read) ⊎ (p ≡ cluster_write)) × (can r cluster_read ≡ true)
unfolding can
can_of_role r p h = ground arith
