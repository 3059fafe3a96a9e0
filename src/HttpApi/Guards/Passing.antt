-- ===== src/HttpApi/Guards/Passing.antt =====
-- What reaches a handler (server/internal/httpapi/auth_middleware.go, router.go).
use kubby.Prelude.{
  ◌<◌, ◌≡◌, ◌↔◌, ◌⊎◌, Bool, true, false, ◌&&◌, ◌||◌, Option, none, some, List, ◌∷◌, arith,
  text_eq_iff,
}
use kubby.Rbac.{Permission, can}
use kubby.Store.Models.{User, Session}
use kubby.Store.Db.{Db, find}
use kubby.Store.Sessions.{has_hash}
use kubby.Store.Users.{has_id}
use kubby.Auth.Service.Types.{Primitives, Settings, Draw, ok}
use kubby.Auth.Service.Login.{satisfied, resolve}
use kubby.Auth.Service.Sound.{resolve-satisfied}
use kubby.HttpApi.Guards.{
  pass, is_mutating, Url, Urls, Request, is_blank, origin_allowed, csrf_protect, require_writable,
  require_permission, require_auth, guarded,
}

-- A request passes exactly if its method changes nothing, or its origin is missing or trusted and
-- its cookie and its header hold the same token, which is not empty.
csrf_protect-passes :
    (urls : Urls) (public_url : Option Url) (allowed_origins : List (Option Url)) (r : Request)
    → (csrf_protect urls public_url allowed_origins r ≡ pass tt) ↔ (
        (is_mutating r.method ≡ false)
        ⊎ (((is_blank r.origin || origin_allowed urls r.origin (public_url ∷ allowed_origins))
              ≡ true)
            × (is_blank r.csrf_header ≡ false)
            × (r.csrf_cookie ≡ r.csrf_header)))
unfolding csrf_protect
csrf_protect-passes urls public_url allowed_origins r =
    ground (arith, text_eq_iff r.csrf_cookie r.csrf_header)

module _ (x : Primitives) (settings : Settings) (d : Draw) where
  require_auth-satisfied :
      (r : Request) (db : Db) {s : Session} {u : User}
      → (require_auth x settings d r db).0 ≡ pass (s, u)
      → (resolve x settings d r.session_cookie db).0 ≡ ok (satisfied s u)
  unfolding require_auth
  require_auth-satisfied r db h = ground arith

module _ (x : Primitives) (urls : Urls) (settings : Settings) (d : Draw) where
  guarded-passes :
      (public_url : Option Url) (allowed_origins : List (Option Url)) (read_only : Bool)
      (p : Permission) (r : Request) (db : Db) {s : Session} {u : User}
      → (guarded x urls settings d public_url allowed_origins read_only p r db).0 ≡ pass (s, u)
      → (csrf_protect urls public_url allowed_origins r ≡ pass tt)
        × ((read_only && is_mutating r.method) ≡ false)
        × (can u.role p ≡ true)
        × ((require_auth x settings d r db).0 ≡ pass (s, u))
  unfolding guarded require_permission require_writable
  guarded-passes public_url allowed_origins read_only p r db h = ground arith

  -- A request reaches a handler behind a permission only with a session row for its cookie that is
  -- neither revoked nor expired nor in want of a second factor; the user is the account that this row
  -- belongs to, is active and has a role that grants the permission, and, if the method changes anything, only where Kubby is not read-only
  -- and the CSRF check passed.
  pub guarded_sound :
      (public_url : Option Url) (allowed_origins : List (Option Url)) (read_only : Bool)
      (p : Permission) (r : Request) (db : Db) {s : Session} {u : User}
      → (guarded x urls settings d public_url allowed_origins read_only p r db).0 ≡ pass (s, u)
      → (find (has_hash (x.hash_token r.session_cookie)) db.sessions ≡ some s)
        × (s.revoked_at ≡ none)
        × (d.now < s.expires_at)
        × (s.mfa_satisfied ≡ true)
        × (u.is_active ≡ true)
        × (find (has_id s.user_id) db.users ≡ some u)
        × (can u.role p ≡ true)
        × ((read_only && is_mutating r.method) ≡ false)
        × (csrf_protect urls public_url allowed_origins r ≡ pass tt)
  guarded_sound public_url allowed_origins read_only p r db h =
      let (csrf, writable, granted, admitted) =
        guarded-passes public_url allowed_origins read_only p r db h in
      let (row, live, in_time, factor, active, own) =
        resolve-satisfied x settings d r.session_cookie db
          (require_auth-satisfied x settings d r db admitted) in
      (row, live, in_time, factor, active, own, granted, writable, csrf)
