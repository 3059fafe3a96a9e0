-- ===== src/HttpApi/Guards.antt =====
-- server/internal/httpapi/auth_middleware.go: the guards before the handlers. The proofs are in
-- HttpApi/Guards/Passing.
--
-- A guard lets a request through to the next handler or writes an error and ends. The reading of
-- cookies and headers is left out: a request carries the values, the empty text where one is
-- missing. Parsing a URL and folding case are the packages' of Go, the argument `Urls`.
pub mod Passing
use kubby.Prelude.{
  String, Bool, true, false, ◌&&◌, ◌||◌, not, Option, none, some, List, [], ◌∷◌, ◌++◌, str_eq,
  if◌then◌else◌, any, codes, Text, text_eq,
}
use kubby.Rbac.{Permission, can}
use kubby.Store.Models.{User, Session}
use kubby.Store.Db.{Db}
use kubby.Auth.Service.Types.{Primitives, Settings, Draw, AuthError, account_inactive}
use kubby.Auth.Service.Types
use kubby.Auth.Service.Login.{Resolved, satisfied, pending, resolve}

pub data Refusal : Type 0 where
  authentication_required mfa_is_required account_deactivated insufficient_permissions : Refusal
  read_only_mode origin_not_allowed bad_csrf_token : Refusal

pub data Passage (A : Type 0) : Type 0 where
  pass : A → Passage A
  refuse : Refusal → Passage A

pub data Method : Type 0 where
  get head options : Method
  other_method : Text → Method

unfoldable pub is_mutating : Method → Bool
is_mutating get = false
is_mutating head = false
is_mutating options = false
is_mutating (other_method name) = true

pub record Url : Type 0 where
  pub scheme : Text
  pub hostname : Text
  pub port : Text

pub record Urls : Type 0 where
  pub parse : Text → Option Url
  pub equal_fold : Text → Text → Bool

pub record Request : Type 0 where
  pub method : Method
  pub origin : Text
  pub session_cookie : String
  pub csrf_cookie : Text
  pub csrf_header : Text

abbrev pub is_blank : Text → Bool
is_blank [] = true
is_blank (c ∷ s) = false

unfoldable pub canonical_host : Url → Text
canonical_host u =
    if (text_eq u.scheme (codes "http") && text_eq u.port (codes "80"))
      || (text_eq u.scheme (codes "https") && text_eq u.port (codes "443"))
      || is_blank u.port
    then u.hostname
    else u.hostname ++ b':' ∷ u.port

module _ (urls : Urls) where
  abbrev matches : Url → Option Url → Bool
  matches public_url none = false
  matches public_url (some parsed) =
      urls.equal_fold parsed.scheme public_url.scheme
      && urls.equal_fold (canonical_host parsed) (canonical_host public_url)

  unfoldable pub same_origin : Text → Url → Bool
  unfolding canonical_host
  same_origin origin public_url = matches public_url (urls.parse origin)

  -- A candidate may be nil.
  abbrev pub is_candidate : Text → Option Url → Bool
  is_candidate origin none = false
  is_candidate origin (some candidate) = same_origin origin candidate

  unfoldable pub origin_allowed : Text → List (Option Url) → Bool
  unfolding same_origin
  origin_allowed origin trusted = any (is_candidate origin) trusted

  -- The comparison in constant time has the result of an ordinary one.
  unfoldable pub csrf_protect : Option Url → List (Option Url) → Request → Passage (Unit {0})
  unfolding is_mutating origin_allowed
  csrf_protect public_url allowed_origins r =
      if not (is_mutating r.method)
      then pass tt
      else if not (is_blank r.origin)
          && not (origin_allowed r.origin (public_url ∷ allowed_origins))
      then refuse origin_not_allowed
      else if is_blank r.csrf_cookie
          || is_blank r.csrf_header
          || not (text_eq r.csrf_cookie r.csrf_header)
      then refuse bad_csrf_token
      else pass tt

-- The token that the reply sets as a cookie, if any; `new_token` is none where it cannot be drawn.
unfoldable pub ensure_csrf_cookie : Option Text → Request → Option Text
unfolding is_mutating
ensure_csrf_cookie new_token r =
    if not (is_mutating r.method) && is_blank r.csrf_cookie then new_token else none

unfoldable pub require_writable : Bool → Request → Passage (Unit {0})
unfolding is_mutating
require_writable read_only r =
    if read_only && is_mutating r.method then refuse read_only_mode else pass tt

-- `principal` gives no user where no guard has set one.
unfoldable pub require_permission : Permission → Option User → Passage (Unit {0})
require_permission p none = refuse insufficient_permissions
require_permission p (some user) =
    if not (can user.role p) then refuse insufficient_permissions else pass tt

abbrev refusal_of : AuthError → Refusal
refusal_of account_inactive = account_deactivated
refusal_of other = authentication_required

-- The switch of `requireAuth`; `pending` is ErrMFARequired.
abbrev pub admit : Types.Result Resolved → Passage (Session × User)
admit (Types.ok (satisfied session user)) = pass (session, user)
admit (Types.ok (pending session user)) = refuse mfa_is_required
admit (Types.err e) = refuse (refusal_of e)

-- The same of `requirePendingMFA`, which lets every session through that `Resolve` hands out.
abbrev pub admit_pending : Types.Result Resolved → Passage (Session × User)
admit_pending (Types.ok (satisfied session user)) = pass (session, user)
admit_pending (Types.ok (pending session user)) = pass (session, user)
admit_pending (Types.err e) = refuse authentication_required

module _ (x : Primitives) (settings : Settings) (d : Draw) where
  unfoldable pub require_auth : Request → Db → Passage (Session × User) × Db
  require_auth r db =
      let (v, db') = resolve x settings d r.session_cookie db in
      if str_eq r.session_cookie "" then (refuse authentication_required, db) else (admit v, db')

  unfoldable pub require_pending_mfa : Request → Db → Passage (Session × User) × Db
  require_pending_mfa r db =
      let (v, db') = resolve x settings d r.session_cookie db in
      if str_eq r.session_cookie ""
      then (refuse authentication_required, db)
      else (admit_pending v, db')

abbrev then_next : {A B : Type 0} → Passage A → (A → Passage B × Db) → Db → Passage B × Db
then_next (pass a) next db = next a
then_next (refuse e) next db = (refuse e, db)

module _ (x : Primitives) (urls : Urls) (settings : Settings) (d : Draw) where
  abbrev permitted : Permission → Passage (Session × User) × Db → Passage (Session × User) × Db
  permitted p (refuse e, db) = (refuse e, db)
  permitted p (pass (session, user), db) =
      then_next (require_permission p (some user)) (λ _. (pass (session, user), db)) db

  -- The guards that NewRouter sets before a handler that needs a permission, in their order, but
  -- for the rate limit.
  unfoldable pub guarded :
      Option Url
      → List (Option Url)
      → Bool
      → Permission
      → Request
      → Db
      → Passage (Session × User) × Db
  unfolding csrf_protect require_writable require_permission require_auth
  guarded public_url allowed_origins read_only p r db =
      then_next (csrf_protect urls public_url allowed_origins r)
        (λ _.
          then_next (require_writable read_only r)
            (λ _. permitted p (require_auth x settings d r db)) db)
        db
