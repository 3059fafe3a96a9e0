-- ===== src/HttpApi/Forwards.antt =====
-- server/internal/httpapi/forward_handlers.go: the tunnels into clusters, and who they belong to. The proofs
-- are in HttpApi/Forwards/Lifetime and Owners.
--
-- The registry is the sessions in the map, with the identities of those that were closed, newest last. A
-- tunnel, its proxy and its listening socket are left out: `close` is noted. The headers of a proxied
-- answer and the port of the host are not modelled; `decimal` writes a number.
pub mod Lifetime
pub mod Owners
use kubby.Prelude.{
  ℕ, ◌+◌, String, ◌⊎◌, inl, inr, Bool, true, false, ◌&&◌, ◌||◌, not, Option, none, some, List, [],
  ◌∷◌, ◌++◌, map, ltb, ◌==◌, if◌then◌else◌, ℤ, pos, negsuc, codes, Text, text_eq, is_empty,
}
use mathlib.Core.List.{reverse}
use kubby.Store.Models.{Uuid, Time, Duration, User}
use kubby.Store.Registry.{Cluster}
use kubby.Cluster.Types.{ResourceType, lookup_type}
use kubby.Cluster.WriteGuard.{create}
use kubby.HttpApi.Resources.{CallError, Refusal, refused, resolve_cluster}
use kubby.Store.Flow.{Flow, go, stop}
use kubby.HttpApi.Writes.{
  port_forwarded, Reply, World, Handler, pure, leave, ◌>>=◌, ◌>>◌, lift, refuse, Calls, request_for,
  authorise_write, record_write, entry, cluster_error, known,
}

abbrev pub idle_limit : Duration
idle_limit = 1800000000000

pub data Mode : Type 0 where
  port proxy : Mode

pub record ForwardSession : Type 0 where
  pub id : Text
  pub cluster_id : Uuid
  pub type_key : Text
  pub namespace : String
  pub name : String
  pub pod : Text
  pub target_port : ℕ
  pub url : Text
  pub started_at : Time
  pub mode : Mode
  pub local_port : ℕ
  pub note : Text
  pub protocol : String
  pub kind : Text
  pub owner : Uuid
  pub touched : Time

pub record Registry : Type 0 where
  pub sessions : List ForwardSession
  pub closed : List Text

abbrev pub is_idle : Time → ForwardSession → Bool
is_idle now s = ltb (s.touched + idle_limit) now

unfoldable pub kept : Time → List ForwardSession → List ForwardSession
kept now [] = []
kept now (s ∷ ss) = let rest = kept now ss in if is_idle now s then rest else s ∷ rest

unfoldable pub ended_by : Time → List ForwardSession → List Text
ended_by now [] = []
ended_by now (s ∷ ss) = let rest = ended_by now ss in if is_idle now s then s.id ∷ rest else rest

unfoldable pub expire : Time → Registry → Registry
unfolding kept ended_by
expire now reg = record {
  sessions = kept now reg.sessions;
  closed = reg.closed ++ ended_by now reg.sessions;
}

-- `sessions[id] = session`
unfoldable pub put : ForwardSession → List ForwardSession → List ForwardSession
unfolding text_eq
put new [] = new ∷ []
put new (s ∷ ss) = let rest = put new ss in if text_eq s.id new.id then new ∷ ss else s ∷ rest

unfoldable pub add : Time → ForwardSession → Registry → Registry
unfolding expire put
add now session reg =
    let reg' = expire now reg in record reg' { sessions = put session reg'.sessions }

unfoldable pub session_of : Text → List ForwardSession → Option ForwardSession
unfolding text_eq
session_of id [] = none
session_of id (s ∷ ss) = let rest = session_of id ss in if text_eq s.id id then some s else rest

unfoldable pub touch : Time → Text → List ForwardSession → List ForwardSession
unfolding text_eq
touch now id [] = []
touch now id (s ∷ ss) =
    (if text_eq s.id id then record s { touched = now } else s) ∷ touch now id ss

abbrev pub owned : Uuid → Option ForwardSession → Option ForwardSession
owned owner none = none
owned owner (some s) = if s.owner == owner then some s else none

abbrev pub touched_at : Time → Registry → Option ForwardSession → Option ForwardSession × Registry
touched_at now reg none = (none, reg)
touched_at now reg (some s) =
    (some (record s { touched = now }), record reg { sessions = touch now s.id reg.sessions })

-- The session, where it is this reader's, which it then is in use by.
unfoldable pub get : Time → Text → Uuid → Registry → Option ForwardSession × Registry
unfolding expire session_of touch
get now id owner reg =
    let reg' = expire now reg in touched_at now reg' (owned owner (session_of id reg'.sessions))

unfoldable pub of_reader : Uuid → Uuid → List ForwardSession → List ForwardSession
of_reader cluster_id owner [] = []
of_reader cluster_id owner (s ∷ ss) =
    let rest = of_reader cluster_id owner ss in
    if s.owner == owner && s.cluster_id == cluster_id then s ∷ rest else rest

unfoldable pub list : Time → Uuid → Uuid → Registry → List ForwardSession × Registry
unfolding expire of_reader
list now cluster_id owner reg =
    let reg' = expire now reg in (of_reader cluster_id owner reg'.sessions, reg')

-- `delete(sessions, id)`
unfoldable pub without : Text → List ForwardSession → List ForwardSession
unfolding text_eq
without id [] = []
without id (s ∷ ss) = let rest = without id ss in if text_eq s.id id then rest else s ∷ rest

abbrev pub closing : Registry → Option ForwardSession → Bool × Registry
closing reg none = (false, reg)
closing reg (some s) =
    (true, record { sessions = without s.id reg.sessions; closed = reg.closed ++ (s.id ∷ []) })

unfoldable pub remove : Text → Uuid → Registry → Bool × Registry
unfolding session_of without
remove id owner reg = closing reg (owned owner (session_of id reg.sessions))

abbrev behind_slash : Text → Option Text
behind_slash [] = none
behind_slash (c ∷ s) = let rest = behind_slash s in if c == b'/' then some s else rest

abbrev drop_s : Text → Text
drop_s [] = []
drop_s (c ∷ s) = if c == b's' then s else c ∷ s

-- `strings.TrimSuffix(…, "s")` of what stands behind the first slash.
unfoldable pub kind_of : Text → Text
kind_of type_key = if is_empty type_key then codes "pod" else elim (behind_slash type_key) [
  | none ↦ reverse (drop_s (reverse type_key))
  | some kind ↦ reverse (drop_s (reverse kind))
]

pub record StartForward : Type 0 where
  pub type_key : Text
  pub namespace : String
  pub name : String
  pub port : ℤ
  pub https : Bool
  pub by_proxy : Bool

-- What starting draws and asks: a fresh UUID, the clock, the pod behind the object, and the local port
-- that could be opened, or the text of the error.
pub record Start : Type 0 where
  pub id : Text
  pub now : Time
  pub pod : CallError ⊎ Text
  pub local : Text ⊎ ℕ
  pub host : Text
  pub decimal : ℕ → Text

abbrev scheme_of : Bool → String
scheme_of https = if https then "https" else "http"

abbrev proxied : Start → StartForward → Cluster → Uuid → Text → ℕ → ForwardSession
proxied d body c owner pod number = record {
  id = d.id;
  cluster_id = c.id;
  type_key = body.type_key;
  namespace = body.namespace;
  name = body.name;
  pod = pod;
  target_port = number;
  url = codes "/api/v1/forward/" ++ (d.id ++ codes "/");
  started_at = d.now;
  mode = Mode.proxy;
  local_port = 0;
  note = [];
  protocol = scheme_of body.https;
  kind = kind_of body.type_key;
  owner = owner;
  touched = d.now;
}

abbrev with_local : Start → StartForward → Text ⊎ ℕ → ForwardSession → ForwardSession
with_local d body (inl e) s = record s {
  note = codes "No local port could be opened, so this is proxied through Kubby: " ++ e;
}
with_local d body (inr n) s = record s {
  mode = Mode.port;
  local_port = n;
  url =
      codes (scheme_of body.https)
      ++ (codes "://" ++ (d.host ++ (b':' ∷ (d.decimal n ++ codes "/"))));
}

unfoldable pub new_forward_session :
    Start → StartForward → Cluster → Uuid → Text → ℕ → ForwardSession
unfolding kind_of
new_forward_session d body c owner pod number =
    let s = proxied d body c owner pod number in
    if body.by_proxy then s else with_local d body d.local s

-- The port, where it is between 1 and 65535.
abbrev pub forwarded_port : ℤ → Option ℕ
forwarded_port (pos n) = if n == 0 || ltb 65535 n then none else some n
forwarded_port (negsuc n) = none

abbrev or_pods : StartForward → StartForward
or_pods body = if is_empty body.type_key then record body { type_key = codes "pods" } else body

-- What a request to start one ends in.
pub data Started : Type 0 where
  opened : ForwardSession → Started
  not_opened : Reply → Started

module _ (calls : Calls) (global_read_only : Bool) (user : User) (param : Option Uuid) where
  abbrev port_or_refuse : Option ℕ → Handler ℕ
  port_or_refuse none = refuse 400 "a port between 1 and 65535 is required"
  port_or_refuse (some n) = pure n

  abbrev resolved :
      Start → StartForward → ResourceType → Cluster → ℕ → CallError ⊎ Text → Handler ForwardSession
  resolved d body type c number (inl e) = do
    record_write calls global_read_only user param (
        entry calls global_read_only user param port_forwarded false c type body.namespace
          (codes body.name) none)
    leave (cluster_error e)
  resolved d body type c number (inr pod) = do
    record_write calls global_read_only user param (
        entry calls global_read_only user param port_forwarded true c type body.namespace
          (codes body.name) none)
    pure (new_forward_session d body c user.id pod number)

  unfoldable pub opening : Start → StartForward → Handler ForwardSession
  unfolding authorise_write lookup_type new_forward_session
  opening d body = do
    number ← port_or_refuse (forwarded_port body.port)
    type ← known (lookup_type (codes "pods")) 500 "pods are not registered"
    let request = request_for type body.namespace body.name create
    c ← authorise_write calls global_read_only user param request
    resolved d (or_pods body) type c number d.pod

  unfoldable pub start_forward :
      Start → StartForward → World → Registry → Started × World × Registry
  unfolding opening add
  start_forward d body w reg =
      let (r, w') = opening d body w in
      elim r [ go s ↦ (opened s, w', add d.now s reg) | stop e ↦ (not_opened e, w', reg) ]

  -- The sessions of the reader in a cluster.
  unfoldable pub list_forwards :
      Time → World → Registry → Flow Reply (List ForwardSession) × World × Registry
  unfolding list resolve_cluster
  list_forwards now w reg =
      let (r, w') = lift (resolve_cluster user param) w in
      elim r [
        | stop e ↦ (stop e, w', reg)
        | go c ↦ let (ss, reg') = list now c.id user.id reg in (go ss, w', reg')
      ]

abbrev or_missing : {A : Type 0} → String → Option A → Refusal ⊎ A
or_missing message none = inl (refused 404 message)
or_missing message (some a) = inr a

-- The session whose proxy answers.
unfoldable pub serve_forward : Time → Text → User → Registry → (Refusal ⊎ ForwardSession) × Registry
unfolding get
serve_forward now id user reg =
    let (s, reg') = get now id user.id reg in (or_missing "this forward is closed" s, reg')

unfoldable pub stop_forward : Text → User → Registry → Option Refusal × Registry
unfolding remove
stop_forward id user reg =
    let (done, reg') = remove id user.id reg in
    (if done then none else some (refused 404 "no such forward"), reg')
