-- ===== src/Tests/Writing.antt =====
-- Requests to write to a cluster, and tunnels into one, at concrete inputs.
use kubby.Prelude.{
  ℕ, ◌≡◌, refl, inl, inr, true, false, none, some, [], ◌∷◌, List, arith, pos, All, codes, Text,
  text_eq, text_lt, map, sort_by,
}
use kubby.Store.Registry.{access_write}
use kubby.Store.Db.{Db}
use kubby.Store.Clusters.{cluster_row, grant_row, by_id, access_level}
use kubby.Rbac.{can}
use kubby.Cluster.Types.{ResourceType, workload}
use kubby.HttpApi.Resources.{no_credential}
use kubby.HttpApi.Writes.{Calls, World, pod_object, drain_objects}
use kubby.HttpApi.Writes.Operations.{drain_node}
use kubby.Cluster.WriteGuard.{patch}
use kubby.Cluster.Drain
use kubby.Cluster.Drain.{
  Answers, answered, plan_drain, evict_planned, evict_all, plan_of, leaving, staying, stays,
  why_it_stays, owner_of_pod, entry_of,
}
use kubby.HttpApi.Writes.Manifests.{Yaml}
use kubby.HttpApi.Writes.Requests.{WriteCall, to_delete, to_drain, handle}
use kubby.HttpApi.Writes.Trail.{IsRecorded, handle-IsRecorded}
use kubby.HttpApi.Writes.Gate.{IsGuarded, handle-IsGuarded}
use kubby.HttpApi.Forwards.{
  session_of, ForwardSession, Registry, proxy, StartForward, Start, new_forward_session,
  start_forward,
}
use kubby.HttpApi.Forwards.Lifetime.{Use, listed, used, stopped, IsKept, run, run-IsKept}
use kubby.HttpApi.Forwards.Owners.{MayOpen, start_forward-MayOpen}
use kubby.Tests.Data.{guest, db}
use kubby.Tests.Registry.{staging}
use kubby.Tests.Writes.{api}

abbrev granted : Db
granted = record db {
  clusters = cluster_row 30 staging 5 ∷ [];
  grants = grant_row 2 30 1 access_write ∷ [];
}

-- A node with one pod, which it lets go.
abbrev lenient : Answers
lenient = record {
  to_patch = λ log. answered tt;
  to_list = λ log. answered (
      record {
        namespace = codes "prod";
        name = codes "web";
        owners = [];
        has_mirror_annotation = false;
        phase = codes "Running";
      }
      ∷ []);
  to_evict = λ log. answered tt;
}

abbrev calls : Calls
calls = record {
  api = λ c impersonated. api;
  check_error = λ e. no_credential;
  perform = λ c impersonated s sent. inr [];
  drains = λ c impersonated sent. lenient;
  drain_error = λ e. no_credential;
  drain_text = λ results. [];
  timestamp = λ sent. codes "20260101000000";
}

abbrev yaml : Yaml
yaml manifest = inr none

abbrev before : World
before = record { db = granted; asked = []; sent = []; audited = [] }

abbrev deletion : WriteCall
deletion = to_delete (codes "pods") "prod" "web" "orphan"

handle-IsGuarded_example :
    let after = (handle yaml calls false guest (some 30) deletion before).1 in
    (after.db.clusters ≡ granted.clusters)
    × (after.db.grants ≡ granted.grants)
    × All (IsGuarded calls false guest (some 30) granted.clusters granted.grants) after.sent
handle-IsGuarded_example = handle-IsGuarded calls false guest (some 30) yaml deletion before tt

abbrev node : Text
node = codes "n1"

-- A drain is reviewed for its node, and its pods are evicted without a review of their own.
drain_touches :
    ((handle yaml calls false guest (some 30) (to_drain "n1") before).1.asked
      ≡ record {
        group = "";
        version = "v1";
        resource = "nodes";
        namespace = "";
        name = "n1";
        verb = patch;
      }
        ∷ [])
    × (map (λ s. s.touched) (handle yaml calls false guest (some 30) (to_drain "n1") before).1.sent
        ≡ (record { group = ""; resource = "nodes"; namespace = []; name = node }
            ∷ pod_object (codes "prod") (codes "web")
            ∷ [])
          ∷ [])
unfolding handle drain_node drain_objects by_id can access_level text_eq Drain.drain plan_drain
    evict_planned evict_all plan_of leaving staying text_lt stays why_it_stays owner_of_pod entry_of
    sort_by
drain_touches = (refl, refl)

handle-IsRecorded_example : IsRecorded (handle yaml calls false guest (some 30) deletion before).1
handle-IsRecorded_example = handle-IsRecorded calls false guest (some 30) yaml deletion before refl

abbrev pods : ResourceType
pods = record {
  group = "";
  version = "v1";
  resource = "pods";
  kind = "Pod";
  namespaced = true;
  category = workload;
  default_sort = "";
  default_sort_descending = false;
  order = 1;
  hot = true;
}

abbrev tunnel : Text → ForwardSession
tunnel id = record {
  id = id;
  cluster_id = 30;
  type_key = codes "pods";
  namespace = "prod";
  name = "web";
  pod = codes "web";
  target_port = 80;
  url = [];
  started_at = 0;
  mode = proxy;
  local_port = 0;
  note = [];
  protocol = "http";
  kind = codes "pod";
  owner = 2;
  touched = 0;
}

abbrev tunnels : Registry
tunnels = record { sessions = tunnel (codes "a") ∷ tunnel (codes "b") ∷ []; closed = [] }

abbrev later : ℕ
later = 1800000000000

abbrev uses : List (ℕ × Use)
uses =
    (5, used (codes "b"))
    ∷ (later, listed 30 2)
    ∷ (later, stopped (codes "b") 2)
    ∷ (later, stopped (codes "a") 3)
    ∷ []

run-IsKept_example : IsKept (codes "a") 0 (tunnel (codes "a")) (run uses tunnels)
unfolding text_eq session_of
run-IsKept_example =
    run-IsKept uses (codes "a") 0 (tunnel (codes "a")) tunnels refl (0, omega arith, refl)

abbrev body : StartForward
body = record {
  type_key = [];
  namespace = "prod";
  name = "web";
  port = pos 80;
  https = false;
  by_proxy = true;
}

abbrev drawn : Start
drawn = record {
  id = codes "c";
  now = 9;
  pod = inr (codes "web");
  local = inl [];
  host = codes "localhost";
  decimal = λ n. n ∷ [];
}

abbrev session : ForwardSession
session =
    new_forward_session drawn (record body { type_key = codes "pods" }) (cluster_row 30 staging 5) 2
      (codes "web") 80

start_forward-MayOpen_example :
    (guest.id ≡ guest.id)
    × MayOpen calls false guest (some 30) granted.clusters granted.grants body 30
    × (session_of
          (codes "c")
          (start_forward calls false guest (some 30) drawn body before tunnels).2.sessions
        ≡ some session)
unfolding start_forward new_forward_session by_id can access_level
start_forward-MayOpen_example =
    start_forward-MayOpen calls false guest (some 30) drawn body before tunnels {s = session} refl
