-- ===== src/Tests/Pods.antt =====
-- Diffs, drains, containers and pods at concrete inputs.
use kubby.Prelude.{
  ℕ, ◌≤◌, ◌≡◌, refl, ◌≢◌, inl, inr, true, false, none, List, [], ◌∷◌, ◌++◌, arith, length, codes,
  Text, text_eq, text_eq_iff, split_on,
}
use kubby.Cluster.Diff.{context, added, removed, trim_newlines, split_lines, line, diff_text}
use kubby.Cluster.Diff.Shortest.{IsSubsequence}
use kubby.Cluster.Diff.Table.{kept_lines, diff_text-longest}
use kubby.Cluster.Drain.{
  EvictResult, NodePod, set_unschedulable, list_pods, answered, refused, Answers, plan_of, drain,
}
use kubby.Cluster.Drain.Evictions.{IsReported, evictions, drain-calls}
use kubby.K8s.Containers.{app, Classifier}
use kubby.K8s.Restarts.{ContainerRestarts}
use kubby.K8s.Trouble.{ContainerStatus, Pod}

abbrev before : Text
before = codes "a" ++ (10 ∷ codes "b" ++ (10 ∷ codes "c"))

abbrev after : Text
after = codes "b" ++ (10 ∷ codes "d" ++ (10 ∷ codes "c"))

before_ne_after : before ≢ after
unfolding text_eq
before_ne_after e = let h : false ≡ true = (text_eq_iff before after).1 e in ground arith

diff_text-longest_example :
    IsSubsequence (kept_lines (diff_text before after)) (split_lines before)
    × IsSubsequence (kept_lines (diff_text before after)) (split_lines after)
    × (2 ≤ length (kept_lines (diff_text before after)))
unfolding split_lines trim_newlines split_on
diff_text-longest_example =
    diff_text-longest before after (codes "b" ∷ codes "c" ∷ []) before_ne_after
      (inr (inl (refl, inl (refl, tt)))) (inl (refl, inr (inl (refl, tt))))

abbrev three : List Text
three = codes "a" ∷ codes "b" ∷ codes "c" ∷ []

abbrev swapped : List Text
swapped = codes "b" ∷ codes "d" ∷ codes "c" ∷ []

-- A diff as it is shown.
diff_shown :
    diff_text before after
    ≡ line removed (codes "a")
      ∷ line context (codes "b")
      ∷ line added (codes "d")
      ∷ line context (codes "c")
      ∷ []
unfolding diff_text
diff_shown = refl

abbrev daemon : NodePod
daemon = record {
  namespace = codes "kube-system";
  name = codes "proxy";
  owners = record { name = codes "ds"; kind = codes "DaemonSet"; is_controller = true } ∷ [];
  has_mirror_annotation = false;
  phase = codes "Running";
}

abbrev web : NodePod
web = record {
  namespace = codes "shop";
  name = codes "web";
  owners = record { name = codes "rs"; kind = codes "ReplicaSet"; is_controller = true } ∷ [];
  has_mirror_annotation = false;
  phase = codes "Running";
}

abbrev node_pods : List NodePod
node_pods = daemon ∷ web ∷ []

-- A cluster whose disruption budgets refuse every eviction.
abbrev strict : Answers
strict = record {
  to_patch = λ log. answered tt;
  to_list = λ log. answered node_pods;
  to_evict = λ log. refused (codes "a budget holds it");
}

drain-calls_example :
    ((drain strict (codes "n1") []).1
      ≡ set_unschedulable (codes "n1") true
        ∷ list_pods (codes "n1")
        ∷ evictions ((plan_of (codes "n1") node_pods).evict))
    × ((rs : List EvictResult) × ((drain strict (codes "n1") []).0 ≡ answered rs)
        × IsReported strict
            (set_unschedulable (codes "n1") true ∷ list_pods (codes "n1") ∷ [])
            ((plan_of (codes "n1") node_pods).evict)
            rs)
drain-calls_example = drain-calls strict (codes "n1") [] node_pods refl refl

abbrev classifier : Classifier
classifier = record { sidecars = codes "envoy" ∷ [] }

abbrev pod_containers : List Text
pod_containers = codes "envoy" ∷ codes "web" ∷ codes "api" ∷ []

abbrev restarts : Text → ℕ → ContainerRestarts
restarts name count = record { name = name; role = app; count = count; last = none }

abbrev running : ContainerStatus
running = record { name = codes "web"; waiting = none; terminated = none; last_terminated = none }

abbrev settled_pod : Pod
settled_pod = record {
  is_deleting = false;
  reason = [];
  phase = codes "Running";
  message = [];
  conditions = [];
  containers = running ∷ [];
  init_containers = [];
}
