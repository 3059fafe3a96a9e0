-- ===== src/HttpApi/Clusters/Reach.antt =====
-- Which clusters a user reaches through the handlers of server/internal/httpapi/cluster_handlers.go.
use mathlib.Core.Path.{subst}
use kubby.Prelude.{
  ◌≡◌, refl, ◌⊎◌, inl, inr, Bool, true, false, ◌&&◌, not, Option, some, List, [], ◌∷◌, map, arith,
  ==_iff, Option-cases, any, All, In, Text, text_eq, text_eq_refl, is_empty,
}
use kubby.Crypto.{Randomness}
use kubby.Cluster.Service.{Service}
use kubby.Store.Models.{User, Uuid, Time}
use kubby.Store.Registry.{Cluster, access_write}
use kubby.Store.Db.{Result-cases, find-holds, Db, find}
use kubby.Store.Flow.{◌>>=◌, Flow, go, stop}
use kubby.Store.Clusters.{is_cluster, by_id, access_level, is_grant, list_for_user}
use kubby.Store.Clusters.Access.{levels, In-list_for_user}
use kubby.HttpApi.Clusters.{
  Reply, clusters_shown, Handler, missing, is_manager, granted_level, level_for, resolve,
  level_shown, level_of_cluster, with_levels, list_clusters, put_grant_on, put_grant,
}
use kubby.HttpApi.Clusters.Changes.{
  UpdateRequest, put_credential_on, put_credential, update_settings_on, update_cluster_settings,
  remove_on, remove,
}

-- What the level has to be for what is needed.
abbrev pub suffices : Text → Text → Bool
suffices needed level =
    not (is_empty level) && not (text_eq needed access_write && not (text_eq level access_write))

-- A cluster is handed to a handler only if it is registered and the caller manages clusters or holds a
-- grant on it whose level is enough for what the handler needs; the level is that of the grant.
pub resolve_sound :
    (u : User) (id : Uuid) (needed : Text) (db : Db) {c : Cluster} {level : Text}
    → (resolve u (some id) needed db).0 ≡ go (c, level)
    → (find (is_cluster id) db.clusters ≡ some c)
      × (((is_manager u ≡ true) × (level ≡ access_write))
          ⊎ ((is_manager u ≡ false)
              × (level ≡ levels db u.id c.id)
              × (suffices needed level ≡ true)))
unfolding resolve level_for granted_level by_id access_level
resolve_sound u id needed db {c} {level} h = ground arith

-- To a caller who neither manages clusters nor holds a grant on it, a registered cluster and one that
-- does not exist give the same reply where the database answers.
resolve-ungranted :
    (u : User) (id : Uuid) (needed : Text) (db : Db)
    → is_manager u ≡ false
    → levels db u.id id ≡ []
    → db.faults ≡ []
    → (resolve u (some id) needed db).0 ≡ stop missing
unfolding resolve level_for granted_level by_id access_level
resolve-ungranted u id needed db m l f = elim (Option-cases (find (is_cluster id) db.clusters)) [
  | inl e ↦ ground (arith, e)
  | inr (c, e) ↦
      let same : c.id ≡ id = (==_iff c.id id).0 (find-holds (is_cluster id) db.clusters e) in
      let level : levels db u.id c.id ≡ [] = rw same l in ground (arith, e, level)
]

-- The tables that hold what is known of clusters.
abbrev pub IsKept : Db → Db → Type 0
IsKept old new =
    (new.clusters ≡ old.clusters) × (new.credentials ≡ old.credentials) × (new.grants ≡ old.grants)

abbrev is_stopped : {A : Type 0} → Flow Reply A → Bool
is_stopped (go a) = false
is_stopped (stop r) = true

resolve-denied :
    (u : User) (id : Uuid) (db : Db)
    → is_manager u ≡ false
    → text_eq (levels db u.id id) access_write ≡ false
    → IsKept db ((resolve u (some id) access_write db).1)
      × (is_stopped ((resolve u (some id) access_write db).0) ≡ true)
unfolding resolve level_for granted_level by_id access_level
resolve-denied u id db m l = elim (Option-cases (find (is_cluster id) db.clusters)) [
  | inl e ↦ ground (arith, e)
  | inr (c, e) ↦
      let same : c.id ≡ id = (==_iff c.id id).0 (find-holds (is_cluster id) db.clusters e) in
      let level : text_eq (levels db u.id c.id) access_write ≡ false = rw same l in
      let itself : text_eq access_write access_write ≡ true = text_eq_refl access_write in
      ground (arith, e, level, itself)
]

-- What a handler does behind `resolve` is not reached.
denied-IsKept :
    {A : Type 0} (u : User) (id : Uuid) (db : Db) (k : Cluster × Text → Handler A)
    → is_manager u ≡ false
    → text_eq (levels db u.id id) access_write ≡ false
    → IsKept db ((resolve u (some id) access_write >>= k) db).1
denied-IsKept u id db k m l = ground (arith, resolve-denied u id db m l)

-- Without the management of clusters and without the level for writing on it, no handler that changes a
-- cluster, its grants or its credential changes anything.
read_only-IsKept :
    (svc : Service) (collates : Text → Text → Bool) (u : User) (id : Uuid) (db : Db)
    (target : Option Uuid) (level raw context_name : Text) (req : UpdateRequest)
    (r1 r2 : Randomness) (now : Time)
    → is_manager u ≡ false
    → text_eq (levels db u.id id) access_write ≡ false
    → IsKept db ((remove u (some id) db).1)
      × IsKept db ((put_grant collates u (some id) target level db).1)
      × IsKept db ((put_credential svc u (some id) raw context_name r1 now db).1)
      × IsKept db ((update_cluster_settings svc u (some id) req r1 r2 now db).1)
unfolding remove put_grant put_credential update_cluster_settings
read_only-IsKept svc collates u id db target level raw context_name req r1 r2 now m l = (
  denied-IsKept u id db remove_on m l,
  denied-IsKept u id db (put_grant_on collates u (some id) target level) m l,
  denied-IsKept u id db (put_credential_on svc raw context_name r1 now) m l,
  denied-IsKept u id db (update_settings_on svc req r1 r2 now) m l,
)

with_levels-clusters :
    (u : User) (cs : List Cluster) (db : Db)
    → (shown : List (Cluster × Text)) × ((with_levels u cs db).0 ≡ go shown)
      × (map (λ p. p.0) shown ≡ cs)
unfolding with_levels
with_levels-clusters u [] db = ([], refl, refl)
with_levels-clusters u (c ∷ cs) db =
    let (shown, e, m) = with_levels-clusters u cs ((level_of_cluster u c db).1) in
    ((c, level_shown ((level_of_cluster u c db).0)) ∷ shown, ground (arith, e), rw m refl)

All-firsts :
    (P : Cluster → Type 0) (shown : List (Cluster × Text)) (cs : List Cluster)
    → map (λ p. p.0) shown ≡ cs
    → ((c : Cluster) → In c cs → P c)
    → All (λ p. P p.0) shown
All-firsts P [] cs e f = tt
All-firsts P (p ∷ shown) cs e f = (
  f p.0 (subst (In p.0) e (inl refl)),
  All-firsts P shown (map (λ q. q.0) shown) refl (λ c h. f c (subst (In c) e (inr h))),
)

-- The cluster is registered and the user holds a grant on it.
abbrev pub IsGranted : User → Db → Cluster × Text → Type 0
IsGranted u db p = In p.0 db.clusters × (any (is_grant u.id p.0.id) db.grants ≡ true)

-- What is listed to a caller who does not manage clusters are registered clusters on which the caller
-- holds a grant.
list_clusters-IsGranted :
    (collates : Text → Text → Bool) (u : User) (db : Db) {shown : List (Cluster × Text)}
    → is_manager u ≡ false
    → (list_clusters collates u db).0 ≡ go (clusters_shown shown)
    → All (IsGranted u db) shown
unfolding list_clusters
list_clusters-IsGranted collates u db {shown} m h =
    elim (Result-cases ((list_for_user collates u.id db).0)) [
      | inl (cs, e) ↦
          let (s, g, firsts) = with_levels-clusters u cs ((list_for_user collates u.id db).1) in
          let same : s ≡ shown = ground (arith, m, e, g, h) in
          rw (← same) (
            All-firsts (λ c. In c db.clusters × (any (is_grant u.id c.id) db.grants ≡ true)) s cs
              firsts (λ c i. (In-list_for_user collates u.id db c e).0 i))
      | inr (x, e) ↦ absurd (ground (arith, m, e, h))
    ]
