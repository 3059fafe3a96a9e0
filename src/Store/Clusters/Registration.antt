-- ===== src/Store/Clusters/Registration.antt =====
-- Registering and changing a cluster (server/internal/store/clusters.go): what is stored, and that the
-- rows stay distinct.
use mathlib.Core.List.{append-nil}
use kubby.Prelude.{
  ◌≡◌, refl, ◌∙◌, inl, inr, Bool, true, false, ◌&&◌, Option, none, some, List, [], ◌∷◌, ◌++◌, arith,
  ◌==◌, if◌then◌else◌, Bool-cases, any, All, All-append, Text, text_eq, text_eq_comm,
}
use kubby.Store.Models.{Uuid, Time, Bytes}
use kubby.Store.Registry.{Cluster, CredentialRow}
use kubby.Store.Db.{
  ok, Db, Query, ◌>>=◌, transaction, find, update_where, settled, update_where-none,
}
use kubby.Store.Clusters.Settings.{
  coalesce, takes_name, ClusterSettings, column, update_settings, with_settings, metrics_password,
  set_metrics_password,
}
use kubby.Store.Clusters.{
  is_cluster, of_cluster, NewCluster, cluster_row, credential_row, insert_credential, same_name,
  insert_cluster, create_with_id,
}

-- The rows that `CreateWithID` adds for a credential.
abbrev pub new_credentials : Uuid → Text → Bytes → List CredentialRow
new_credentials id context_name [] = []
new_credentials id context_name (b ∷ enc) = credential_row id context_name (b ∷ enc) ∷ []

-- The registration of `n` with the given bytes for its credential.
abbrev register : (Text → Text) → Uuid → NewCluster → Time → Bytes → Query Cluster
register lower id n now enc =
    transaction do c ← insert_cluster lower id n now; insert_credential enc n.context_name c

register_atomic :
    (lower : Text → Text) (id : Uuid) (n : NewCluster) (now : Time) (enc : Bytes) (db : Db)
    → let after = register lower id n now enc db in
      (after.1.clusters ≡ settled after.0 (db.clusters ++ (cluster_row id n now ∷ [])) db.clusters)
      × (after.1.credentials
          ≡ settled after.0
              (db.credentials ++ new_credentials id n.context_name enc)
              db.credentials)
      × (after.1.grants ≡ db.grants)
      × (settled after.0 after.0 (ok (cluster_row id n now)) ≡ ok (cluster_row id n now))
unfolding insert_cluster insert_credential
register_atomic lower id n now [] db = ground (arith, append-nil db.credentials)
register_atomic lower id n now (b ∷ enc) db = ground arith

-- A registration is atomic, whichever of its statements fails: where it succeeds the cluster and, if
-- one was given, its credential are stored under the caller's identifier, and otherwise every table is
-- as it was.
pub create_with_id_atomic :
    (lower : Text → Text) (id : Uuid) (n : NewCluster) (now : Time) (db : Db)
    → let after = create_with_id lower id n now db in
      (after.1.clusters ≡ settled after.0 (db.clusters ++ (cluster_row id n now ∷ [])) db.clusters)
      × (after.1.credentials
          ≡ settled after.0
              (db.credentials ++ new_credentials id n.context_name n.kubeconfig_enc)
              db.credentials)
      × (after.1.grants ≡ db.grants)
      × (settled after.0 after.0 (ok (cluster_row id n now)) ≡ ok (cluster_row id n now))
unfolding create_with_id
create_with_id_atomic lower id n now db = register_atomic lower id n now n.kubeconfig_enc db

-- Neither index takes a row of the list for `c`.
abbrev pub AreApart : (Text → Text) → Cluster → List Cluster → Type 0
AreApart lower c = All (λ d. (d.id == c.id ≡ false) × (same_name lower d.name c ≡ false))

-- No two clusters share an identifier or, up to case, a name.
abbrev pub AreDistinct : (Text → Text) → List Cluster → Type 0
AreDistinct lower [] = Unit
AreDistinct lower (c ∷ cs) =
    All (λ d. (d.id == c.id ≡ false) × (same_name lower d.name c ≡ false)) cs × AreDistinct lower cs

AreDistinct-append :
    (lower : Text → Text) (cs : List Cluster) (c : Cluster)
    → AreDistinct lower cs
    → any (is_cluster c.id) cs ≡ false
    → any (same_name lower c.name) cs ≡ false
    → AreDistinct lower (cs ++ (c ∷ []))
AreDistinct-append lower [] c h i n = (tt, tt)
AreDistinct-append lower (d ∷ cs) c h i n = (
  All-append (λ e. (e.id == d.id ≡ false) × (same_name lower e.name d ≡ false)) cs (c ∷ []) h.0
      (ground arith, tt),
  AreDistinct-append lower cs c h.1 (ground arith) (ground arith),
)

-- A registration keeps the clusters distinct, whatever fails.
create_with_id-AreDistinct :
    (lower : Text → Text) (id : Uuid) (n : NewCluster) (now : Time) (db : Db)
    → AreDistinct lower db.clusters
    → AreDistinct lower ((create_with_id lower id n now db).1).clusters
unfolding create_with_id insert_cluster insert_credential
create_with_id-AreDistinct lower id n now db h =
    ground (arith, AreDistinct-append lower db.clusters (cluster_row id n now) h)

abbrev is_taken : (Text → Text) → Option Text → Text → Bool
is_taken lower none c = false
is_taken lower (some name) c = text_eq (lower c) (lower name)

-- A name that is not taken is that of no other row.
is_taken-takes_name :
    (lower : Text → Text) (id : Uuid) (name : Option Text) (c : Cluster) (cs : List Cluster)
    → takes_name lower id name (c ∷ cs) ≡ false
    → is_cluster id c ≡ false
    → is_taken lower name c.name ≡ false
is_taken-takes_name lower id none c cs h e = refl
is_taken-takes_name lower id (some name) c cs h e = ground arith

takes_name-tail :
    (lower : Text → Text) (id : Uuid) (name : Option Text) (c d : Cluster) (cs : List Cluster)
    → takes_name lower id name (c ∷ d ∷ cs) ≡ false
    → (takes_name lower id name (c ∷ cs) ≡ false) × (takes_name lower id name (d ∷ cs) ≡ false)
takes_name-tail lower id none c d cs h = (refl, refl)
takes_name-tail lower id (some name) c d cs h = ground arith

abbrev new_name : Bool → Option Text → Text → Text
new_name b name old = if b then coalesce name old else old

-- The two rows by the columns that the indexes read.
renamed-apart :
    (lower : Text → Text) (name : Option Text) (c d : Text) (bc bd : Bool)
    → bc && bd ≡ false
    → text_eq (lower c) (lower d) ≡ false
    → (bc ≡ false → is_taken lower name c ≡ false)
    → (bd ≡ false → is_taken lower name d ≡ false)
    → text_eq (lower (new_name bc name c)) (lower (new_name bd name d)) ≡ false
renamed-apart lower name c d true true e f g h = cc
renamed-apart lower name c d false false e f g h = f
renamed-apart lower none c d false true e f g h = f
renamed-apart lower none c d true false e f g h = f
renamed-apart lower (some n) c d false true e f g h = g refl
renamed-apart lower (some n) c d true false e f g h = text_eq_comm (lower n) (lower d) ∙ h refl

abbrev renamed : Uuid → ClusterSettings → Time → Cluster → Cluster
renamed id s now c = if is_cluster id c then with_settings s now c else c

renamed_id :
    (id : Uuid) (s : ClusterSettings) (now : Time) (c : Cluster)
    → ((renamed id s now c).id ≡ c.id)
      × ((renamed id s now c).name ≡ new_name (is_cluster id c) s.name c.name)
unfolding with_settings
renamed_id id s now c = elim (Bool-cases (is_cluster id c)) [
  | inl e ↦ rw e (refl, refl)
  | inr e ↦ rw e (refl, refl)
]

renamed-pair :
    (lower : Text → Text) (id : Uuid) (s : ClusterSettings) (now : Time) (c d : Cluster)
    → d.id == c.id ≡ false
    → same_name lower d.name c ≡ false
    → (is_cluster id c ≡ false → is_taken lower s.name c.name ≡ false)
    → (is_cluster id d ≡ false → is_taken lower s.name d.name ≡ false)
    → ((renamed id s now d).id == (renamed id s now c).id ≡ false)
      × (same_name lower (renamed id s now d).name (renamed id s now c) ≡ false)
renamed-pair lower id s now c d e f g h =
    let (same_c, name_c) = renamed_id id s now c in
    let (same_d, name_d) = renamed_id id s now d in
    rw (same_c, name_c, same_d, name_d)
      (
        e,
        renamed-apart lower s.name c.name d.name (is_cluster id c) (is_cluster id d) (ground arith)
            f g h,
      )

-- A row that differs from `c` in both columns still does after an update of it that takes no name.
renamed-differs :
    (lower : Text → Text) (id : Uuid) (s : ClusterSettings) (now : Time) (c : Cluster)
    (cs : List Cluster)
    → AreApart lower c cs
    → takes_name lower id s.name (c ∷ cs) ≡ false
    → AreApart lower
        (if is_cluster id c then with_settings s now c else c)
        (update_where (is_cluster id) (with_settings s now) cs)
renamed-differs lower id s now c [] h f = tt
renamed-differs lower id s now c (d ∷ cs) h f =
    let tail = takes_name-tail lower id s.name c d cs f in
    (
      renamed-pair lower id s now c d h.0.0 h.0.1 (is_taken-takes_name lower id s.name c cs tail.0)
          (is_taken-takes_name lower id s.name d cs tail.1),
      renamed-differs lower id s now c cs h.1 tail.0,
    )

takes_name-rest :
    (lower : Text → Text) (id : Uuid) (name : Option Text) (c : Cluster) (cs : List Cluster)
    → takes_name lower id name (c ∷ cs) ≡ false
    → takes_name lower id name cs ≡ false
takes_name-rest lower id none c cs h = refl
takes_name-rest lower id (some name) c cs h = ground arith

AreDistinct-renamed :
    (lower : Text → Text) (id : Uuid) (s : ClusterSettings) (now : Time) (cs : List Cluster)
    → AreDistinct lower cs
    → takes_name lower id s.name cs ≡ false
    → AreDistinct lower (update_where (is_cluster id) (with_settings s now) cs)
AreDistinct-renamed lower id s now [] h f = tt
AreDistinct-renamed lower id s now (c ∷ cs) h f = (
  renamed-differs lower id s now c cs h.0 f,
  AreDistinct-renamed lower id s now cs h.1 (takes_name-rest lower id s.name c cs f),
)

-- A change of settings keeps the identifiers and the names, up to case, of the clusters distinct, also
-- where it renames one or fails.
update_settings-AreDistinct :
    (lower : Text → Text) (id : Uuid) (s : ClusterSettings) (now : Time) (db : Db)
    → AreDistinct lower db.clusters
    → AreDistinct lower ((update_settings lower id s now db).1).clusters
unfolding update_settings with_settings
update_settings-AreDistinct lower id s now db h = ground (
  arith,
  AreDistinct-renamed lower id s now db.clusters h,
  update_where-none (is_cluster id) (with_settings s now) db.clusters,
)

find-set_password :
    (id : Uuid) (enc : Option Bytes) (ks : List CredentialRow)
    → column
        (λ k. k.metrics_password_enc)
        (find
          (of_cluster id)
          (update_where (of_cluster id) (λ k. record k { metrics_password_enc = enc }) ks))
      ≡ (if any (of_cluster id) ks then enc else none)
find-set_password id enc [] = refl
find-set_password id enc (k ∷ ks) = ground (arith, find-set_password id enc ks)

-- A metrics password that was stored without an error is read back only if the cluster has a row of
-- credentials; where it has none the password is lost.
pub metrics_password-set :
    (id : Uuid) (enc : Option Bytes) (db : Db) {u : Unit {0}} {found : Option Bytes}
    → (set_metrics_password id enc db).0 ≡ ok u
    → (metrics_password id ((set_metrics_password id enc db).1)).0 ≡ ok found
    → found ≡ (if any (of_cluster id) db.credentials then enc else none)
unfolding metrics_password set_metrics_password
metrics_password-set id enc db {u} {found} h k =
    ground (arith, find-set_password id enc db.credentials)
