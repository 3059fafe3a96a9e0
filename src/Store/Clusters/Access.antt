-- ===== src/Store/Clusters/Access.antt =====
-- Who may use a cluster (server/internal/store/clusters.go): the grants as a map from an account and a
-- cluster to a level.
use kubby.Prelude.{
  ℕ, zero, suc, ◌<◌, ◌≡◌, refl, ap, ◌↔◌, ◌⊎◌, Bool, true, false, ◌&&◌, none, List, [], ◌∷◌, ◌++◌,
  arith, ◌==◌, if◌then◌else◌, any, In, Text, In-sort_by,
}
use kubby.Store.Clusters.Settings.{delete}
use kubby.Store.Models.{Uuid}
use kubby.Store.Registry.{Cluster, GrantRow}
use kubby.Store.Db.{
  ok, Db, find, update_where, delete_where, count_where, settled, find-delete_where,
}
use kubby.Store.Clusters.{
  is_cluster, is_grant, repeated, joined, list_for_user, level_of, grant_row, regrant, set_grant,
  remove_grant,
}

-- The abstract view: the level of an account on a cluster, empty where nothing is granted.
abbrev pub Levels : Type 0
Levels = Uuid → Uuid → Text

abbrev pub levels : Db → Levels
levels db user_id cluster_id = level_of (find (is_grant user_id cluster_id) db.grants)

abbrev pub assign : Uuid → Uuid → Text → Levels → Levels
assign u c level m user_id cluster_id =
    if user_id == u && cluster_id == c then level else m user_id cluster_id

levels-regrant_other :
    (u c by : Uuid) (level : Text) (u' c' : Uuid) (gs : List GrantRow)
    → u' == u && c' == c ≡ false
    → level_of (find (is_grant u' c') (update_where (is_grant u c) (regrant by level) gs))
      ≡ level_of (find (is_grant u' c') gs)
levels-regrant_other u c by level u' c' [] h = refl
levels-regrant_other u c by level u' c' (g ∷ gs) h =
    ground (arith, levels-regrant_other u c by level u' c' gs)

levels-regrant :
    (u c by : Uuid) (level : Text) (u' c' : Uuid) (gs : List GrantRow)
    → any (is_grant u c) gs ≡ true
    → level_of (find (is_grant u' c') (update_where (is_grant u c) (regrant by level) gs))
      ≡ (if u' == u && c' == c then level else level_of (find (is_grant u' c') gs))
levels-regrant u c by level u' c' [] h = cc
levels-regrant u c by level u' c' (g ∷ gs) h =
    ground (arith, levels-regrant u c by level u' c' gs, levels-regrant_other u c by level u' c' gs)

levels-append :
    (u c by : Uuid) (level : Text) (u' c' : Uuid) (gs : List GrantRow)
    → any (is_grant u c) gs ≡ false
    → level_of (find (is_grant u' c') (gs ++ (grant_row u c by level ∷ [])))
      ≡ (if u' == u && c' == c then level else level_of (find (is_grant u' c') gs))
levels-append u c by level u' c' [] h = ground arith
levels-append u c by level u' c' (g ∷ gs) h = ground (arith, levels-append u c by level u' c' gs)

levels-delete_one :
    (u c u' c' : Uuid) (gs : List GrantRow)
    → level_of (find (is_grant u' c') (delete_where (is_grant u c) gs))
      ≡ (if u' == u && c' == c then [] else level_of (find (is_grant u' c') gs))
levels-delete_one u c u' c' [] = ground arith
levels-delete_one u c u' c' (g ∷ gs) = ground (arith, levels-delete_one u c u' c' gs)

-- `SetGrant` implements the assignment on the abstract map: where it succeeds the one level is set and
-- every other kept, and where it fails, for whatever reason, every level is kept.
pub levels-set_grant :
    (u c by : Uuid) (level : Text) (db : Db) (u' c' : Uuid)
    → levels ((set_grant u c by level db).1) u' c'
      ≡ settled
          ((set_grant u c by level db).0)
          (assign u c level (levels db) u' c')
          (levels db u' c')
unfolding set_grant
levels-set_grant u c by level db u' c' =
    ground (
      arith,
      levels-regrant u c by level u' c' db.grants,
      levels-append u c by level u' c' db.grants,
    )

-- `RemoveGrant` implements the assignment of no level, in the same way.
levels-remove_grant :
    (u c : Uuid) (db : Db) (u' c' : Uuid)
    → levels ((remove_grant u c db).1) u' c'
      ≡ settled ((remove_grant u c db).0) (assign u c [] (levels db) u' c') (levels db u' c')
unfolding remove_grant
levels-remove_grant u c db u' c' = ground (arith, levels-delete_one u c u' c' db.grants)

levels-delete_cluster :
    (id u' c' : Uuid) (gs : List GrantRow)
    → level_of (find (is_grant u' c') (delete_where (λ g. g.cluster_id == id) gs))
      ≡ (if c' == id then [] else level_of (find (is_grant u' c') gs))
levels-delete_cluster id u' c' [] = ground arith
levels-delete_cluster id u' c' (g ∷ gs) = ground (arith, levels-delete_cluster id u' c' gs)

-- Once a cluster is deleted it cannot be loaded, no account has a level on it, and the levels on the
-- other clusters are kept.
levels-delete :
    (id : Uuid) (db : Db) (u' c' : Uuid)
    → (delete id db).0 ≡ ok tt
    → (find (is_cluster id) ((delete id db).1).clusters ≡ none)
      × (levels ((delete id db).1) u' c' ≡ (if c' == id then [] else levels db u' c'))
unfolding delete
levels-delete id db u' c' h =
    ground (
      arith,
      levels-delete_cluster id u' c' db.grants,
      find-delete_where (is_cluster id) db.clusters,
    )

In-repeated :
    (n : ℕ) (c d : Cluster) (cs : List Cluster)
    → In d (repeated n c cs) ↔ (((d ≡ c) × (0 < n)) ⊎ In d cs)
unfolding repeated
In-repeated zero c d cs = ground arith
In-repeated (suc n) c d cs = ground (arith, In-repeated n c d cs)

count_where_iff :
    {A : Type 0} (p : A → Bool) (xs : List A) → (0 < count_where p xs) ↔ (any p xs ≡ true)
count_where_iff p [] = ground arith
count_where_iff p (x ∷ xs) = ground (arith, count_where_iff p xs)

In-joined :
    (user_id : Uuid) (grants : List GrantRow) (d : Cluster) (cs : List Cluster)
    → In d (joined user_id grants cs) ↔ (In d cs × (any (is_grant user_id d.id) grants ≡ true))
unfolding joined
In-joined user_id grants d [] = ground arith
In-joined user_id grants d (c ∷ cs) =
    let same : d ≡ c → any (is_grant user_id d.id) grants ≡ any (is_grant user_id c.id) grants =
      ap (λ x. any (is_grant user_id x.id) grants) in
    ground (
      arith,
      same,
      In-repeated (count_where (is_grant user_id c.id) grants) c d (joined user_id grants cs),
      In-joined user_id grants d cs,
      count_where_iff (is_grant user_id c.id) grants,
    )

-- What a listing for a user holds, if it succeeds: exactly the registered clusters that the user has a
-- grant to.
pub In-list_for_user :
    (collates : Text → Text → Bool) (user_id : Uuid) (db : Db) {cs : List Cluster} (d : Cluster)
    → (list_for_user collates user_id db).0 ≡ ok cs
    → In d cs ↔ (In d db.clusters × (any (is_grant user_id d.id) db.grants ≡ true))
unfolding list_for_user
In-list_for_user collates user_id db {cs} d h =
    let before : Cluster → Cluster → Bool = λ a b. collates a.name b.name in
    ground (
      arith,
      In-sort_by before d (joined user_id db.grants db.clusters),
      In-joined user_id db.grants d db.clusters,
    )
