-- ===== src/Cluster/Service/Secrets.antt =====
-- What is sealed at the registration of a cluster is what a connection opens
-- (server/internal/cluster/service.go over store/clusters.go and crypto/envelope.go).
use kubby.Prelude.{ℕ, ◌/◌, ◌%◌, ◌<◌, ◌≡◌, false, some, [], ◌∷◌, arith, drop, Text}
use kubby.Crypto.{key_len, nonce_len, Keyring, Randomness, seal}
use kubby.Crypto.Envelope.{GcmLaws, CanSeal, sealed, seal-layout, open_blob-sealed}
use kubby.Store.Models.{Uuid, Time, Bytes}
use kubby.Store.Registry.{Cluster}
use kubby.Store.Db.{ok, Db, next_fault, find, find-append_none}
use kubby.Store.Flow.{go}
use kubby.Store.Clusters.{
  of_cluster, NewCluster, credential_row, insert_credential, insert_cluster, create_with_id,
}
use kubby.Store.Clusters.Settings.{credential}
use kubby.Cluster.Service.{from_kubeconfig, Service, with_proxy, connection_options, stored_config}
use kubby.Crypto

-- A registration with a credential succeeds only where the cluster has none, and stores the row.
register_fresh :
    (lower : Text → Text) (id : Uuid) (n : NewCluster) (now : Time) (db : Db) (b : ℕ) (enc : Bytes)
    {c : Cluster}
    → n.kubeconfig_enc ≡ b ∷ enc
    → (create_with_id lower id n now db).0 ≡ ok c
    → find (of_cluster id) ((create_with_id lower id n now db).1).credentials
      ≡ some (credential_row id n.context_name (b ∷ enc))
unfolding create_with_id insert_cluster insert_credential
register_fresh lower id n now db b enc {c} e h = ground (
  arith,
  find-append_none (of_cluster id) db.credentials (credential_row id n.context_name (b ∷ enc) ∷ []),
)

-- What opening yields for a sealed text.
stored_config-found :
    (svc : Service) (c : Cluster) (db : Db) (context_name : Text) (blob raw : Bytes)
    → find (of_cluster c.id) db.credentials ≡ some (credential_row c.id context_name blob)
    → next_fault db.faults ≡ false
    → Crypto.open_blob svc.gcm svc.keyring blob (svc.id_text c.id) ≡ Crypto.ok raw
    → (stored_config svc c db).0
      ≡ go (
          from_kubeconfig raw
            (with_proxy c.proxy_url (connection_options svc context_name c.qps_limit)))
unfolding stored_config credential
stored_config-found svc c db context_name blob raw e f g = ground arith

module _ (svc : Service) (r : Randomness) {kek dek n1 n2 : Bytes}
    (given : CanSeal svc.keyring r kek dek n1 n2) (laws : GcmLaws svc.gcm)
    (fits : svc.keyring.active_version < 65536) where
  -- A kubeconfig that was sealed for a cluster and registered with it is what a connection to that
  -- cluster is built from, under the context it was registered with, once no statement fails.
  pub stored_config-create :
      (raw : Bytes) (n : NewCluster) (now : Time) (db : Db) (c : Cluster)
      → seal svc.gcm svc.keyring r raw (svc.id_text c.id) ≡ Crypto.ok n.kubeconfig_enc
      → (create_with_id svc.lower c.id n now db).0 ≡ ok c
      → next_fault ((create_with_id svc.lower c.id n now db).1).faults ≡ false
      → (stored_config svc c ((create_with_id svc.lower c.id n now db).1)).0
        ≡ go (
            from_kubeconfig raw
              (with_proxy c.proxy_url (connection_options svc n.context_name c.qps_limit)))
  stored_config-create raw n now db c s h f =
      let aad : Bytes = svc.id_text c.id in
      let blob : Bytes = sealed svc.gcm svc.keyring r raw aad given in
      let stored : n.kubeconfig_enc ≡ blob =
        ground (arith, s, seal-layout svc.gcm svc.keyring r raw aad given) in
      let row = register_fresh svc.lower c.id n now db (1 / 256 % 256) (drop 1 blob) stored h in
      let opened =
        open_blob-sealed svc.gcm svc.keyring r raw aad given svc.keyring laws fits given.active in
      stored_config-found svc c ((create_with_id svc.lower c.id n now db).1) n.context_name blob raw
        row f opened
