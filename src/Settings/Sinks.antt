-- ===== src/Settings/Sinks.antt =====
-- The sink that is saved is the sink that is shipped to (server/internal/settings/settings.go).
use kubby.Prelude.{
  ℕ, ◌<◌, ◌≡◌, refl, ◌∙◌, inl, inr, Bool, true, false, some, [], ◌∷◌, arith, Option-cases, Text,
  text_eq, text_eq_refl, text_eq_iff,
}
use kubby.Crypto
use kubby.Audit.Sinks.{SinkConfig}
use kubby.Crypto.{Randomness}
use kubby.Crypto.Envelope.{GcmLaws, CanSeal, sealed, seal-layout, open_blob-sealed}
use kubby.Store.Models.{Uuid, Time, Bytes, SettingRow, SecretRow}
use kubby.Store.Db.{Db, find}
use kubby.Settings.Logs.{LogAnalysis}
use kubby.Store.Flow.{go}
use kubby.Store.Settings.{
  Codec, is_setting, is_secret, upsert, setting_row, secret_row, get, put, get_secret, put_secret,
  stored_value, write_setting,
}
use kubby.Settings.Service.{
  Service, AuditSink, no_audit_sink, key_audit_sink, secret_audit_token, key_node_shell,
  key_pod_debug, key_metrics, key_log_analysis, NodeShell, PodDebug, Metrics, default_node_shell,
  default_pod_debug, no_metrics, no_log_analysis, store_secret, secret, everything, save_audit_sink,
  audit_sink_config, trimmed_sink, check_sink,
}
use kubby.Settings.Secrets.{find-upsert, find-upsert_other}

abbrev pub config_of : AuditSink → Bytes → SinkConfig
config_of sink token = record {
  kind = sink.kind;
  url = sink.url;
  index = sink.index;
  username = sink.username;
  token = token;
  scheme = sink.scheme;
  insecure_skip_verify = sink.insecure_skip_verify;
  extra_labels = [];
  data_stream = sink.data_stream;
}

is_setting-apart :
    (key other : Text) (a : SettingRow)
    → text_eq key other ≡ false
    → is_setting key a ≡ true
    → is_setting other a ≡ false
is_setting-apart key other a h k =
    ground (arith, text_eq_iff a.key key, text_eq_iff a.key other, text_eq_iff key other)

-- The database where no statement fails.
abbrev pub calm : Db → Db
calm db = record db { faults = [] }

module _ {A : Type 0} (codec : Codec A) (key : Text) (into : A) where
  get-keeps : (db : Db) → (get codec key into (calm db)).1 ≡ calm db
  unfolding get stored_value
  get-keeps db = elim (Option-cases (find (is_setting key) db.settings)) [
    | inl e ↦ ground (arith, e)
    | inr (row, e) ↦ elim (Option-cases (codec.decode row.value into)) [
      | inl d ↦ ground (arith, e, d)
      | inr (a, d) ↦ ground (arith, e, d)
    ]
  ]

  get-same :
      (db db' : Db)
      → find (is_setting key) db'.settings ≡ find (is_setting key) db.settings
      → (get codec key into (calm db')).0 ≡ (get codec key into (calm db)).0
  unfolding get stored_value
  get-same db db' e = elim (Option-cases (find (is_setting key) db.settings)) [
    | inl n ↦ ground (arith, e, n)
    | inr (row, n) ↦ elim (Option-cases (codec.decode row.value into)) [
      | inl d ↦ ground (arith, e, n, d)
      | inr (a, d) ↦ ground (arith, e, n, d)
    ]
  ]

  get-found :
      (db : Db) (row : SettingRow) {a : A}
      → find (is_setting key) db.settings ≡ some row
      → codec.decode row.value into ≡ some a
      → (get codec key into (calm db)).0 ≡ go (true, a)
  unfolding get stored_value
  get-found db row {a} e d = ground (arith, e, d)

module _ (svc : Service) (r : Randomness) {kek dek n1 n2 : Bytes}
    (given : CanSeal svc.keyring r kek dek n1 n2) (laws : GcmLaws svc.gcm)
    (fits : svc.keyring.active_version < 65536) where
  -- The tables after a save that went well.
  abbrev saved : AuditSink → Bytes → Bytes → Uuid → Time → Db → Db
  saved sink token raw by now db = record db {
    settings =
        upsert (is_setting key_audit_sink) (setting_row key_audit_sink raw by now) db.settings;
    secrets =
        upsert (is_secret secret_audit_token)
          (secret_row secret_audit_token
            (sealed svc.gcm svc.keyring r token secret_audit_token given) svc.keyring.active_version
            by now)
          db.secrets;
  }

  save_audit_sink-saved :
      (sink : AuditSink) (b : ℕ) (bs : Bytes) (by : Uuid) (now : Time) (db : Db)
      → db.faults ≡ []
      → (save_audit_sink svc sink (b ∷ bs) false r by now db).0 ≡ go tt
      → (raw : Bytes) × (svc.codecs.audit_sink.encode
            (record (trimmed_sink svc sink) { has_token = false })
          ≡ some raw)
        × ((save_audit_sink svc sink (b ∷ bs) false r by now db).1
            ≡ saved sink (b ∷ bs) raw by now db)
  unfolding save_audit_sink put write_setting store_secret put_secret
  save_audit_sink-saved sink b bs by now db f h =
      let value : AuditSink = record (trimmed_sink svc sink) { has_token = false } in
      elim (Option-cases (check_sink svc (trimmed_sink svc sink))) [
        | inr (x, e) ↦ absurd (ground (arith, e, h))
        | inl e ↦ elim (Option-cases (svc.codecs.audit_sink.encode value)) [
          | inl k ↦ absurd (ground (arith, e, k, h))
          | inr (raw, k) ↦ (
            raw,
            k,
            ground (
              arith,
              e,
              k,
              f,
              h,
              seal-layout svc.gcm svc.keyring r (b ∷ bs) secret_audit_token given,
            ),
          )
        ]
      ]

  -- The other settings can be read: each is absent, or decodes.
  abbrev pub IsReadable : Db → Type 0
  IsReadable db =
      ((a : Bool × NodeShell) × ((get svc.codecs.node_shell key_node_shell default_node_shell
            (calm db)).0
          ≡ go a))
      × ((a : Bool × PodDebug) × ((get svc.codecs.pod_debug key_pod_debug default_pod_debug
              (calm db)).0
            ≡ go a))
      × ((a : Bool × Metrics) × ((get svc.codecs.metrics key_metrics no_metrics (calm db)).0
            ≡ go a))
      × ((a : Bool × LogAnalysis) × ((get svc.codecs.log_analysis key_log_analysis no_log_analysis
              (calm db)).0
            ≡ go a))

  -- The configuration where the other settings are read as before.
  config-read :
      (db db' : Db) (sink : AuditSink) (row : SettingRow) (blob : SecretRow) (token : Bytes)
      → ((key : Text)
          → text_eq key_audit_sink key ≡ false
          → find (is_setting key) db'.settings ≡ find (is_setting key) db.settings)
      → find (is_setting key_audit_sink) db'.settings ≡ some row
      → svc.codecs.audit_sink.decode row.value no_audit_sink ≡ some sink
      → find (is_secret secret_audit_token) db'.secrets ≡ some blob
      → Crypto.open_blob svc.gcm svc.keyring blob.ciphertext secret_audit_token ≡ Crypto.ok token
      → IsReadable db
      → (audit_sink_config svc (calm db')).0 ≡ go (sink.enabled, config_of sink token)
  unfolding audit_sink_config everything secret get_secret text_eq
  config-read db db' sink row blob token others s v t o h =
      let ((a1, e1), (a2, e2), (a3, e3), (a5, e5)) = h in
      ground (
        arith,
        t,
        o,
        get-same svc.codecs.node_shell key_node_shell default_node_shell db db'
              (others key_node_shell refl)
            ∙ e1,
        get-same svc.codecs.pod_debug key_pod_debug default_pod_debug db db'
              (others key_pod_debug refl)
            ∙ e2,
        get-same svc.codecs.metrics key_metrics no_metrics db db' (others key_metrics refl) ∙ e3,
        get-same svc.codecs.log_analysis key_log_analysis no_log_analysis db db'
              (others key_log_analysis refl)
            ∙ e5,
        get-found svc.codecs.audit_sink key_audit_sink no_audit_sink db' row s v,
        get-keeps svc.codecs.node_shell key_node_shell default_node_shell db',
        get-keeps svc.codecs.pod_debug key_pod_debug default_pod_debug db',
        get-keeps svc.codecs.metrics key_metrics no_metrics db',
        get-keeps svc.codecs.audit_sink key_audit_sink no_audit_sink db',
        get-keeps svc.codecs.log_analysis key_log_analysis no_log_analysis db',
      )

  -- Once a sink and its token were saved, what the shipper is given is that sink with its kind and URL
  -- trimmed and with that token, where the active key version is below 65536, the keyring can seal and the
  -- cipher opens what it sealed, the other settings can be read, a stored sink decodes to what was encoded
  -- and no statement fails.
  pub audit_sink_config-save :
      (sink : AuditSink) (b : ℕ) (bs : Bytes) (by : Uuid) (now : Time) (db : Db)
      → ((a : AuditSink) (raw : Bytes)
          → svc.codecs.audit_sink.encode a ≡ some raw
          → svc.codecs.audit_sink.decode raw no_audit_sink ≡ some a)
      → IsReadable db
      → (save_audit_sink svc sink (b ∷ bs) false r by now (calm db)).0 ≡ go tt
      → (audit_sink_config svc (save_audit_sink svc sink (b ∷ bs) false r by now (calm db)).1).0
        ≡ go (sink.enabled, config_of (trimmed_sink svc sink) (b ∷ bs))
  audit_sink_config-save sink b bs by now db law readable h =
      let (raw, e, same) = save_audit_sink-saved sink b bs by now (calm db) refl h in
      let token : Bytes = b ∷ bs in
      let setting : SettingRow = setting_row key_audit_sink raw by now in
      let blob : SecretRow =
        secret_row secret_audit_token (sealed svc.gcm svc.keyring r token secret_audit_token given)
          svc.keyring.active_version by now in
      let stored = saved sink token raw by now db in
      rw same (
        config-read db stored (record (trimmed_sink svc sink) { has_token = false }) setting blob
          token
          (λ key apart.
            find-upsert_other (is_setting key_audit_sink) (is_setting key) setting db.settings apart
              (λ a. is_setting-apart key_audit_sink key a apart))
          (find-upsert (is_setting key_audit_sink) setting db.settings
            (text_eq_refl key_audit_sink))
          (law (record (trimmed_sink svc sink) { has_token = false }) raw e)
          (find-upsert (is_secret secret_audit_token) blob db.secrets
            (text_eq_refl secret_audit_token))
          (open_blob-sealed svc.gcm svc.keyring r token secret_audit_token given svc.keyring laws
            fits given.active)
          readable)
