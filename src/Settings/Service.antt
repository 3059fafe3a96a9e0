-- ===== src/Settings/Service.antt =====
-- server/internal/settings/settings.go: the service, and the methods of logs.go that use it. The proofs are
-- in Settings/Secrets, Sinks and Running, and the groups of settings in Settings/Types.
--
-- A secret is the bytes of its text.
-- What is drawn from the random source and the statement's now() are arguments.
use kubby.Prelude.{
  ℕ, Bool, true, false, ◌||◌, not, Option, none, some, List, [], ◌∷◌, if◌then◌else◌, codes, Text,
  text_eq, is_empty, trim_space, contains,
}
use kubby.Crypto.{Aead, Keyring, Randomness, seal, open_blob}
use kubby.Crypto
use kubby.Store.Models.{Uuid, Time, Bytes}
use kubby.Store.Flow.{Call, pure, leave, ◌>>=◌, ◌>>◌, run, under}
use kubby.Store.Settings.{Codec, get, put, get_secret, put_secret, delete_secret}
use kubby.Audit.Sinks.{SinkConfig}
use kubby.Logsearch.Rules.{Rule, default_rules, Fields}
use kubby.Settings.Logs.{
  LogRule, LogAnalysis, Invalid, image_missing, image_spaced, namespace_missing, unknown_sink,
  url_missing, url_malformed, url_scheme, url_host, default_window_minutes, default_min_count,
  default_log_analysis, positive, minutes, validate_log_analysis, compile_rules, SweepOptions,
}
pub use kubby.Settings.Types.{
  key_node_shell, key_pod_debug, key_metrics, key_audit_sink, key_log_analysis,
  secret_metrics_password, secret_audit_token, NodeShell, default_node_shell, PodDebug,
  default_pod_debug, Metrics, no_metrics, AuditSink, no_audit_sink, is_sink_kind, Everything,
  ServiceError, Codecs, Service, no_log_analysis,
}
use kubby.Settings.Types.{invalid, setting, store, cipher}

abbrev pub sealed_or : Crypto.Result Bytes → Call ServiceError Bytes
sealed_or (Crypto.ok b) = pure b
sealed_or (Crypto.err e) = leave (cipher e)

abbrev accept : Option Invalid → Call ServiceError (Unit {0})
accept none = pure tt
accept (some e) = leave (invalid e)

abbrev with_image : Text → Option Invalid
with_image image =
    if is_empty image
    then some image_missing
    else if contains image (codes " ")
    then some image_spaced
    else none

abbrev opened_or : Crypto.Result Bytes → Call ServiceError (Option Bytes)
opened_or (Crypto.ok plain) = pure (some plain)
opened_or (Crypto.err e) = leave (cipher e)

abbrev pub token_of : Option Bytes → Bytes
token_of none = []
token_of (some token) = token

abbrev is_some : {A : Type 0} → Option A → Bool
is_some none = false
is_some (some a) = true

module _ (svc : Service) where
  abbrev got : {A : Type 0} → Codec A → Text → A → Call ServiceError (Bool × A)
  got codec key into = under setting (get codec key into)

  abbrev stored : {A : Type 0} → Codec A → Text → A → Uuid → Time → Call ServiceError (Unit {0})
  stored codec key value by now = under setting (put codec key value by now)

  unfoldable pub everything : Call ServiceError Everything
  unfolding get get_secret
  everything = do
    node_shell ← got svc.codecs.node_shell key_node_shell default_node_shell
    pod_debug ← got svc.codecs.pod_debug key_pod_debug default_pod_debug
    metrics ← got svc.codecs.metrics key_metrics no_metrics
    audit_sink ← got svc.codecs.audit_sink key_audit_sink no_audit_sink
    log_analysis ← got svc.codecs.log_analysis key_log_analysis no_log_analysis
    password ← run store (get_secret secret_metrics_password)
    token ← run store (get_secret secret_audit_token)
    pure (record {
      node_shell = node_shell.1;
      pod_debug = pod_debug.1;
      metrics = record metrics.1 { has_password = is_some password };
      audit_sink = record audit_sink.1 { has_token = is_some token };
      log_analysis = if log_analysis.0 then log_analysis.1 else default_log_analysis;
    })

  unfoldable pub validate_url : Text → Option Invalid
  unfolding text_eq
  validate_url raw = if is_empty raw then some url_missing else elim (svc.parse_url raw) [
    | none ↦ some url_malformed
    | some parsed ↦
        if not (text_eq parsed.0 (codes "http") || text_eq parsed.0 (codes "https"))
        then some url_scheme
        else if is_empty parsed.1
        then some url_host
        else none
  ]

  unfoldable pub save_node_shell : NodeShell → Uuid → Time → Call ServiceError (Unit {0})
  unfolding put trim_space contains
  save_node_shell given by now = do
    let value : NodeShell = record given {
      image = trim_space given.image;
      namespace = trim_space given.namespace;
    }
    accept (with_image value.image)
    accept (if is_empty value.namespace then some namespace_missing else none)
    stored svc.codecs.node_shell key_node_shell value by now

  unfoldable pub save_pod_debug : PodDebug → Uuid → Time → Call ServiceError (Unit {0})
  unfolding put trim_space contains
  save_pod_debug given by now = do
    let value : PodDebug = record { image = trim_space given.image }
    accept (with_image value.image)
    stored svc.codecs.pod_debug key_pod_debug value by now

  -- An empty secret leaves what is stored.
  unfoldable pub store_secret :
      Text → Bytes → Bool → Randomness → Uuid → Time → Call ServiceError (Unit {0})
  unfolding put_secret delete_secret
  store_secret key value clear r by now =
      if clear
      then run store (delete_secret key)
      else if is_empty value
      then pure tt
      else sealed_or (seal svc.gcm svc.keyring r value key) >>= λ blob.
          run store (put_secret key blob svc.keyring.active_version by now)

  unfoldable pub save_metrics :
      Metrics → Bytes → Bool → Randomness → Uuid → Time → Call ServiceError (Unit {0})
  unfolding put trim_space validate_url store_secret
  save_metrics given password clear_password r by now = do
    let url = trim_space given.url
    accept (if given.enabled then validate_url url else none)
    stored svc.codecs.metrics key_metrics (record given { url = url; has_password = false }) by now
    store_secret secret_metrics_password password clear_password r by now

  abbrev pub check_sink : AuditSink → Option Invalid
  check_sink value =
      if not value.enabled
      then none
      else if not (is_sink_kind value.kind)
      then some (unknown_sink value.kind)
      else validate_url value.url

  abbrev pub trimmed_sink : AuditSink → AuditSink
  trimmed_sink given = record given { url = trim_space given.url; kind = trim_space given.kind }

  unfoldable pub save_audit_sink :
      AuditSink → Bytes → Bool → Randomness → Uuid → Time → Call ServiceError (Unit {0})
  unfolding put trim_space text_eq validate_url store_secret
  save_audit_sink given token clear_token r by now = do
    let value = trimmed_sink given
    accept (check_sink value)
    stored svc.codecs.audit_sink key_audit_sink (record value { has_token = false }) by now
    store_secret secret_audit_token token clear_token r by now

  abbrev opened : Text → Option (Bytes × ℕ) → Call ServiceError (Option Bytes)
  opened key none = pure none
  opened key (some blob) = opened_or (open_blob svc.gcm svc.keyring blob.0 key)

  -- The secret, where one is stored.
  unfoldable pub secret : Text → Call ServiceError (Option Bytes)
  unfolding get_secret
  secret key = do blob ← run store (get_secret key); opened key blob

  unfoldable pub audit_sink_config : Call ServiceError (Bool × SinkConfig)
  unfolding everything secret
  audit_sink_config = do
    every ← everything
    token ← secret secret_audit_token
    let sink = every.audit_sink
    pure (
      sink.enabled,
      record {
        kind = sink.kind;
        url = sink.url;
        index = sink.index;
        username = sink.username;
        token = token_of token;
        scheme = sink.scheme;
        insecure_skip_verify = sink.insecure_skip_verify;
        extra_labels = [];
        data_stream = sink.data_stream;
      },
    )

  unfoldable pub node_shell_namespace : Call ServiceError (Text × Bool)
  unfolding everything
  node_shell_namespace = do
    every ← everything
    pure (every.node_shell.namespace, every.node_shell.enabled)

  unfoldable pub save_log_analysis : LogAnalysis → Uuid → Time → Call ServiceError (Unit {0})
  unfolding put validate_log_analysis
  save_log_analysis value by now = do
    accept (validate_log_analysis svc.lower svc.compiles value)
    stored svc.codecs.log_analysis key_log_analysis value by now

  abbrev rules_of : List LogRule → List Rule
  rules_of [] = default_rules
  rules_of (r ∷ rs) = compile_rules svc.compiles (r ∷ rs)

  unfoldable pub log_analysis_config : Call ServiceError (Fields × List Rule × SweepOptions)
  unfolding get compile_rules
  log_analysis_config = do
    found ← got svc.codecs.log_analysis key_log_analysis no_log_analysis
    let kept = found.1
    pure (
      kept.fields,
      rules_of kept.rules,
      record {
        window = minutes kept.window_minutes default_window_minutes;
        min_count = positive kept.min_count default_min_count;
      },
    )
