-- ===== src/Settings/Types.antt =====
-- server/internal/settings/settings.go: the groups of settings, their defaults, and what the service holds.
--
-- `parse_url` is url.Parse, with the scheme and the host that it finds; a codec is encoding/json for a group.
use kubby.Prelude.{Bool, false, ◌||◌, Option, [], pos, codes, Text, text_eq}
use kubby.Crypto.{Aead, Keyring, Randomness, seal, open_blob}
use kubby.Crypto
use kubby.Store.Db.{Error}
use kubby.Store.Settings.{Codec, SettingError}
use kubby.Settings.Logs.{LogAnalysis, Invalid}

abbrev pub key_node_shell : Text
key_node_shell = codes "node_shell"

abbrev pub key_pod_debug : Text
key_pod_debug = codes "pod_debug"

abbrev pub key_metrics : Text
key_metrics = codes "metrics"

abbrev pub key_audit_sink : Text
key_audit_sink = codes "audit_sink"

abbrev pub key_log_analysis : Text
key_log_analysis = codes "log_analysis"

abbrev pub secret_metrics_password : Text
secret_metrics_password = codes "metrics.password"

abbrev pub secret_audit_token : Text
secret_audit_token = codes "audit_sink.token"

pub record NodeShell : Type 0 where
  pub image : Text
  pub namespace : Text
  pub pull_secret : Text
  pub enabled : Bool

abbrev pub default_node_shell : NodeShell
default_node_shell = record {
  image = codes "docker.io/library/alpine:3.20";
  namespace = codes "kube-system";
  pull_secret = [];
  enabled = false;
}

pub record PodDebug : Type 0 where
  pub image : Text

abbrev pub default_pod_debug : PodDebug
default_pod_debug = record { image = codes "docker.io/library/busybox:1.36" }

pub record Metrics : Type 0 where
  pub enabled : Bool
  pub url : Text
  pub username : Text
  pub has_password : Bool
  pub insecure_skip_verify : Bool
  pub organization : Text

-- The zero value, which stands where nothing is stored.
abbrev pub no_metrics : Metrics
no_metrics = record {
  enabled = false;
  url = [];
  username = [];
  has_password = false;
  insecure_skip_verify = false;
  organization = [];
}

pub record AuditSink : Type 0 where
  pub enabled : Bool
  pub kind : Text
  pub url : Text
  pub index : Text
  pub username : Text
  pub has_token : Bool
  pub insecure_skip_verify : Bool
  pub scheme : Text
  pub data_stream : Bool

abbrev pub no_audit_sink : AuditSink
no_audit_sink = record {
  enabled = false;
  kind = [];
  url = [];
  index = [];
  username = [];
  has_token = false;
  insecure_skip_verify = false;
  scheme = [];
  data_stream = false;
}

abbrev pub is_sink_kind : Text → Bool
is_sink_kind kind =
    text_eq kind (codes "elasticsearch")
    || text_eq kind (codes "loki")
    || text_eq kind (codes "http")

pub record Everything : Type 0 where
  pub node_shell : NodeShell
  pub pod_debug : PodDebug
  pub metrics : Metrics
  pub audit_sink : AuditSink
  pub log_analysis : LogAnalysis

pub data ServiceError : Type 0 where
  invalid : Invalid → ServiceError
  setting : SettingError → ServiceError
  store : Error → ServiceError
  cipher : Crypto.Error → ServiceError

pub record Codecs : Type 0 where
  pub node_shell : Codec NodeShell
  pub pod_debug : Codec PodDebug
  pub metrics : Codec Metrics
  pub audit_sink : Codec AuditSink
  pub log_analysis : Codec LogAnalysis

pub record Service : Type 0 where
  pub gcm : Aead
  pub keyring : Keyring
  pub codecs : Codecs
  pub parse_url : Text → Option (Text × Text)
  pub lower : Text → Text
  pub compiles : Text → Bool

abbrev pub no_log_analysis : LogAnalysis
no_log_analysis = record {
  fields = record { timestamp = []; message = []; pod = []; namespace = []; container = [] };
  rules = [];
  window_minutes = pos 0;
  min_count = pos 0;
}
