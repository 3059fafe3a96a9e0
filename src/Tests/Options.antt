-- ===== src/Tests/Options.antt =====
-- Settings and the secrets that they carry, at concrete inputs.
use kubby.Prelude.{
  ◌≡◌, refl, Bool, true, false, ◌&&◌, not, Option, none, some, [], ◌∷◌, arith, if◌then◌else◌, pos,
  codes, Text, text_eq, text_eq_iff, is_empty,
}
use kubby.Crypto.{seal, encrypt, open_blob, decrypt}
use kubby.Crypto.{open_blob, decrypt}
use kubby.Audit.Sinks.{SinkConfig, Url, Sink}
use kubby.Audit.Manager.{Manager, apply}
use kubby.Audit.Manager.Swapping.{apply-data_stream}
use kubby.HttpApi.Options.{Reply, World, put_audit_sink}
use kubby.Tests.Data.{root, db, gcm, randomness}
use kubby.Store.Models.{Bytes}
use kubby.Store.Db.{find}
use kubby.Store.Flow.{go}
use kubby.Store.Settings.{Codec, get, is_secret}
use kubby.Logsearch.Rules.{default_fields}
use kubby.Settings.Logs.{LogRule, LogAnalysis, validate_log_analysis, compile_rules}
use kubby.Settings.Service.{
  Service, AuditSink, no_audit_sink, store_secret, secret, save_audit_sink, audit_sink_config,
  trimmed_sink,
}
use kubby.Settings.Secrets.{secret-store_secret}
use kubby.Settings.Sinks.{config_of, calm, audit_sink_config-save}
use kubby.Settings.Running.{as_written, compile_rules-validate}
use kubby.Tests.Data.{db, gcm, randomness}
use kubby.Tests.Sealing.{gcm_laws, ring, ring-CanSeal}

abbrev unread : {A : Type 0} → Codec A
unread = record { encode = λ a. none; decode = λ raw into. none }

abbrev plain_sink : Text → AuditSink
plain_sink url = record no_audit_sink { enabled = true; kind = codes "http"; url = url }

-- A stand-in that writes down no more than the URL, and encodes the sinks that have nothing else.
abbrev is_plain : AuditSink → Bool
is_plain s =
    s.enabled
    && text_eq s.kind (codes "http")
    && is_empty s.index
    && is_empty s.username
    && not s.has_token
    && not s.insecure_skip_verify
    && is_empty s.scheme
    && not s.data_stream

abbrev sinks : Codec AuditSink
sinks = record {
  encode = λ s. if is_plain s then some s.url else none;
  decode = λ raw into. some (plain_sink raw);
}

empty_text : (t : Text) → is_empty t ≡ true → t ≡ []
empty_text [] h = refl
empty_text (c ∷ t) h = absurd (ground (arith, h))

sinks_law :
    (a : AuditSink) (raw : Bytes)
    → sinks.encode a ≡ some raw
    → sinks.decode raw no_audit_sink ≡ some a
sinks_law a raw h = ground (
  arith,
  h,
  text_eq_iff a.kind (codes "http"),
  empty_text a.index,
  empty_text a.username,
  empty_text a.scheme,
)

abbrev options : Service
options = record {
  gcm = gcm;
  keyring = ring 3;
  codecs = record {
    node_shell = unread;
    pod_debug = unread;
    metrics = unread;
    audit_sink = sinks;
    log_analysis = unread;
  };
  parse_url = λ url. some (codes "https", codes "siem");
  lower = λ t. t;
  compiles = λ pattern. true;
}

secret-store_secret_example :
    ((secret options
        (codes "k")
        (store_secret options (codes "k") (7 ∷ []) false randomness 1 5 db).1).0
      ≡ go (some (7 ∷ [])))
    × ((other : Text)
        → text_eq (codes "k") other ≡ false
        → find
            (is_secret other)
            (store_secret options (codes "k") (7 ∷ []) false randomness 1 5 db).1.secrets
          ≡ find (is_secret other) db.secrets)
unfolding store_secret seal encrypt
secret-store_secret_example =
    secret-store_secret options randomness ring-CanSeal gcm_laws (omega arith) (codes "k") (7 ∷ [])
      false 1 5 db refl refl

audit_sink_config-save_example :
    (audit_sink_config options
      (save_audit_sink options
        (plain_sink (codes "https://siem"))
        (7 ∷ [])
        false
        randomness
        1
        5
        (calm db)).1).0
    ≡ go (true, config_of (trimmed_sink options (plain_sink (codes "https://siem"))) (7 ∷ []))
unfolding save_audit_sink get seal encrypt
audit_sink_config-save_example =
    audit_sink_config-save options randomness ring-CanSeal gcm_laws (omega arith)
      (plain_sink (codes "https://siem")) 7 [] 1 5 db sinks_law
      ((_, refl), (_, refl), (_, refl), (_, refl)) refl

abbrev edited : Text → Bool → LogRule
edited name disabled = record {
  name = name;
  class = [];
  phrases = codes "panic:" ∷ codes " " ∷ [];
  capture = codes "goroutine (?P<id>\\d+)" ∷ [];
  disabled = disabled;
}

abbrev analysis : LogAnalysis
analysis = record {
  fields = default_fields;
  rules = edited (codes " Go ") false ∷ edited (codes "Quiet") true ∷ [];
  window_minutes = pos 10;
  min_count = pos 2;
}

abbrev accepts : Text → Bool
accepts pattern = true

abbrev as_is : Text → Text
as_is t = t

compile_rules-validate_example :
    compile_rules accepts analysis.rules ≡ as_written (edited (codes " Go ") false) ∷ []
unfolding validate_log_analysis
compile_rules-validate_example = compile_rules-validate as_is accepts analysis (λ p h. refl) refl

abbrev no_config : SinkConfig
no_config = record {
  kind = [];
  url = [];
  index = [];
  username = [];
  token = [];
  scheme = [];
  insecure_skip_verify = false;
  extra_labels = [];
  data_stream = false;
}

abbrev stopped : Manager
stopped = record { current = none; config = no_config; enabled = false; closed = [] }

abbrev parsed : Text → Option Url
parsed url = some (record { scheme = codes "https"; host = codes "siem"; path = [] })

abbrev host_of : Url → Text
host_of url = url.host

abbrev no_problem : Sink → Option Text
no_problem sink = none

abbrev search_config : SinkConfig
search_config = record no_config { kind = codes "elasticsearch"; url = codes "https://siem" }

abbrev shipping : Manager
shipping = record {
  current =
      some
        (record { name = codes "elasticsearch"; endpoint = codes "siem"; config = search_config });
  config = search_config;
  enabled = true;
  closed = [];
}

apply-data_stream_example :
    apply parsed host_of no_problem true (record search_config { data_stream = true }) shipping
    ≡ (none, shipping)
apply-data_stream_example = apply-data_stream parsed host_of no_problem shipping true refl

abbrev opened : World
opened = record { db = calm db; recorded = []; shipper = some stopped }

abbrev saved_options : Reply × World
saved_options =
    put_audit_sink options parsed host_of no_problem (plain_sink (codes "https://siem")) (7 ∷ [])
      false randomness root 5 opened
