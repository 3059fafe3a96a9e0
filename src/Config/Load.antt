-- ===== src/Config/Load.antt =====
-- server/internal/config/config.go: Load, a function for each part of the configuration.
use kubby.Prelude.{
  ◌⊎◌, inl, inr, Bool, true, false, ◌&&◌, ◌||◌, not, Option, none, some, List, [], ◌∷◌, ◌==◌,
  if◌then◌else◌, ℤ, pos, length, any, codes, Text, text_eq, is_empty, trim_space,
}
use kubby.Store.Models.{Bytes}
use kubby.Cluster.Forward.{
  PortRange, range, malformed, Parsed, cut_dash, checked_range, not_a_range,
}
use kubby.Config.{
  Problem, bad_origin, url_malformed, url_scheme, url_no_host, unreadable_file, tls_half,
  password_missing, password_placeholder, bad_sslmode, key_missing, key_placeholder, key_not_base64,
  key_length, key_zero, bad_lockout, max_lockouts_low, argon2_low, attempts_low, refresh_short,
  bad_level, bad_sink, bad_ports, Url, Environment, Reading, pure, ◌>>=◌, ◌>>◌, fail_if, less,
  int32, env_or, env_bool, env_int, env_duration, env_list, HttpConfig, DbConfig, CryptoConfig,
  AuthConfig, LoggingConfig, K8sConfig, Config,
}

abbrev pub one_of : List Text → Text → Bool
one_of known t = any (λ k. text_eq k t) known

abbrev or_default : {A : Type 0} → List A → List A → List A
or_default [] fallback = fallback
or_default (a ∷ rest) fallback = a ∷ rest

abbrev is_zero : Bytes → Bool
is_zero [] = true
is_zero (b ∷ bs) = b == 0 && is_zero bs

abbrev pub is_secret_key : Bytes → Bool
is_secret_key key = length key == 32 && not (is_zero key)

abbrev pub checked_key : Option Bytes → Reading Bytes
checked_key none = ([], key_not_base64 ∷ [])
checked_key (some key) =
    if not (length key == 32)
    then ([], key_length ∷ [])
    else if is_zero key
    then ([], key_zero ∷ [])
    else pure key

abbrev pub checked_url : Text → Option Url → Reading (Option Url)
checked_url raw none = (none, url_malformed raw ∷ [])
checked_url raw (some url) =
    if not (text_eq url.scheme (codes "http") || text_eq url.scheme (codes "https"))
    then (none, url_scheme url.scheme ∷ [])
    else if is_empty url.host
    then (none, url_no_host raw ∷ [])
    else pure (some url)

abbrev pub known_sinks : List Text
known_sinks = codes "stdout" ∷ codes "elasticsearch" ∷ codes "loki" ∷ codes "syslog" ∷ []

abbrev pub known_levels : List Text
known_levels = codes "debug" ∷ codes "info" ∷ codes "warn" ∷ codes "error" ∷ []

abbrev pub known_sslmodes : List Text
known_sslmodes =
    codes "disable"
    ∷ codes "allow"
    ∷ codes "prefer"
    ∷ codes "require"
    ∷ codes "verify-ca"
    ∷ codes "verify-full"
    ∷ []

unfoldable pub check_sinks : List Text → Reading (Unit {0})
unfolding text_eq
check_sinks [] = pure tt
check_sinks (s ∷ ss) = fail_if (not (one_of known_sinks s)) (bad_sink s) >> check_sinks ss

abbrev pub ports_of : Text → Parsed → Reading PortRange
ports_of raw (range r) = pure r
ports_of raw (malformed e) = (record { from = 0; to = 0 }, bad_ports raw ∷ [])

module _ (env : Environment) where
  abbrev with_origin : Text → Option Url → Reading (List Url) → Reading (List Url)
  with_origin raw none rest = (rest.0, bad_origin raw ∷ rest.1)
  with_origin raw (some url) rest =
      if is_empty url.scheme || is_empty url.host
      then (rest.0, bad_origin raw ∷ rest.1)
      else (url ∷ rest.0, rest.1)

  unfoldable pub origins : List Text → Reading (List Url)
  origins [] = pure []
  origins (raw ∷ raws) = with_origin raw (env.parse_url raw) (origins raws)

  abbrev with_lockout : Text → Option ℤ → Reading (List ℤ) → Reading (List ℤ)
  with_lockout raw none rest = (rest.0, bad_lockout raw ∷ rest.1)
  with_lockout raw (some d) rest =
      if less (pos 0) d then (d ∷ rest.0, rest.1) else (rest.0, bad_lockout raw ∷ rest.1)

  unfoldable pub lockouts : List Text → Reading (List ℤ)
  lockouts [] = pure []
  lockouts (raw ∷ raws) = with_lockout raw (env.parse_duration raw) (lockouts raws)

  unfoldable pub check_file : Text → Reading (Unit {0})
  check_file path = fail_if (not (is_empty path) && not (env.readable path)) (unreadable_file path)

  unfoldable pub load_http : Reading HttpConfig
  unfolding env_or env_bool env_list origins check_file text_eq
  load_http = do
    let cert = env.getenv (codes "KUBBY_TLS_CERT_FILE")
    let key = env.getenv (codes "KUBBY_TLS_KEY_FILE")
    let bundle = env.getenv (codes "KUBBY_EXTRA_CA_BUNDLE")
    allowed ← origins (env_list env (codes "KUBBY_ALLOWED_ORIGINS"))
    let raw = env_or env (codes "KUBBY_PUBLIC_URL") (codes "http://localhost:8080")
    url ← checked_url raw (env.parse_url raw)
    fail_if ((not (is_empty cert) && is_empty key) || (is_empty cert && not (is_empty key)))
        tls_half
    check_file cert
    check_file key
    check_file bundle
    pure (record {
      addr = env_or env (codes "KUBBY_HTTP_ADDR") (codes ":8080");
      public_url = url;
      allowed_origins = allowed;
      trusted_proxies = env_list env (codes "KUBBY_TRUSTED_PROXIES");
      tls_cert_file = cert;
      tls_key_file = key;
      extra_ca_bundle = bundle;
      read_only = env_bool env (codes "KUBBY_READ_ONLY") false;
      metrics_token = env.getenv (codes "KUBBY_METRICS_TOKEN");
    })

  unfoldable pub load_db : Reading DbConfig
  unfolding env_or env_int int32 text_eq
  load_db = do
    let password = env.getenv (codes "KUBBY_DB_PASSWORD")
    let mode = env_or env (codes "KUBBY_DB_SSLMODE") (codes "prefer")
    port ← env_int env (codes "KUBBY_DB_PORT") (pos 5432)
    conns ← env_int env (codes "KUBBY_DB_MAX_CONNS") (pos 20)
    fail_if (is_empty password) password_missing
    fail_if (text_eq password (codes "CHANGE_ME")) password_placeholder
    fail_if (not (one_of known_sslmodes mode)) (bad_sslmode mode)
    pure (record {
      host = env_or env (codes "KUBBY_DB_HOST") (codes "localhost");
      port = port;
      name = env_or env (codes "KUBBY_DB_NAME") (codes "kubby");
      user = env_or env (codes "KUBBY_DB_USER") (codes "kubby");
      password = password;
      ssl_mode = mode;
      max_conns = int32 conns;
    })

  unfoldable pub parse_encryption_key : Text → Reading Bytes
  unfolding text_eq trim_space
  parse_encryption_key raw =
      if is_empty raw
      then ([], key_missing ∷ [])
      else if text_eq raw (codes "CHANGE_ME_BASE64_32_BYTES")
      then ([], key_placeholder ∷ [])
      else checked_key (env.base64 (trim_space raw))

  abbrev pub key_for : Text → Reading Bytes
  key_for provider =
      if text_eq provider (codes "none")
      then parse_encryption_key (env.getenv (codes "KUBBY_ENCRYPTION_KEY"))
      else pure []

  unfoldable pub load_crypto : Reading CryptoConfig
  unfolding env_or env_int parse_encryption_key text_eq
  load_crypto = do
    let provider = env_or env (codes "KUBBY_KMS_PROVIDER") (codes "none")
    version ← env_int env (codes "KUBBY_ENCRYPTION_KEY_VERSION") (pos 1)
    key ← key_for provider
    pure
        (record { encryption_key = key; encryption_key_version = version; kms_provider = provider })

  unfoldable pub load_auth : Reading AuthConfig
  unfolding env_or env_bool env_int env_duration env_list lockouts
  load_auth = do
    session ← env_duration env (codes "KUBBY_SESSION_TTL") (pos 900000000000)
    refresh ← env_duration env (codes "KUBBY_REFRESH_TTL") (pos 43200000000000)
    durations ← lockouts (env_list env (codes "KUBBY_LOCKOUT_DURATIONS"))
    max_lockouts ← env_int env (codes "KUBBY_MAX_LOCKOUTS") (pos 3)
    fail_if (less max_lockouts (pos 1)) max_lockouts_low
    memory ← env_int env (codes "KUBBY_ARGON2_MEMORY_MB") (pos 64)
    attempts ← env_int env (codes "KUBBY_LOGIN_MAX_ATTEMPTS") (pos 5)
    login_rate ← env_int env (codes "KUBBY_LOGIN_RATE_PER_MINUTE") (pos 10)
    login_burst ← env_int env (codes "KUBBY_LOGIN_RATE_BURST") (pos 5)
    api_rate ← env_int env (codes "KUBBY_API_RATE_PER_MINUTE") (pos 600)
    api_burst ← env_int env (codes "KUBBY_API_RATE_BURST") (pos 100)
    fail_if (less memory (pos 16)) argon2_low
    fail_if (less attempts (pos 1)) attempts_low
    fail_if (not (less session refresh)) refresh_short
    pure (record {
      session_ttl = session;
      refresh_ttl = refresh;
      argon2_memory_mib = memory;
      login_max_attempts = attempts;
      lockout_durations = or_default durations (pos 300000000000 ∷ pos 600000000000 ∷ []);
      max_lockouts = max_lockouts;
      require_mfa_for_admin = env_bool env (codes "KUBBY_REQUIRE_2FA_FOR_ADMIN") true;
      mfa_issuer = env_or env (codes "KUBBY_MFA_ISSUER") (codes "Kubby - MFA");
      login_rate_per_minute = login_rate;
      login_rate_burst = login_burst;
      api_rate_per_minute = api_rate;
      api_rate_burst = api_burst;
    })

  unfoldable pub load_logging : Reading LoggingConfig
  unfolding env_or env_list check_sinks text_eq
  load_logging = do
    let level = env_or env (codes "KUBBY_LOG_LEVEL") (codes "info")
    let sinks = or_default (env_list env (codes "KUBBY_LOG_SINKS")) (codes "stdout" ∷ [])
    fail_if (not (one_of known_levels level)) (bad_level level)
    check_sinks sinks
    pure (record { level = level; sinks = sinks })

  -- `parsePortRange`, of a text that is not empty.
  abbrev parsed_range : Text → Parsed
  parsed_range raw = elim (cut_dash raw) [
    | none ↦ malformed not_a_range
    | some (low, high) ↦ checked_range (env.atoi (trim_space low)) (env.atoi (trim_space high))
  ]

  unfoldable pub load_ports : Reading PortRange
  unfolding cut_dash checked_range trim_space
  load_ports =
      let raw = trim_space (env.getenv (codes "KUBBY_FORWARD_PORTS")) in
      if is_empty raw then pure (record { from = 0; to = 0 }) else ports_of raw (parsed_range raw)

  unfoldable pub load_k8s : Reading K8sConfig
  unfolding env_or env_bool env_int env_duration env_list load_ports
  load_k8s = do
    qps ← env_int env (codes "KUBBY_K8S_QPS") (pos 50)
    burst ← env_int env (codes "KUBBY_K8S_BURST") (pos 100)
    memory ← env_int env (codes "KUBBY_INFORMER_MAX_MEMORY_MB") (pos 128)
    interval ← env_duration env (codes "KUBBY_HEALTH_CHECK_INTERVAL") (pos 300000000000)
    timeout ← env_duration env (codes "KUBBY_K8S_TIMEOUT") (pos 30000000000)
    idle ← env_duration env (codes "KUBBY_INFORMER_IDLE_TTL") (pos 1800000000000)
    ports ← load_ports
    pure (record {
      qps = env.float32 qps;
      burst = burst;
      timeout = timeout;
      informer_idle_ttl = idle;
      informer_max_mem_mb = memory;
      sidecar_containers =
          or_default (env_list env (codes "KUBBY_SIDECAR_CONTAINERS"))
            (codes "istio-proxy" ∷ codes "istio-init" ∷ codes "vault-agent" ∷ []);
      allow_in_cluster = env_bool env (codes "KUBBY_ALLOW_IN_CLUSTER") false;
      allow_loopback_clusters = env_bool env (codes "KUBBY_ALLOW_LOOPBACK_CLUSTERS") false;
      health_check_interval = interval;
      forward_bind = env_or env (codes "KUBBY_FORWARD_BIND") (codes "127.0.0.1");
      forward_host = trim_space (env.getenv (codes "KUBBY_FORWARD_HOST"));
      forward_ports = ports;
    })

  unfoldable pub load_all : Reading Config
  unfolding load_http load_db load_crypto load_auth load_logging load_k8s
  load_all = do
    http ← load_http
    db ← load_db
    crypto ← load_crypto
    auth ← load_auth
    logging ← load_logging
    k8s ← load_k8s
    pure (record {
      http = http;
      db = db;
      crypto = crypto;
      auth = auth;
      logging = logging;
      k8s = k8s;
    })

  abbrev pub loaded : Reading Config → List Problem ⊎ Config
  loaded (config, []) = inr config
  loaded (config, e ∷ es) = inl (e ∷ es)

  unfoldable pub load : List Problem ⊎ Config
  unfolding load_all
  load = loaded load_all
