-- ===== src/Config.antt =====
-- server/internal/config/config.go: the configuration and how a value of the environment is read. Loading is
-- in Config/Load, and the proofs in Config/Checked.
--
-- A reading is a value with the problems that were found so far, in their order. `Environment` is the
-- process's: `getenv`, whether a file can be read, and the parsers of strconv, time, net/url and base64;
-- `float32` is what the conversion to a float32 makes of a number. A duration is a number of nanoseconds
-- and may be negative, as an `int` may.
pub mod Load
pub mod Checked
use kubby.Prelude.{
  ℕ, zero, ◌-◌, ◌%◌, ◌<◌, Bool, true, false, Option, none, some, List, [], ◌∷◌, ◌++◌, ltb,
  if◌then◌else◌, ℤ, pos, negsuc, any, Text, is_empty, trim_space, split_on,
}
use kubby.Store.Models.{Bytes}
use kubby.Cluster.Forward.{PortRange}

pub data Problem : Type 0 where
  bad_origin url_malformed url_scheme url_no_host unreadable_file : Text → Problem
  tls_half password_missing password_placeholder : Problem
  bad_sslmode : Text → Problem
  key_missing key_placeholder key_not_base64 key_length key_zero : Problem
  bad_lockout : Text → Problem
  max_lockouts_low argon2_low attempts_low refresh_short : Problem
  bad_level bad_sink bad_ports : Text → Problem
  not_integer not_duration : Text → Text → Problem

pub record Url : Type 0 where
  pub scheme : Text
  pub host : Text

pub record Environment : Type 0 where
  pub getenv : Text → Text
  pub readable : Text → Bool
  pub float32 : ℤ → ℤ
  pub parse_url : Text → Option Url
  pub parse_bool : Text → Option Bool
  pub atoi : Text → Option ℤ
  pub parse_duration : Text → Option ℤ
  pub base64 : Text → Option Bytes

abbrev pub Reading : Type 0 → Type 0
Reading A = A × List Problem

abbrev pub pure : {A : Type 0} → A → Reading A
pure a = (a, [])

infixl 5 ◌>>=◌ ◌>>◌
abbrev pub ◌>>=◌ : {A B : Type 0} → Reading A → (A → Reading B) → Reading B
◌>>=◌ m f = ((f m.0).0, m.1 ++ (f m.0).1)

abbrev pub ◌>>◌ : {B : Type 0} → Reading (Unit {0}) → Reading B → Reading B
m >> k = m >>= λ _. k

-- `fail`, where the condition holds.
abbrev pub fail_if : Bool → Problem → Reading (Unit {0})
fail_if true e = (tt, e ∷ [])
fail_if false e = (tt, [])

-- `a < b`
abbrev pub less : ℤ → ℤ → Bool
less (pos a) (pos b) = ltb a b
less (pos a) (negsuc b) = false
less (negsuc a) (pos b) = true
less (negsuc a) (negsuc b) = ltb b a

-- `int32(n)`: the low 32 bits, as a signed number.
abbrev of_word : ℕ → ℤ
of_word w = if ltb w 2147483648 then pos w else negsuc (4294967295 - w)

unfoldable pub int32 : ℤ → ℤ
int32 (pos n) = of_word (n % 4294967296)
int32 (negsuc n) = of_word (4294967295 - n % 4294967296)

abbrev trimmed_parts : List Text → List Text
trimmed_parts [] = []
trimmed_parts (p ∷ ps) =
    let rest = trimmed_parts ps in if is_empty (trim_space p) then rest else trim_space p ∷ rest

abbrev or_fallback : {A : Type 0} → Option A → A → A
or_fallback none fallback = fallback
or_fallback (some a) fallback = a

abbrev or_problem : {A : Type 0} → Option A → A → Problem → Reading A
or_problem none fallback e = (fallback, e ∷ [])
or_problem (some a) fallback e = (a, [])

module _ (env : Environment) where
  unfoldable pub env_or : Text → Text → Text
  unfolding trim_space
  env_or key fallback = let v = trim_space (env.getenv key) in if is_empty v then fallback else v

  -- A value that is no boolean is the fallback, without a problem.
  unfoldable pub env_bool : Text → Bool → Bool
  unfolding trim_space
  env_bool key fallback =
      let v = trim_space (env.getenv key) in
      if is_empty v then fallback else or_fallback (env.parse_bool v) fallback

  unfoldable pub env_int : Text → ℤ → Reading ℤ
  unfolding trim_space
  env_int key fallback =
      let v = trim_space (env.getenv key) in
      if is_empty v then pure fallback else or_problem (env.atoi v) fallback (not_integer key v)

  unfoldable pub env_duration : Text → ℤ → Reading ℤ
  unfolding trim_space
  env_duration key fallback =
      let v = trim_space (env.getenv key) in
      if is_empty v
      then pure fallback
      else or_problem (env.parse_duration v) fallback (not_duration key v)

  unfoldable pub env_list : Text → List Text
  unfolding trim_space split_on
  env_list key =
      let raw = trim_space (env.getenv key) in
      if is_empty raw then [] else trimmed_parts (split_on b',' raw)

pub record HttpConfig : Type 0 where
  pub addr : Text
  pub public_url : Option Url
  pub allowed_origins : List Url
  pub trusted_proxies : List Text
  pub tls_cert_file : Text
  pub tls_key_file : Text
  pub extra_ca_bundle : Text
  pub read_only : Bool
  pub metrics_token : Text

pub record DbConfig : Type 0 where
  pub host : Text
  pub port : ℤ
  pub name : Text
  pub user : Text
  pub password : Text
  pub ssl_mode : Text
  pub max_conns : ℤ

pub record CryptoConfig : Type 0 where
  pub encryption_key : Bytes
  pub encryption_key_version : ℤ
  pub kms_provider : Text

pub record AuthConfig : Type 0 where
  pub session_ttl : ℤ
  pub refresh_ttl : ℤ
  pub argon2_memory_mib : ℤ
  pub login_max_attempts : ℤ
  pub lockout_durations : List ℤ
  pub max_lockouts : ℤ
  pub require_mfa_for_admin : Bool
  pub mfa_issuer : Text
  pub login_rate_per_minute : ℤ
  pub login_rate_burst : ℤ
  pub api_rate_per_minute : ℤ
  pub api_rate_burst : ℤ

pub record LoggingConfig : Type 0 where
  pub level : Text
  pub sinks : List Text

-- `forward_ports` is zero to zero where any port will do.
pub record K8sConfig : Type 0 where
  pub qps : ℤ
  pub burst : ℤ
  pub timeout : ℤ
  pub informer_idle_ttl : ℤ
  pub informer_max_mem_mb : ℤ
  pub sidecar_containers : List Text
  pub allow_in_cluster : Bool
  pub allow_loopback_clusters : Bool
  pub health_check_interval : ℤ
  pub forward_bind : Text
  pub forward_host : Text
  pub forward_ports : PortRange

pub record Config : Type 0 where
  pub http : HttpConfig
  pub db : DbConfig
  pub crypto : CryptoConfig
  pub auth : AuthConfig
  pub logging : LoggingConfig
  pub k8s : K8sConfig
