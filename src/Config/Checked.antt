-- ===== src/Config/Checked.antt =====
-- What a configuration that was loaded is known to be (server/internal/config/config.go).
use kubby.Prelude.{
  ◌≡◌, refl, inl, inr, Bool, true, false, ◌&&◌, ◌||◌, not, Option, none, some, List, [], ◌∷◌, ◌++◌,
  arith, Bool-cases, pos, codes, Text, text_eq, is_empty, trim_space,
}
use kubby.Store.Models.{Bytes}
use kubby.Config.{
  bad_level, env_or, env_int, env_duration, env_list, tls_half, password_missing,
  password_placeholder, bad_sslmode, max_lockouts_low, argon2_low, attempts_low, refresh_short,
  Environment, Problem, Reading, Url, fail_if, less, Config, AuthConfig,
}
use kubby.Config.Load.{
  lockouts, is_secret_key, checked_url, checked_key, one_of, known_sslmodes, known_levels,
  load_http, load_db, parse_encryption_key, load_crypto, load_auth, load_logging, load_all, loaded,
  load, key_for,
}

append-clean : {A : Type 0} {xs ys : List A} → xs ++ ys ≡ [] → (xs ≡ []) × (ys ≡ [])
append-clean {xs = []} h = (refl, h)
append-clean {xs = x ∷ xs} h = absurd (ground (arith, h))

fail_if-clean : (b : Bool) (e : Problem) → (fail_if b e).1 ≡ [] → b ≡ false
fail_if-clean true e h = absurd (ground (arith, h))
fail_if-clean false e h = refl

fail_unless-clean : (b : Bool) (e : Problem) → (fail_if (not b) e).1 ≡ [] → b ≡ true
fail_unless-clean true e h = refl
fail_unless-clean false e h = absurd (ground (arith, h))

fail_apart-clean :
    (a b : Bool) (e : Problem) → (fail_if ((not a && b) || (a && not b)) e).1 ≡ [] → a ≡ b
fail_apart-clean true true e h = refl
fail_apart-clean true false e h = absurd (ground (arith, h))
fail_apart-clean false true e h = absurd (ground (arith, h))
fail_apart-clean false false e h = refl

-- The schemes http and https, with a host.
abbrev pub is_public : Option Url → Bool
is_public none = false
is_public (some url) =
    (text_eq url.scheme (codes "http") || text_eq url.scheme (codes "https"))
    && not (is_empty url.host)

checked_url-clean :
    (raw : Text) (url : Option Url)
    → (checked_url raw url).1 ≡ []
    → is_public (checked_url raw url).0 ≡ true
checked_url-clean raw none h = absurd (ground (arith, h))
checked_url-clean raw (some url) h = ground (arith, h)

checked_key-clean :
    (key : Option Bytes) → (checked_key key).1 ≡ [] → is_secret_key (checked_key key).0 ≡ true
checked_key-clean none h = absurd (ground (arith, h))
checked_key-clean (some key) h = ground (arith, h)

module _ (env : Environment) where
  load_http-clean :
      (load_http env).1 ≡ []
      → (is_public (load_http env).0.public_url ≡ true)
        × (is_empty (load_http env).0.tls_cert_file ≡ is_empty (load_http env).0.tls_key_file)
  unfolding load_http
  load_http-clean h =
      let cert : Text = env.getenv (codes "KUBBY_TLS_CERT_FILE") in
      let key : Text = env.getenv (codes "KUBBY_TLS_KEY_FILE") in
      let raw : Text = env_or env (codes "KUBBY_PUBLIC_URL") (codes "http://localhost:8080") in
      let behind = append-clean (append-clean h).1 in
      (
        checked_url-clean raw (env.parse_url raw) behind.0,
        fail_apart-clean (is_empty cert) (is_empty key) tls_half (append-clean behind.1).0,
      )

  load_db-clean :
      (load_db env).1 ≡ []
      → (is_empty (load_db env).0.password ≡ false)
        × (text_eq (load_db env).0.password (codes "CHANGE_ME") ≡ false)
        × (one_of known_sslmodes (load_db env).0.ssl_mode ≡ true)
  unfolding load_db
  load_db-clean h =
      let password : Text = env.getenv (codes "KUBBY_DB_PASSWORD") in
      let mode : Text = env_or env (codes "KUBBY_DB_SSLMODE") (codes "prefer") in
      let s1 = append-clean (append-clean (append-clean h).1).1 in
      let s2 = append-clean s1.1 in
      let s3 = append-clean s2.1 in
      (
        fail_if-clean (is_empty password) password_missing s1.0,
        fail_if-clean (text_eq password (codes "CHANGE_ME")) password_placeholder s2.0,
        fail_unless-clean (one_of known_sslmodes mode) (bad_sslmode mode) s3.0,
      )

  parse_encryption_key-clean :
      (raw : Text)
      → (parse_encryption_key env raw).1 ≡ []
      → is_secret_key (parse_encryption_key env raw).0 ≡ true
  unfolding parse_encryption_key
  parse_encryption_key-clean raw h =
      ground (arith, h, checked_key-clean (env.base64 (trim_space raw)))

  load_crypto-clean :
      (load_crypto env).1 ≡ []
      → (not (text_eq (load_crypto env).0.kms_provider (codes "none"))
          || is_secret_key (load_crypto env).0.encryption_key)
        ≡ true
  unfolding load_crypto
  load_crypto-clean h =
      let provider : Text = env_or env (codes "KUBBY_KMS_PROVIDER") (codes "none") in
      let read = key_for env provider in
      let key : read.1 ≡ [] =
        (append-clean {xs = read.1} {ys = []}
          (append-clean {xs = (env_int env (codes "KUBBY_ENCRYPTION_KEY_VERSION") (pos 1)).1}
            h).1).0 in
      elim (Bool-cases (text_eq provider (codes "none"))) [
        | inl e ↦
            ground (
              arith,
              e,
              key,
              parse_encryption_key-clean (env.getenv (codes "KUBBY_ENCRYPTION_KEY")),
            )
        | inr e ↦ ground (arith, e)
      ]

  load_auth-clean :
      (load_auth env).1 ≡ []
      → (less (load_auth env).0.max_lockouts (pos 1) ≡ false)
        × (less (load_auth env).0.argon2_memory_mib (pos 16) ≡ false)
        × (less (load_auth env).0.login_max_attempts (pos 1) ≡ false)
        × (less (load_auth env).0.session_ttl (load_auth env).0.refresh_ttl ≡ true)
  unfolding load_auth
  load_auth-clean h =
      let auth : AuthConfig = (load_auth env).0 in
      let s1 =
        append-clean {xs = (env_duration env (codes "KUBBY_SESSION_TTL") (pos 900000000000)).1} h in
      let s2 =
        append-clean {xs = (env_duration env (codes "KUBBY_REFRESH_TTL") (pos 43200000000000)).1}
          s1.1 in
      let s3 =
        append-clean {xs = (lockouts env (env_list env (codes "KUBBY_LOCKOUT_DURATIONS"))).1}
          s2.1 in
      let s4 = append-clean {xs = (env_int env (codes "KUBBY_MAX_LOCKOUTS") (pos 3)).1} s3.1 in
      let s5 =
        append-clean {xs = (fail_if (less auth.max_lockouts (pos 1)) max_lockouts_low).1} s4.1 in
      let s6 = append-clean {xs = (env_int env (codes "KUBBY_ARGON2_MEMORY_MB") (pos 64)).1} s5.1 in
      let s7 =
        append-clean {xs = (env_int env (codes "KUBBY_LOGIN_MAX_ATTEMPTS") (pos 5)).1} s6.1 in
      let s8 =
        append-clean {xs = (env_int env (codes "KUBBY_LOGIN_RATE_PER_MINUTE") (pos 10)).1} s7.1 in
      let s9 = append-clean {xs = (env_int env (codes "KUBBY_LOGIN_RATE_BURST") (pos 5)).1} s8.1 in
      let s10 =
        append-clean {xs = (env_int env (codes "KUBBY_API_RATE_PER_MINUTE") (pos 600)).1} s9.1 in
      let s11 =
        append-clean {xs = (env_int env (codes "KUBBY_API_RATE_BURST") (pos 100)).1} s10.1 in
      let s12 =
        append-clean {xs = (fail_if (less auth.argon2_memory_mib (pos 16)) argon2_low).1} s11.1 in
      let s13 =
        append-clean {xs = (fail_if (less auth.login_max_attempts (pos 1)) attempts_low).1} s12.1 in
      let s14 =
        append-clean {xs = (fail_if (not (less auth.session_ttl auth.refresh_ttl)) refresh_short).1}
          {ys = []} s13.1 in
      (
        fail_if-clean (less auth.max_lockouts (pos 1)) max_lockouts_low s5.0,
        fail_if-clean (less auth.argon2_memory_mib (pos 16)) argon2_low s12.0,
        fail_if-clean (less auth.login_max_attempts (pos 1)) attempts_low s13.0,
        fail_unless-clean (less auth.session_ttl auth.refresh_ttl) refresh_short s14.0,
      )

  load_logging-clean :
      (load_logging env).1 ≡ [] → one_of known_levels (load_logging env).0.level ≡ true
  unfolding load_logging
  load_logging-clean h =
      let level : Text = env_or env (codes "KUBBY_LOG_LEVEL") (codes "info") in
      fail_unless-clean (one_of known_levels level) (bad_level level)
        (append-clean {xs = (fail_if (not (one_of known_levels level)) (bad_level level)).1} h).0

  loaded-clean :
      (r : Reading Config) {config : Config}
      → loaded env r ≡ inr config
      → (r.0 ≡ config) × (r.1 ≡ [])
  loaded-clean (c, []) h = (ground (arith, h), refl)
  loaded-clean (c, e ∷ es) h = absurd (ground (arith, h))

  -- The public address is one of http or https with a host, TLS has both of its files or none, the
  -- database has a password that is not the example's and a mode of libpq, the key is 32 bytes that are not
  -- all zero unless a KMS holds it, the limits on attempts are at least one, argon2 has 16 MiB or more, and
  -- a refresh token outlives its session.
  abbrev pub IsSafe : Config → Type 0
  IsSafe c =
      (is_public c.http.public_url ≡ true)
      × (is_empty c.http.tls_cert_file ≡ is_empty c.http.tls_key_file)
      × (is_empty c.db.password ≡ false)
      × (text_eq c.db.password (codes "CHANGE_ME") ≡ false)
      × (one_of known_sslmodes c.db.ssl_mode ≡ true)
      × ((not (text_eq c.crypto.kms_provider (codes "none"))
            || is_secret_key c.crypto.encryption_key)
          ≡ true)
      × (less c.auth.max_lockouts (pos 1) ≡ false)
      × (less c.auth.argon2_memory_mib (pos 16) ≡ false)
      × (less c.auth.login_max_attempts (pos 1) ≡ false)
      × (less c.auth.session_ttl c.auth.refresh_ttl ≡ true)
      × (one_of known_levels c.logging.level ≡ true)

  load_all-IsSafe : (load_all env).1 ≡ [] → IsSafe (load_all env).0
  unfolding load_all
  load_all-IsSafe h =
      let s1 = append-clean {xs = (load_http env).1} h in
      let s2 = append-clean {xs = (load_db env).1} s1.1 in
      let s3 = append-clean {xs = (load_crypto env).1} s2.1 in
      let s4 = append-clean {xs = (load_auth env).1} s3.1 in
      let s5 = append-clean {xs = (load_logging env).1} s4.1 in
      let http = load_http-clean s1.0 in
      let db = load_db-clean s2.0 in
      let auth = load_auth-clean s4.0 in
      (
        http.0,
        http.1,
        db.0,
        db.1,
        db.2,
        load_crypto-clean s3.0,
        auth.0,
        auth.1,
        auth.2,
        auth.3,
        load_logging-clean s5.0,
      )

  -- A configuration that is loaded from the environment without a problem is safe: its public address is
  -- one of http or https with a host, TLS has both of its files or none, the database has a password that
  -- is not the example's and a mode of libpq, the key is 32 bytes that are not all zero unless a KMS holds
  -- it, the limits on attempts are at least one, argon2 has 16 MiB or more, a refresh token outlives its
  -- session and the level of logging is a known one.
  pub load-IsSafe : {config : Config} → load env ≡ inr config → IsSafe config
  unfolding load
  load-IsSafe {config} h =
      let parts = loaded-clean (load_all env) h in rw (← parts.0) (load_all-IsSafe parts.1)
