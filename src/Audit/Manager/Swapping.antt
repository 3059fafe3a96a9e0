-- ===== src/Audit/Manager/Swapping.antt =====
-- Which shipper runs after a configuration was installed (server/internal/audit/manager.go).
use kubby.Prelude.{
  ◌≡◌, refl, ◌⊎◌, inl, inr, Bool, true, false, ◌&&◌, Option, none, some, [], arith, if◌then◌else◌,
  Bool-cases, Text, text_eq_refl,
}
use kubby.Audit.Sinks.{SinkConfig, Url, SinkError, Sink, new_sink}
use kubby.Audit.Manager.{Manager, same_bool, same_config, started, swapped, apply}

same_bool_refl : (b : Bool) → same_bool b b ≡ true
same_bool_refl true = refl
same_bool_refl false = refl

-- Two configurations that differ in nothing but the data stream are the same to the manager.
same_config-data_stream :
    (cfg : SinkConfig) (b : Bool)
    → cfg.extra_labels ≡ []
    → same_config cfg (record cfg { data_stream = b }) ≡ true
unfolding same_config
same_config-data_stream cfg b e = ground (
  arith,
  e,
  text_eq_refl cfg.kind,
  text_eq_refl cfg.url,
  text_eq_refl cfg.index,
  text_eq_refl cfg.username,
  text_eq_refl cfg.token,
  text_eq_refl cfg.scheme,
  same_bool_refl cfg.insecure_skip_verify,
)

module _ (parse_url : Text → Option Url) (url_text : Url → Text)
    (template : Sink → Option Text) where
  -- A shipper runs where shipping is on, over the sink that the configuration builds, and none where it
  -- is off.
  abbrev pub IsRunning : Manager → Type 0
  IsRunning m =
      ((m.enabled ≡ true)
        × ((sink : Sink) × (m.current ≡ some sink)
            × (new_sink parse_url url_text template m.config ≡ inr sink)))
      ⊎ ((m.enabled ≡ false) × (m.current ≡ none))

  -- What an installation ends in: the shipper that the configuration asks for, which is the one given up
  -- to the data stream, or an error with the manager as it was.
  abbrev pub Installed : Bool → SinkConfig → Manager → Option SinkError → Manager → Type 0
  Installed enabled cfg m error m' =
      IsRunning m'
      × (((error ≡ none) × (m'.enabled ≡ enabled) × (same_config m'.config cfg ≡ true))
          ⊎ ((e : SinkError) × (error ≡ some e) × (m' ≡ m)))

  started-Installed :
      (cfg : SinkConfig) (m : Manager) (r : SinkError ⊎ Sink)
      → cfg.extra_labels ≡ []
      → IsRunning m
      → new_sink parse_url url_text template cfg ≡ r
      → let (error, m') = started parse_url url_text template true cfg r m in
        Installed true cfg m error m'
  started-Installed cfg m (inl x) plain running built = (running, inr (x, refl, refl))
  started-Installed cfg m (inr sink) plain running built = (
    inl (refl, (sink, refl, built)),
    inl (refl, refl, same_config-data_stream cfg cfg.data_stream plain),
  )

  install-Installed :
      (enabled : Bool) (cfg : SinkConfig) (m : Manager)
      → cfg.extra_labels ≡ []
      → IsRunning m
      → let (error, m') =
          (if enabled
            then started parse_url url_text template enabled cfg
                (new_sink parse_url url_text template cfg)
                m
            else (none, swapped none enabled cfg m)) in
        Installed enabled cfg m error m'
  install-Installed true cfg m plain running =
      started-Installed cfg m (new_sink parse_url url_text template cfg) plain running refl
  install-Installed false cfg m plain running =
      (inr (refl, refl), inl (refl, refl, same_config-data_stream cfg cfg.data_stream plain))

  -- Once a configuration was installed, the shipper that runs is the one that the manager's configuration
  -- asks for, and that is the one given, up to the data stream. Where installing reports an error, the
  -- manager is as it was.
  pub apply-IsRunning :
      (enabled : Bool) (cfg : SinkConfig) (m : Manager)
      → cfg.extra_labels ≡ []
      → IsRunning m
      → let (error, m') = apply parse_url url_text template enabled cfg m in
        Installed enabled cfg m error m'
  unfolding apply
  apply-IsRunning enabled cfg m plain running =
      elim (Bool-cases (same_bool m.enabled enabled && same_config m.config cfg)) [
        | inl e ↦ rw e (running, inl (refl, ground (arith, e), ground (arith, e)))
        | inr e ↦ rw e (install-Installed enabled cfg m plain running)
      ]

  -- A configuration that differs from the one that runs in the data stream alone is not installed: Apply
  -- reports success, and the sink that runs still writes as it did.
  pub apply-data_stream :
      (m : Manager) (b : Bool)
      → m.config.extra_labels ≡ []
      → apply parse_url url_text template m.enabled (record m.config { data_stream = b }) m
        ≡ (none, m)
  unfolding apply
  apply-data_stream m b e = rw (same_bool_refl m.enabled, same_config-data_stream m.config b e) refl
