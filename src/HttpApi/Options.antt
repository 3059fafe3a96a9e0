-- ===== src/HttpApi/Options.antt =====
-- server/internal/httpapi/settings_handlers.go: the handlers of the settings. The proofs are in
-- HttpApi/Options/Shipping.
--
-- A handler runs over the database, the groups of settings whose change was recorded, newest last, and the
-- shipper of the audit trail, where there is one. The trail is set; decoding the body is left out.
pub mod Shipping
use kubby.Prelude.{◌⊎◌, inl, inr, Bool, Option, none, some, List, [], ◌∷◌, ◌++◌, Text}
use kubby.Crypto.{Randomness}
use kubby.Store.Models.{User, Time, Bytes}
use kubby.Store.Db.{Db}
use kubby.Store.Flow.{Flow, go, stop, Call}
use kubby.Audit.Sinks.{SinkConfig, Url, SinkError, Sink}
use kubby.Audit.Manager.{Manager, apply}
use kubby.Settings.Logs.{LogAnalysis}
use kubby.Settings.Service.{
  NodeShell, PodDebug, Metrics, AuditSink, Everything, ServiceError, Service, everything,
  save_node_shell, save_pod_debug, save_metrics, save_audit_sink, save_log_analysis,
  audit_sink_config,
}

pub data Group : Type 0 where
  node_shell pod_debug metrics log_analysis audit_sink : Group

pub data Reply : Type 0 where
  shown : Everything → Reply
  unreadable : Reply
  rejected : ServiceError → Reply
  not_shipping : ServiceError ⊎ SinkError → Reply

pub record World : Type 0 where
  pub db : Db
  pub recorded : List Group
  pub shipper : Option Manager

module _ (svc : Service) (parse_url : Text → Option Url) (url_text : Url → Text)
    (template : Sink → Option Text) where
  abbrev told : Flow ServiceError Everything → Reply
  told (go every) = shown every
  told (stop e) = unreadable

  unfoldable pub read : World → Reply × World
  unfolding everything
  read w = let (r, db') = everything svc w.db in (told r, record w { db = db' })

  abbrev pub record_change : Group → World → World
  record_change group w = record w { recorded = w.recorded ++ (group ∷ []) }

  abbrev ended : Group → Flow ServiceError (Unit {0}) → World → Reply × World
  ended group (stop e) w = (rejected e, w)
  ended group (go done) w = read (record_change group w)

  abbrev saving : Group → Call ServiceError (Unit {0}) → World → Reply × World
  saving group save w = let (r, db') = save w.db in ended group r (record w { db = db' })

  unfoldable pub put_node_shell : NodeShell → User → Time → World → Reply × World
  unfolding read save_node_shell
  put_node_shell body user now = saving node_shell (save_node_shell svc body user.id now)

  unfoldable pub put_pod_debug : PodDebug → User → Time → World → Reply × World
  unfolding read save_pod_debug
  put_pod_debug body user now = saving pod_debug (save_pod_debug svc body user.id now)

  unfoldable pub put_metrics :
      Metrics → Bytes → Bool → Randomness → User → Time → World → Reply × World
  unfolding read save_metrics
  put_metrics body password clear_password r user now =
      saving metrics (save_metrics svc body password clear_password r user.id now)

  unfoldable pub put_log_analysis : LogAnalysis → User → Time → World → Reply × World
  unfolding read save_log_analysis
  put_log_analysis body user now = saving log_analysis (save_log_analysis svc body user.id now)

  abbrev pub installed : Bool × SinkConfig → Manager → Option SinkError × Manager
  installed sink m = apply parse_url url_text template sink.0 sink.1 m

  abbrev problem_of : Option SinkError → Option (ServiceError ⊎ SinkError)
  problem_of none = none
  problem_of (some e) = some (inr e)

  abbrev applied :
      Flow ServiceError (Bool × SinkConfig)
      → Manager
      → World
      → Option (ServiceError ⊎ SinkError) × World
  applied (stop e) m w = (some (inl e), w)
  applied (go sink) m w =
      let (e, m') = installed sink m in (problem_of e, record w { shipper = some m' })

  abbrev shipping_of : Option Manager → World → Option (ServiceError ⊎ SinkError) × World
  shipping_of none w = (none, w)
  shipping_of (some m) w =
      let (r, db') = audit_sink_config svc w.db in applied r m (record w { db = db' })

  -- The stored configuration in the running shipper.
  unfoldable pub apply_shipping : World → Option (ServiceError ⊎ SinkError) × World
  unfolding audit_sink_config apply
  apply_shipping w = shipping_of w.shipper w

  abbrev shipped : Option (ServiceError ⊎ SinkError) → World → Reply × World
  shipped none w = read w
  shipped (some e) w = (not_shipping e, w)

  abbrev sink_saved : Flow ServiceError (Unit {0}) → World → Reply × World
  sink_saved (stop e) w = (rejected e, w)
  sink_saved (go done) w =
      let (problem, w') = apply_shipping (record_change audit_sink w) in shipped problem w'

  unfoldable pub put_audit_sink :
      AuditSink → Bytes → Bool → Randomness → User → Time → World → Reply × World
  unfolding read save_audit_sink apply_shipping
  put_audit_sink body token clear_token r user now w =
      let (saved, db') = save_audit_sink svc body token clear_token r user.id now w.db in
      sink_saved saved (record w { db = db' })
