-- ===== src/Tests/Trail.antt =====
-- Reading the audit trail at concrete inputs.
use kubby.Prelude.{ℕ, pos, ◌≡◌, refl, none, some, [], ◌∷◌, codes, text_eq, sort_by}
use kubby.Store.Models.{AuditEvent, Uuid, Time}
use kubby.Store.Db.{Db}
use kubby.Store.Audit.{AuditFilter, matches, in_order}
use kubby.Tests.Data.{db}

abbrev event : ℕ → Time → Uuid → AuditEvent
event id occurred_at actor = record {
  id = id;
  occurred_at = occurred_at;
  actor_id = some actor;
  actor_email = codes "a";
  action = codes "login";
  result = codes "success";
  cluster_id = none;
  namespace = [];
  resource_kind = [];
  resource_name = [];
  ip_address = none;
  request_id = [];
  details = some (codes "{}");
}

abbrev recorded : Db
recorded = record db { events = event 1 10 2 ∷ event 2 20 1 ∷ event 3 20 2 ∷ event 4 30 2 ∷ [] }

abbrev of_guest : AuditFilter
of_guest = record {
  actor_id = some 2;
  action = [];
  result = codes "success";
  since = none;
  until = some 25;
  limit = pos 100;
  offset = pos 0;
}

in_order_run : in_order of_guest recorded.events ≡ event 3 20 2 ∷ event 1 10 2 ∷ []
unfolding in_order matches sort_by text_eq
in_order_run = refl
