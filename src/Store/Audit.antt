-- ===== src/Store/Audit.antt =====
-- server/internal/store/audit.go: the repository `AuditRepo`. The proofs are in Store/Audit/Paging.
--
-- The sequence of the table and the statement's now() are arguments. An address comes back from
-- host() as it was written; a filter's `int` is an integer. PostgreSQL refuses a negative OFFSET.
pub mod Paging
use kubby.Prelude.{
  ℕ, ◌+◌, ℤ, pos, negsuc, Bool, true, false, ◌&&◌, ◌||◌, not, Option, none, some, List, [], ◌∷◌,
  ◌++◌, ltb, leb, ◌==◌, if◌then◌else◌, any, take, drop, codes, Text, text_eq, is_empty, sort_by,
}
use kubby.Store.Models.{AuditEvent, Uuid, Time, Duration}
use kubby.Store.Db.{Db, Query, ok, err, database, statement, select, delete_where, count_where}
use kubby.Store.Users.{has_id}

-- The foreign key to `users`.
abbrev is_known : Option Uuid → Db → Bool
is_known none db = true
is_known (some id) db = any (has_id id) db.users

-- The CHECK on `result`.
abbrev is_valid_result : Text → Bool
is_valid_result r =
    text_eq r (codes "success") || text_eq r (codes "denied") || text_eq r (codes "error")

abbrev details_or_empty : Option Text → Text
details_or_empty none = codes "{}"
details_or_empty (some d) = d

abbrev pub event_row : ℕ → Time → AuditEvent → AuditEvent
event_row id now e = record e {
  id = id;
  occurred_at = now;
  details = some (details_or_empty e.details);
}

unfoldable pub append : ℕ → Time → AuditEvent → Query (Unit {0})
unfolding text_eq
append id now e = statement (λ db.
    if is_known e.actor_id db && is_valid_result e.result
    then (ok tt, record db { events = db.events ++ (event_row id now e ∷ []) })
    else (err database, db))

pub record AuditFilter : Type 0 where
  pub actor_id : Option Uuid
  pub action : Text
  pub result : Text
  pub since : Option Time
  pub until : Option Time
  pub limit : ℤ
  pub offset : ℤ

unfoldable pub page_size : ℤ → ℕ
page_size (pos n) = if n == 0 || ltb 500 n then 100 else n
page_size (negsuc n) = 100

-- A row without an actor equals no actor.
abbrev same_actor : Uuid → Option Uuid → Bool
same_actor id none = false
same_actor id (some actor) = actor == id

abbrev by_actor : Option Uuid → AuditEvent → Bool
by_actor none e = true
by_actor (some id) e = same_actor id e.actor_id

abbrev not_before : Option Time → AuditEvent → Bool
not_before none e = true
not_before (some t) e = leb t e.occurred_at

abbrev not_after : Option Time → AuditEvent → Bool
not_after none e = true
not_after (some t) e = leb e.occurred_at t

-- The WHERE clause that is put together.
unfoldable pub matches : AuditFilter → AuditEvent → Bool
unfolding text_eq
matches f e =
    by_actor f.actor_id e
    && (is_empty f.action || text_eq e.action f.action)
    && (is_empty f.result || text_eq e.result f.result)
    && not_before f.since e
    && not_after f.until e

-- ORDER BY occurred_at DESC, id DESC
abbrev pub newest_first : AuditEvent → AuditEvent → Bool
newest_first a b =
    ltb b.occurred_at a.occurred_at || (a.occurred_at == b.occurred_at && ltb b.id a.id)

unfoldable pub in_order : AuditFilter → List AuditEvent → List AuditEvent
unfolding matches sort_by
in_order f events = sort_by newest_first (select (matches f) events)

unfoldable pub list : AuditFilter → Query (List AuditEvent)
unfolding page_size in_order
list f = statement (λ db. elim f.offset [
  | pos o ↦ (ok (take (page_size f.limit) (drop o (in_order f db.events))), db)
  | negsuc o ↦ (err database, db)
])

-- How many rows were removed.
unfoldable pub delete_older_than : Duration → Time → Query ℕ
delete_older_than retention now = statement (λ db.
    let is_old : AuditEvent → Bool = λ e. ltb (e.occurred_at + retention) now in
    (ok (count_where is_old db.events), record db { events = delete_where is_old db.events }))
