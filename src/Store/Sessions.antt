-- ===== src/Store/Sessions.antt =====
-- server/internal/store/sessions.go: the table `sessions` and its repository `SessionRepo`.
-- The proofs are in Store/Sessions/Rotation.
--
-- `now` is the statement's now(). The column refresh_token_hash is UNIQUE
-- (server/migrations/00002_auth.sql), so an INSERT with a hash that is there fails.
pub mod Rotation
use kubby.Prelude.{
  ℕ, ◌+◌, ◌-◌, ◌<◌, String, Bool, true, false, ◌&&◌, not, Option, none, some, List, [], ◌∷◌, ◌++◌,
  str_eq, ltb, leb, ◌==◌, if◌then◌else◌, is_some, length, take, any, sort_by,
}
use kubby.Store.Models.{Session, Time, Duration, Uuid, Bytes}
use kubby.Store.Db.{
  database, ok, err, Db, Query, ◌>>=◌, ◌>>◌, statement, transaction, find, update_where,
  delete_where, select, count_where, or_not_found, affected,
}

abbrev pub has_hash : String → Session → Bool
has_hash hash s = str_eq s.refresh_token_hash hash

abbrev pub has_id : Uuid → Session → Bool
has_id id s = s.id == id

-- `len(s)` counts bytes.
unfoldable pub truncate : Bytes → ℕ → Bytes
truncate s limit = if leb (length s) limit then s else take limit s

-- A row as the INSERT makes it.
abbrev pub new_session : Uuid → Uuid → String → Option String → Bytes → Bool → Time → Time → Session
new_session id user_id token_hash ip user_agent mfa_satisfied expires_at now = record {
  id = id;
  user_id = user_id;
  refresh_token_hash = token_hash;
  ip_address = ip;
  user_agent = user_agent;
  mfa_satisfied = mfa_satisfied;
  created_at = now;
  last_seen_at = now;
  expires_at = expires_at;
  revoked_at = none;
}

-- INSERT INTO sessions … RETURNING
abbrev pub insert : Session → Query Session
insert s = statement (λ db.
    if any (has_hash s.refresh_token_hash) db.sessions
    then (err database, db)
    else (ok s, record db { sessions = db.sessions ++ s ∷ [] }))

unfoldable pub create :
    Uuid → Uuid → String → Option String → Bytes → Bool → Time → Time → Query Session
unfolding truncate
create id user_id token_hash ip user_agent mfa_satisfied expires_at now =
    insert
      (new_session id user_id token_hash ip (truncate user_agent 512) mfa_satisfied expires_at now)

unfoldable pub by_token_hash : String → Query Session
by_token_hash hash = statement (λ db. (or_not_found (find (has_hash hash) db.sessions), db))

abbrev pub revoke_row : Time → Session → Session
revoke_row now s = record s { revoked_at = some now }

-- The WHERE of the first statement of `Rotate`.
abbrev pub rotates : String → Time → Session → Bool
rotates hash now s = has_hash hash s && not (is_some s.revoked_at) && ltb now s.expires_at

-- UPDATE … SET revoked_at = now() … RETURNING: what it returns, it has not changed.
abbrev pub revoke_rotated : String → Time → Query Session
revoke_rotated hash now = statement (λ db. (
  or_not_found (find (rotates hash now) db.sessions),
  record db { sessions = update_where (rotates hash now) (revoke_row now) db.sessions },
))

abbrev pub successor : Uuid → String → Time → Time → Session → Session
successor id new_hash expires_at now old =
    new_session id old.user_id new_hash old.ip_address old.user_agent old.mfa_satisfied expires_at
      now

unfoldable pub rotate : String → Uuid → String → Time → Time → Query Session
rotate old_hash id new_hash expires_at now =
    transaction
      (do old ← revoke_rotated old_hash now; insert (successor id new_hash expires_at now old))

unfoldable pub touch : Uuid → Time → Query (Unit {0})
touch id now = statement (λ db. (
  ok tt,
  record db {
    sessions = update_where (has_id id) (λ s. record s { last_seen_at = now }) db.sessions;
  },
))

unfoldable pub mark_mfa_satisfied : Uuid → Query (Unit {0})
mark_mfa_satisfied id = statement (λ db. (
  ok tt,
  record db {
    sessions = update_where (has_id id) (λ s. record s { mfa_satisfied = true }) db.sessions;
  },
))

abbrev live_with_id : Uuid → Session → Bool
live_with_id id s = s.id == id && not (is_some s.revoked_at)

unfoldable pub revoke : Uuid → Time → Query (Unit {0})
revoke id now = statement (λ db. (
  affected (count_where (live_with_id id) db.sessions),
  record db { sessions = update_where (live_with_id id) (revoke_row now) db.sessions },
))

abbrev is_spared : Option Uuid → Uuid → Bool
is_spared none id = false
is_spared (some except) id = id == except

-- The WHERE of `RevokeAllForUser`, with `AND id <> $2` where a session is spared.
abbrev pub ends_for_user : Uuid → Option Uuid → Session → Bool
ends_for_user user_id except s =
    s.user_id == user_id && not (is_some s.revoked_at) && not (is_spared except s.id)

unfoldable pub revoke_all_for_user : Uuid → Option Uuid → Time → Query ℕ
revoke_all_for_user user_id except now = statement (λ db. (
  ok (count_where (ends_for_user user_id except) db.sessions),
  record db { sessions = update_where (ends_for_user user_id except) (revoke_row now) db.sessions },
))

abbrev active_for_user : Uuid → Time → Session → Bool
active_for_user user_id now s =
    s.user_id == user_id && not (is_some s.revoked_at) && ltb now s.expires_at

abbrev seen_later : Session → Session → Bool
seen_later a b = ltb b.last_seen_at a.last_seen_at

unfoldable pub list_active_for_user : Uuid → Time → Query (List Session)
list_active_for_user user_id now =
    statement
      (λ db. (ok (sort_by seen_later (select (active_for_user user_id now) db.sessions)), db))

-- `expires_at < now() - $1`, which on times is `expires_at + $1 < now()`.
abbrev long_expired : Duration → Time → Session → Bool
long_expired older_than now s = ltb (s.expires_at + older_than) now

unfoldable pub delete_expired : Duration → Time → Query ℕ
delete_expired older_than now = statement (λ db. (
  ok (count_where (long_expired older_than now) db.sessions),
  record db { sessions = delete_where (long_expired older_than now) db.sessions },
))
