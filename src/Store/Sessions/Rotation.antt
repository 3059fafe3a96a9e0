-- ===== src/Store/Sessions/Rotation.antt =====
-- Rotation and revocation (server/internal/store/sessions.go).
use kubby.Prelude.{
  ◌≤◌, String, ◌≡◌, refl, ◌∙◌, ◌≢◌, inl, inr, Bool, true, false, ◌&&◌, not, none, some, List, [],
  ◌∷◌, ◌++◌, arith, str_eq, eq_iff, ltb, Option-cases, is_some, any, All, All-append,
}
use kubby.Store.Models.{Time, Uuid, Session}
use kubby.Store.Db.{
  ok, Db, find, update_where, find-holds, All-find, All-update_where, find-append_none,
}
use kubby.Store.Sessions.{has_hash, rotates, revoke_row, rotate, successor}

module _ (hash new_hash : String) (id : Uuid) (expires_at now : Time) (db : Db) {s : Session}
    (rotated : (rotate hash id new_hash expires_at now db).0 ≡ ok s) where
  abbrev after : Db
  after = (rotate hash id new_hash expires_at now db).1

  -- What a successful rotation wrote: the row that was presented is revoked and its successor added.
  rotate-ok :
      (old : Session) × (find (rotates hash now) db.sessions ≡ some old)
      × (s ≡ successor id new_hash expires_at now old)
      × (after.sessions ≡ update_where (rotates hash now) (revoke_row now) db.sessions ++ s ∷ [])
      × (any (has_hash new_hash) (update_where (rotates hash now) (revoke_row now) db.sessions)
          ≡ false)
  unfolding rotate
  rotate-ok = elim (Option-cases (find (rotates hash now) db.sessions)) [
    | inl e ↦ absurd (ground arith)
    | inr (old, e) ↦ (old, e, ground arith, ground arith, ground arith)
  ]

any_hash-update_where :
    (hash : String) (p : Session → Bool) (now : Time) (sessions : List Session)
    → any (has_hash hash) (update_where p (revoke_row now) sessions) ≡ any (has_hash hash) sessions
any_hash-update_where hash p now [] = refl
any_hash-update_where hash p now (s ∷ ss) = ground (arith, any_hash-update_where hash p now ss)

any_hash-find :
    (hash : String) (now : Time) (sessions : List Session) {s : Session}
    → find (rotates hash now) sessions ≡ some s
    → any (has_hash hash) sessions ≡ true
any_hash-find hash now [] h = cc
any_hash-find hash now (x ∷ xs) {s} h = ground (arith, any_hash-find hash now xs {s = s})

-- A row with this hash may not be used at this time or later.
abbrev pub IsSpent : String → Time → Session → Type 0
IsSpent hash now s = (has_hash hash s && not (is_some s.revoked_at) && ltb now s.expires_at) ≡ false

All-IsSpent :
    (hash : String) (now later : Time) (sessions : List Session)
    → now ≤ later
    → All (IsSpent hash later) (update_where (rotates hash now) (revoke_row now) sessions)
All-IsSpent hash now later sessions h =
    All-update_where (IsSpent hash later) (rotates hash now) (revoke_row now) (λ s e. ground arith)
      (λ s e. ground arith) sessions

-- After a rotation at one time, every row with the old hash is spent at each later time.
pub All-IsSpent-rotate :
    (hash new_hash : String) (id : Uuid) (expires_at now later : Time) (db : Db) {s : Session}
    → now ≤ later
    → (rotate hash id new_hash expires_at now db).0 ≡ ok s
    → All (IsSpent hash later) (rotate hash id new_hash expires_at now db).1.sessions
All-IsSpent-rotate hash new_hash id expires_at now later db {s} h rotated =
    let (old, found, made, written, fresh) = rotate-ok hash new_hash id expires_at now db rotated in
    let differs : str_eq new_hash hash ≡ false = ground (
      arith,
      eq_iff new_hash hash,
      any_hash-update_where new_hash (rotates hash now) now db.sessions,
      any_hash-find hash now db.sessions found,
    ) in
    rw written (
      All-append (IsSpent hash later) (update_where (rotates hash now) (revoke_row now) db.sessions)
        (s ∷ []) (All-IsSpent hash now later db.sessions h) (ground (arith, made, differs)))

-- A token is rotated once: after a successful rotation no other one, at the same time or later,
-- succeeds with the old token's hash, whatever it is given.
pub rotate_once :
    (hash new_hash other_hash : String) (id other_id : Uuid)
    (expires_at other_expiry now later : Time) (db : Db) {s t : Session}
    → now ≤ later
    → (rotate hash id new_hash expires_at now db).0 ≡ ok s
    → (rotate hash other_id other_hash other_expiry later
        (rotate hash id new_hash expires_at now db).1).0
      ≢ ok t
rotate_once hash new_hash other_hash id other_id expires_at other_expiry now later db h rotated
      again =
    let db' = (rotate hash id new_hash expires_at now db).1 in
    let (old, found, _, _, _) = rotate-ok hash other_hash other_id other_expiry later db' again in
    let spent =
      All-find (IsSpent hash later) (rotates hash later) db'.sessions
        (All-IsSpent-rotate hash new_hash id expires_at now later db h rotated) found in
    cc (spent, find-holds (rotates hash later) db'.sessions found)

-- The successor belongs to the same account and owes its second factor if the old session did; it
-- is not revoked, expires when it was told to, and is the one row under the new hash.
rotate-successor :
    (hash new_hash : String) (id : Uuid) (expires_at now : Time) (db : Db) {s : Session}
    → (rotate hash id new_hash expires_at now db).0 ≡ ok s
    → (old : Session) × (find (rotates hash now) db.sessions ≡ some old)
      × (s.user_id ≡ old.user_id)
      × (s.mfa_satisfied ≡ old.mfa_satisfied)
      × (s.revoked_at ≡ none)
      × (s.expires_at ≡ expires_at)
      × (find (has_hash new_hash) (rotate hash id new_hash expires_at now db).1.sessions ≡ some s)
rotate-successor hash new_hash id expires_at now db {s} rotated =
    let (old, found, made, written, fresh) = rotate-ok hash new_hash id expires_at now db rotated in
    (
      old,
      found,
      ground (arith, made),
      ground (arith, made),
      ground (arith, made),
      ground (arith, made),
      rw written (
          find-append_none (has_hash new_hash)
            (update_where (rotates hash now) (revoke_row now) db.sessions) (s ∷ []) fresh
          ∙ ground (arith, made, eq_iff new_hash new_hash)),
    )
