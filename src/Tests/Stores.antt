-- ===== src/Tests/Stores.antt =====
-- Roles and repositories at concrete inputs.
use kubby.Prelude.{◌*◌, ◌≡◌, refl, ◌≢◌, false, ◌&&◌, not, List, [], ◌∷◌, arith, leb}
use kubby.Store.Models.{is_blocked, Session}
use kubby.Store.Db.{ok}
use kubby.Store.Users.Lockout.{Attempt, fail_all, failures, blocked-fail_all}
use kubby.Store.Sessions.{rotate}
use kubby.Store.Sessions.Rotation.{rotate_once}
use kubby.Tests.Data.{guest, session, db}

abbrev attempts : List Attempt
attempts = (1, 5) ∷ (2, 5) ∷ (9, 5) ∷ (10, 5) ∷ []

blocked-fail_all_example :
    (is_blocked (fail_all 2 2 attempts guest) ≡ (leb (2 * 2) 4 && not false))
    × (failures 2 2 (fail_all 2 2 attempts guest) ≡ 4)
blocked-fail_all_example =
    blocked-fail_all 2 2 attempts guest (omega arith) (omega arith) refl refl refl

abbrev rotated : Session
rotated = session 20 2 "fresh"

abbrev made : Session
made = record rotated { created_at = 10; last_seen_at = 10; expires_at = 60 }

rotate_once_example :
    (rotate "token" 21 "newer" 90 11 (rotate "token" 20 "fresh" 60 10 db).1).0 ≢ ok made
unfolding rotate
rotate_once_example =
    rotate_once "token" "fresh" "newer" 20 21 60 90 10 11 db {s = made} (omega arith) refl
