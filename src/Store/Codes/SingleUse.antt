-- ===== src/Store/Codes/SingleUse.antt =====
-- A recovery code is used once (server/internal/store/recovery_codes.go).
use kubby.Prelude.{◌≡◌, refl, ◌≢◌, some, List, [], ◌∷◌, arith}
use kubby.Store.Models.{Time, Uuid, RecoveryCode}
use kubby.Store.Db.{ok, Db, update_where, count_where}
use kubby.Store.Codes.{consume, can_consume}

abbrev pub use_code : Time → RecoveryCode → RecoveryCode
use_code now c = record c { used_at = some now }

pub none_left :
    (id : Uuid) (now : Time) (codes : List RecoveryCode)
    → count_where (can_consume id) (update_where (can_consume id) (use_code now) codes) ≡ 0
none_left id now [] = refl
none_left id now (c ∷ cs) = ground (arith, none_left id now cs)

-- Once a code is consumed, consuming it again fails, at any time.
consume_once :
    (id : Uuid) (now later : Time) (db : Db)
    → (consume id now db).0 ≡ ok tt
    → (consume id later (consume id now db).1).0 ≢ ok tt
unfolding consume
consume_once id now later db h again = ground (arith, none_left id now db.codes)
