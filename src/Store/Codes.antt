-- ===== src/Store/Codes.antt =====
-- server/internal/store/recovery_codes.go: the table `user_recovery_codes` and its repository.
-- The proofs are in Store/Codes/SingleUse.
--
-- A code's identity is generated by the database: `Replace` takes one for each hash. Rows keep the
-- order in which they were made, which is the order of created_at.
pub mod SingleUse
use kubby.Prelude.{
  ℕ, String, Bool, ◌&&◌, not, none, some, List, [], ◌∷◌, ◌++◌, ◌==◌, is_some, codes,
}
use kubby.Store.Models.{RecoveryCode, Time, Uuid}
use kubby.Store.Db.{
  ok, Db, Query, pure, ◌>>=◌, ◌>>◌, statement, transaction, update_where, delete_where, select,
  count_where, affected,
}

abbrev pub of_user : Uuid → RecoveryCode → Bool
of_user user_id c = c.user_id == user_id

-- The inserts of `Replace`, a statement each.
abbrev pub insert_all : Uuid → List (Uuid × String) → Query (Unit {0})
insert_all user_id [] = pure tt
insert_all user_id ((id, hash) ∷ rest) = do
  statement (λ db. (
    ok tt,
    record db {
      codes =
          db.codes ++ record { id = id; user_id = user_id; code_hash = hash; used_at = none } ∷ [];
    },
  ))
  insert_all user_id rest

abbrev pub clear : Uuid → Query (Unit {0})
clear user_id =
    statement (λ db. (ok tt, record db { codes = delete_where (of_user user_id) db.codes }))

unfoldable pub replace : Uuid → List (Uuid × String) → Query (Unit {0})
replace user_id hashes = transaction (do clear user_id; insert_all user_id hashes)

abbrev pub is_unused : Uuid → RecoveryCode → Bool
is_unused user_id c = c.user_id == user_id && not (is_some c.used_at)

-- The ids and the hashes, side by side.
unfoldable pub unused_hashes : Uuid → Query (List RecoveryCode)
unused_hashes user_id = statement (λ db. (ok (select (is_unused user_id) db.codes), db))

abbrev pub can_consume : Uuid → RecoveryCode → Bool
can_consume id c = c.id == id && not (is_some c.used_at)

unfoldable pub consume : Uuid → Time → Query (Unit {0})
consume id now = statement (λ db. (
  affected (count_where (can_consume id) db.codes),
  record db {
    codes = update_where (can_consume id) (λ c. record c { used_at = some now }) db.codes;
  },
))

unfoldable pub count_unused : Uuid → Query ℕ
count_unused user_id = statement (λ db. (ok (count_where (is_unused user_id) db.codes), db))
