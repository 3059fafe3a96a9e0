-- ===== src/Auth/Service/Recovery.antt =====
-- A sign-in that a recovery code completes (server/internal/auth/service.go).
use kubby.Prelude.{
  ℕ, suc, ◌+◌, String, ◌≡◌, refl, ap, ◌∙◌, inl, inr, Bool, true, some, List, [], ◌∷◌, map, arith,
  Bool-cases, Option-cases, In, Text,
}
use kubby.Crypto.{Keyring}
use kubby.Store.Codes.SingleUse.{none_left}
use kubby.Store.Models.{User, Session, RecoveryCode}
use kubby.Store.Db.{Db, select, count_where}
use kubby.Store.Codes.{consume, is_unused, can_consume, unused_hashes}
use kubby.Store.Sessions.{mark_mfa_satisfied}
use kubby.Store.Users.{record_successful_login}
use kubby.Auth.Totp.{normalize_recovery_code}
use kubby.Auth.Totp.Codes.{first_match, match_recovery_code-first_match}
use kubby.Auth.Service.Types.{Primitives, Draw}
use kubby.Auth.Service.Types
use kubby.Auth.Service.SecondFactor.{complete_mfa_with_recovery_code, row_at, code_hash_of}

-- The row at the position that matching answers with.
first_match-row :
    (p : String → Bool) (j : ℕ) (rows : List RecoveryCode) {i : ℕ}
    → first_match p j (map code_hash_of rows) ≡ some i
    → (n : ℕ) × (c : RecoveryCode) × (i ≡ j + n)
      × (row_at rows n ≡ some c)
      × In c rows
      × (p c.code_hash ≡ true)
first_match-row p j [] h = cc
first_match-row p j (r ∷ rs) {i} h = elim (Bool-cases (p r.code_hash)) [
  | inl e ↦ (0, r, ground (arith, e, h), refl, inl refl, e)
  | inr e ↦
      let (n, c, at, row, member, good) = first_match-row p (j + 1) rs {i = i} (rw e at h) in
      (suc n, c, omega (arith, at), row, inr member, good)
]

module _ (x : Primitives) (k : Keyring) (d : Draw) (session : Session) (user : User) (code : Text)
    (db : Db) where
  abbrev unused : List RecoveryCode
  unused = select (is_unused user.id) db.codes

  abbrev matches : String → Bool
  matches = x.verify_password (normalize_recovery_code x.unicode code)

  -- A recovery code completes a sign-in only if it verifies against an unused code of the account,
  -- and no row with that code's identity can be consumed afterwards.
  complete_mfa_with_recovery_code-ok :
      (complete_mfa_with_recovery_code x k d session user code db).0 ≡ Types.ok tt
      → (c : RecoveryCode) × In c (select (is_unused user.id) db.codes)
        × (x.verify_password (normalize_recovery_code x.unicode code) c.code_hash ≡ true)
        × (count_where
              (can_consume c.id)
              (complete_mfa_with_recovery_code x k d session user code db).1.codes
            ≡ 0)
  unfolding complete_mfa_with_recovery_code unused_hashes consume mark_mfa_satisfied
      record_successful_login
  complete_mfa_with_recovery_code-ok h =
      let same =
        match_recovery_code-first_match x.unicode x.verify_password code
          (map code_hash_of unused) in
      elim (Option-cases (first_match matches 0 (map code_hash_of unused))) [
        | inl e ↦ absurd (ground (arith, same, e))
        | inr (i, e) ↦
            let (n, c, at, row, member, good) = first_match-row matches 0 unused e in
            let here : row_at unused i ≡ some c = ap (row_at unused) (omega (arith, at)) ∙ row in
            (c, member, good, ground (arith, same, e, here, none_left c.id d.db_now db.codes))
      ]
