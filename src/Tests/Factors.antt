-- ===== src/Tests/Factors.antt =====
-- Second factors at concrete inputs.
use kubby.Store.Codes.{of_user}
use kubby.Prelude.{
  map, ◌≡◌, refl, true, false, some, [], ◌∷◌, arith, codes, Text, text_eq, is_space, trim_left,
  trim_space,
}
use kubby.Crypto
use kubby.Crypto.{layout, open_blob, decrypt}
use kubby.Store.Models.{User, Session, Bytes, has_mfa}
use kubby.Store.Db.{Db, find, select, update_where}
use kubby.Store.Users.{has_id, record_successful_login}
use kubby.Store.Sessions
use kubby.Store.Sessions.{mark_mfa_satisfied}
use kubby.Auth.Totp.{verify_totp, without_spaces}
use kubby.Auth.Service.Types.{Draw}
use kubby.Auth.Service.Types
use kubby.Auth.Service.SecondFactor.{
  stored, complete_mfa, decrypt_totp_secret, enroll_totp, confirm_totp,
}
use kubby.Auth.Service.Factors.{code_of, complete_mfa-ok, confirm_totp-enroll, quiet}
use kubby.Tests.Data.{gcm, zeros, primitives, at_time, db, guest, session}
use kubby.Tests.Sealing.{gcm_laws, ring, ring-CanSeal}

abbrev blob : Bytes
blob =
    layout 3 (zeros 12) (gcm.seal (zeros 32) (zeros 12) (zeros 32) []) (zeros 12)
      (gcm.seal (zeros 32) (zeros 12) (codes "123456") (2 ∷ []))

abbrev careful : User
careful = record guest { totp_secret_enc = some blob; totp_confirmed_at = some 1 }

abbrev pending : Session
pending = record (session 7 2 "token") { mfa_satisfied = false }

complete_mfa-ok_example :
    (has_mfa careful ≡ true)
    × ((secret : Text) × (open_blob gcm (ring 3) blob (2 ∷ []) ≡ Crypto.ok secret)
        × (verify_totp primitives.validate_totp (codes "123 456") secret 10 ≡ true))
unfolding complete_mfa has_mfa decrypt_totp_secret open_blob decrypt verify_totp without_spaces
    trim_space trim_left is_space text_eq mark_mfa_satisfied record_successful_login
complete_mfa-ok_example =
    complete_mfa-ok primitives (ring 3) (at_time 10) pending careful (codes "123 456") db refl

abbrev secured : Db
secured = record db { users = careful ∷ [] }

abbrev later : Draw
later = record (at_time 11) { recovery_codes = some (codes "abcd" ∷ [], (30, "abcd") ∷ []) }

confirm_totp-enroll_example :
    let began =
      (enroll_totp primitives
        (ring 3)
        (at_time 10)
        (some (codes "777"))
        careful
        (quiet secured)).1 in
    (v : User) × (find (has_id 2) began.users ≡ some v)
    × ((confirm_totp primitives (ring 3) later (some pending) v (codes "777") began).0
        ≡ Types.ok (codes "abcd" ∷ []))
    × ((confirm_totp primitives (ring 3) later (some pending) v (codes "777") began).1.sessions
        ≡ update_where
            (Sessions.has_id 7)
            (λ r. record r { mfa_satisfied = true })
            secured.sessions)
    × (select
          (of_user 2)
          (confirm_totp primitives (ring 3) later (some pending) v (codes "777") began).1.codes
        ≡ map (code_of 2) ((30, "abcd") ∷ []))
    × ((w : User) × (find
            (has_id 2)
            (confirm_totp primitives (ring 3) later (some pending) v (codes "777") began).1.users
          ≡ some w)
        × (has_mfa w ≡ true)
        × (open_blob gcm (ring 3) (stored w.totp_secret_enc) (primitives.id_bytes 2)
            ≡ Crypto.ok (codes "777")))
unfolding verify_totp without_spaces trim_space trim_left is_space text_eq
confirm_totp-enroll_example =
    confirm_totp-enroll primitives (ring 3) (at_time 10) (codes "777") careful secured ring-CanSeal
      gcm_laws (omega arith) refl later pending (codes "777") refl refl refl
