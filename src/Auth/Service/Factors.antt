-- ===== src/Auth/Service/Factors.antt =====
-- What a second factor guarantees, and what it does not (server/internal/auth/service.go).
use mathlib.Core.List.{append_assoc, append-nil}
use kubby.Prelude.{
  map, Bool, if◌then◌else◌, ℕ, suc, ◌-◌, ◌<◌, String, ◌≡◌, refl, ◌∙◌, ◌⊎◌, inl, inr, true, false,
  none, some, List, [], ◌∷◌, ◌++◌, arith, Text,
}
use kubby.Crypto
use kubby.Crypto.{Keyring, open_blob, seal, layout}
use kubby.Crypto.Envelope.{GcmLaws, CanSeal, open_blob-seal}
use kubby.Store.Models.{Time, Uuid, Bytes, User, is_present, has_mfa, Session, RecoveryCode}
use kubby.Store.Db.{
  ok, Db, find, find-holds, select, update_where, delete_where, count_where, count_where-pos,
}
use kubby.Store.Users
use kubby.Store.Users.{
  has_id, set_totp_secret, has_secret, successful_login, record_successful_login,
}
use kubby.Store.Codes.{of_user, insert_all, replace}
use kubby.Store.Sessions
use kubby.Store.Sessions.{mark_mfa_satisfied}
use kubby.Auth.Totp.{verify_totp}
use kubby.Auth.Service.Types.{Primitives, Draw}
use kubby.Auth.Service.Types
use kubby.Auth.Service.SecondFactor.{
  stored, decrypt_totp_secret, complete_mfa, enroll_totp, confirm_totp,
}

module _ (x : Primitives) (k : Keyring) (d : Draw) where
  -- A one-time code completes a sign-in only for an account with a confirmed second factor, whose
  -- stored secret opens under the account's own id and accepts the code now.
  pub complete_mfa-ok :
      (session : Session) (user : User) (code : Text) (db : Db)
      → (complete_mfa x k d session user code db).0 ≡ Types.ok tt
      → (has_mfa user ≡ true)
        × ((secret : Text) × (open_blob x.gcm k (stored user.totp_secret_enc) (x.id_bytes user.id)
              ≡ Crypto.ok secret)
            × (verify_totp x.validate_totp code secret d.now ≡ true))
  unfolding complete_mfa decrypt_totp_secret
  complete_mfa-ok session user code db h =
      elim (opened-cases (open_blob x.gcm k (stored user.totp_secret_enc) (x.id_bytes user.id))) [
        | inl (secret, e) ↦ (ground arith, (secret, e, ground arith))
        | inr (failure, e) ↦ absurd (ground arith)
      ]
    where
      opened-cases :
          (r : Crypto.Result Bytes)
          → ((secret : Text) × (r ≡ Crypto.ok secret)) ⊎ ((e : Crypto.Error) × (r ≡ Crypto.err e))
      opened-cases (Crypto.ok secret) = inl (secret, refl)
      opened-cases (Crypto.err e) = inr (e, refl)

-- A database in which no statement fails.
abbrev pub quiet : Db → Db
quiet db = record db { faults = [] }

-- The row that `Replace` inserts for a hash.
abbrev pub code_of : Uuid → Uuid × String → RecoveryCode
code_of user_id (id, hash) = record { id = id; user_id = user_id; code_hash = hash; used_at = none }

insert_all-quiet :
    (user_id : Uuid) (rows : List (Uuid × String)) (db : Db)
    → insert_all user_id rows (quiet db)
      ≡ (ok tt, record (quiet db) { codes = db.codes ++ map (code_of user_id) rows })
insert_all-quiet user_id [] db = rw (append-nil db.codes) refl
insert_all-quiet user_id (r ∷ rest) db =
    let more = record db { codes = db.codes ++ code_of user_id r ∷ [] } in
    rw (insert_all-quiet user_id rest more)
      (rw (append_assoc db.codes (code_of user_id r ∷ []) (map (code_of user_id) rest)) refl)

replace-quiet :
    (user_id : Uuid) (rows : List (Uuid × String)) (db : Db)
    → replace user_id rows (quiet db) ≡ (
      ok tt,
      record (quiet db) {
        codes = delete_where (of_user user_id) db.codes ++ map (code_of user_id) rows;
      },
    )
unfolding replace
replace-quiet user_id rows db =
    rw
      (insert_all-quiet user_id rows
        (record db { codes = delete_where (of_user user_id) db.codes }))
      refl

-- The account's recovery codes are the ones that replaced the others.
select-replaced :
    (user_id : Uuid) (rows : List (Uuid × String)) (old : List RecoveryCode)
    → select (of_user user_id) (delete_where (of_user user_id) old ++ map (code_of user_id) rows)
      ≡ map (code_of user_id) rows
select-replaced user_id [] [] = refl
select-replaced user_id (r ∷ rows) [] = ground (arith, select-replaced user_id rows [])
select-replaced user_id rows (c ∷ old) = ground (arith, select-replaced user_id rows old)

present-of_open :
    (x : Primitives) (k : Keyring) (blob aad : Bytes) {p : Bytes}
    → open_blob x.gcm k blob aad ≡ Crypto.ok p
    → is_present (some blob) ≡ true
unfolding open_blob
present-of_open x k [] aad h = cc
present-of_open x k (b ∷ bs) aad h = refl

-- The row that `SetTOTPSecret` leaves.
abbrev pub with_secret : Bytes → Time → User → User
with_secret blob now u = record u {
  totp_secret_enc = some blob;
  totp_confirmed_at = none;
  updated_at = now;
}

-- An update that leaves identities alone changes the row that is found as its condition says.
find-updated :
    (id : Uuid) (p : User → Bool) (f : User → User)
    → ((v : User) → (f v).id ≡ v.id)
    → (users : List User) {u : User} → find (has_id id) users ≡ some u
    → find (has_id id) (update_where p f users) ≡ some (if p u then f u else u)
find-updated id p f same [] h = cc
find-updated id p f same (v ∷ vs) {u} h =
    ground (arith, find-updated id p f same vs {u = u}, same v)

find-with_secret :
    (id : Uuid) (blob : Bytes) (now : Time) (users : List User) {u : User}
    → find (has_id id) users ≡ some u
    → find (has_id id) (update_where (has_id id) (with_secret blob now) users)
      ≡ some (with_secret blob now u)
find-with_secret id blob now users h = ground (
  arith,
  find-updated id (has_id id) (with_secret blob now) (λ v. refl) users h,
  find-holds (has_id id) users h,
)

-- The row that `ConfirmTOTP` and then `RecordSuccessfulLogin` leave of one with a new secret.
abbrev with_factor : Bytes → Time → Time → User → User
with_factor blob now later u =
    successful_login later
      (record (with_secret blob now u) { totp_confirmed_at = some later; updated_at = later })

find-with_factor :
    (id : Uuid) (blob : Bytes) (now later : Time) (users : List User) {u : User}
    → find (has_id id) users ≡ some u
    → find (has_id id) (
        update_where (has_id id) (successful_login later) (
          update_where
            (has_secret id)
            (λ v. record v { totp_confirmed_at = some later; updated_at = later })
            (update_where (has_id id) (with_secret blob now) users)))
      ≡ some (with_factor blob now later u)
unfolding successful_login
find-with_factor id blob now later users {u} h =
    let confirm : User → User =
      λ v. record v { totp_confirmed_at = some later; updated_at = later } in
    let sealed = update_where (has_id id) (with_secret blob now) users in
    let own = find-holds (has_id id) users h in
    let first = find-with_secret id blob now users h in
    let second = find-updated id (has_secret id) confirm (λ v. refl) sealed first in
    let confirmed : find (has_id id) (update_where (has_secret id) confirm sealed)
        ≡ some (confirm (with_secret blob now u)) =
      ground (arith, second, own) in
    ground (
      arith,
      find-updated id (has_id id) (successful_login later) (λ v. refl)
          (update_where (has_secret id) confirm sealed) confirmed,
      own,
    )

counted-of_find :
    (id : Uuid) (users : List User) {u : User}
    → find (has_id id) users ≡ some u
    → (n : ℕ) × (count_where (has_id id) users ≡ suc n)
counted-of_find id users h =
    (count_where (has_id id) users - 1, omega (arith, count_where-pos (has_id id) users h))

has_secret-with_secret :
    (id : Uuid) (blob : Bytes) (now : Time) (users : List User)
    → count_where (has_secret id) (update_where (has_id id) (with_secret blob now) users)
      ≡ count_where (has_id id) users
has_secret-with_secret id blob now [] = refl
has_secret-with_secret id blob now (v ∷ vs) = ground (arith, has_secret-with_secret id blob now vs)

has_factor :
    (blob : Bytes) (now later : Time) (u : User)
    → is_present (some blob) ≡ true
    → has_mfa (with_factor blob now later u) ≡ true
unfolding has_mfa successful_login
has_factor blob now later u h = ground (arith, h)

opened :
    {A : Type 0} {a : A} (r : Bytes → A) (blob : Bytes) (now later : Time) (u : User)
    → r blob ≡ a
    → r (stored (with_factor blob now later u).totp_secret_enc) ≡ a
unfolding successful_login
opened r blob now later u h = h

module _ (x : Primitives) (k : Keyring) (d : Draw) (secret : Text) (u : User) (db : Db)
    {kek dek n1 n2 : Bytes} (given : CanSeal k d.randomness kek dek n1 n2) (laws : GcmLaws x.gcm)
    (fits : k.active_version < 65536) (row : find (has_id u.id) db.users ≡ some u) where
  abbrev enrolled : Bytes → Db
  enrolled blob = record (quiet db) {
    users = update_where (has_id u.id) (with_secret blob d.db_now) db.users;
  }

  enroll_totp-quiet :
      (blob : Bytes) × (enroll_totp x k d (some secret) u (quiet db)
        ≡ (Types.ok secret, enrolled blob))
      × (open_blob x.gcm k blob (x.id_bytes u.id) ≡ Crypto.ok secret)
  unfolding enroll_totp set_totp_secret
  enroll_totp-quiet =
      let (blob, sealed_it, opens) =
        open_blob-seal x.gcm k d.randomness secret (x.id_bytes u.id) given k laws fits
          given.active in
      let (n, counted) = counted-of_find u.id db.users row in
      (blob, ground (arith, sealed_it, counted), opens)

  -- A session that owes its second factor, of any account, is satisfied by enrolling a new secret
  -- and presenting a code of that secret: neither a code of the second factor that the account had
  -- nor a recovery code is asked for. The account's row then holds the new secret, confirmed, and its
  -- recovery codes are the newly drawn ones alone. This is where the account has a row, no statement
  -- fails, the active key version is below 65536, the keyring can seal and the cipher opens what it
  -- sealed.
  pub confirm_totp-enroll :
      (later : Draw) (s : Session) (code : Text) {codes : List Text} {rows : List (Uuid × String)}
      → s.mfa_satisfied ≡ false
      → verify_totp x.validate_totp code secret later.now ≡ true
      → later.recovery_codes ≡ some (codes, rows)
      → let began = (enroll_totp x k d (some secret) u (quiet db)).1 in
        (v : User) × (find (has_id u.id) began.users ≡ some v)
        × ((confirm_totp x k later (some s) v code began).0 ≡ Types.ok codes)
        × ((confirm_totp x k later (some s) v code began).1.sessions
            ≡ update_where
                (Sessions.has_id s.id)
                (λ r. record r { mfa_satisfied = true })
                db.sessions)
        × (select (of_user u.id) (confirm_totp x k later (some s) v code began).1.codes
            ≡ map (code_of u.id) rows)
        × ((w : User) × (find (has_id u.id) (confirm_totp x k later (some s) v code began).1.users
              ≡ some w)
            × (has_mfa w ≡ true)
            × (open_blob x.gcm k (stored w.totp_secret_enc) (x.id_bytes u.id) ≡ Crypto.ok secret))
  unfolding confirm_totp decrypt_totp_secret Users.confirm_totp mark_mfa_satisfied
      record_successful_login
  confirm_totp-enroll later s code {codes} {rows} pending accepted drew =
      let (blob, did, opens) = enroll_totp-quiet in
      let done = replace-quiet u.id rows (enrolled blob) in
      let (n, counted) = counted-of_find u.id db.users row in
      let left : count_where (has_secret u.id) (enrolled blob).users ≡ suc n =
        has_secret-with_secret u.id blob d.db_now db.users ∙ counted in
      let present = present-of_open x k blob (x.id_bytes u.id) opens in
      (
        with_secret blob d.db_now u,
        rw did (find-with_secret u.id blob d.db_now db.users row),
        rw did (ground (arith, present, opens, done, left)),
        rw did (ground (arith, present, opens, done, left)),
        rw did (ground (arith, present, opens, done, left, select-replaced u.id rows db.codes)),
        (
          with_factor blob d.db_now later.db_now u,
          rw did (
              ground (
                arith,
                present,
                opens,
                done,
                left,
                find-with_factor u.id blob d.db_now later.db_now db.users row,
              )),
          has_factor blob d.db_now later.db_now u present,
          opened (λ b. open_blob x.gcm k b (x.id_bytes u.id)) blob d.db_now later.db_now u opens,
        ),
      )
