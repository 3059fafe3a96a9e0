-- ===== src/Settings/Secrets.antt =====
-- What is saved is what is used, and a secret that is not typed again is kept
-- (server/internal/settings/settings.go over store/settings.go and crypto/envelope.go).
use kubby.Prelude.{
  ◌<◌, ◌≡◌, refl, Bool, true, false, none, some, List, [], ◌∷◌, arith, if◌then◌else◌, Text, text_eq,
  text_eq_refl, text_eq_iff, is_empty,
}
use kubby.Crypto.{Randomness}
use kubby.Crypto.Envelope.{GcmLaws, CanSeal, sealed, seal-layout, open_blob-sealed}
use kubby.Store.Models.{Uuid, Time, Bytes, SecretRow}
use kubby.Store.Db.{Db, next_fault, find, delete_where, find-delete_where}
use kubby.Store.Flow.{go}
use kubby.Store.Settings.{is_secret, upsert, secret_row, get_secret, put_secret, delete_secret}
use kubby.Settings.Service.{Service, store_secret, secret}

-- The row that was written is the one that is found.
pub find-upsert :
    {A : Type 0} (same : A → Bool) (new : A) (rs : List A)
    → same new ≡ true
    → find same (upsert same new rs) ≡ some new
find-upsert same new [] h = ground arith
find-upsert same new (r ∷ rs) h = ground (arith, find-upsert same new rs h)

-- Another search finds what it found, where the two never agree.
pub find-upsert_other :
    {A : Type 0} (same other : A → Bool) (new : A) (rs : List A)
    → other new ≡ false
    → ((a : A) → same a ≡ true → other a ≡ false)
    → find other (upsert same new rs) ≡ find other rs
find-upsert_other same other new [] h apart = ground arith
find-upsert_other same other new (r ∷ rs) h apart =
    ground (arith, find-upsert_other same other new rs h apart, apart r)

find-delete_where_other :
    {A : Type 0} (same other : A → Bool) (rs : List A)
    → ((a : A) → same a ≡ true → other a ≡ false)
    → find other (delete_where same rs) ≡ find other rs
find-delete_where_other same other [] apart = refl
find-delete_where_other same other (r ∷ rs) apart =
    ground (arith, find-delete_where_other same other rs apart, apart r)

is_secret-apart :
    (key other : Text) (a : SecretRow)
    → text_eq key other ≡ false
    → is_secret key a ≡ true
    → is_secret other a ≡ false
is_secret-apart key other a h k =
    ground (arith, text_eq_iff a.key key, text_eq_iff a.key other, text_eq_iff key other)

module _ (svc : Service) (r : Randomness) {kek dek n1 n2 : Bytes}
    (given : CanSeal svc.keyring r kek dek n1 n2) (laws : GcmLaws svc.gcm)
    (fits : svc.keyring.active_version < 65536) where
  -- What is read of a secret after it was stored, where the active key version is below 65536, the keyring
  -- can seal and the cipher opens what it sealed, and no statement fails: nothing once it was cleared,
  -- what was there where the field was left empty, and otherwise the new value. The secrets under other
  -- keys are found as they were.
  pub secret-store_secret :
      (key value : Bytes) (clear : Bool) (by : Uuid) (now : Time) (db : Db)
      → (store_secret svc key value clear r by now db).0 ≡ go tt
      → let db' = (store_secret svc key value clear r by now db).1 in
        next_fault db'.faults ≡ false
        → ((secret svc key db').0 ≡ (
            if clear
            then go none
            else if is_empty value
            then (secret svc key db).0
            else go (some value)))
          × ((other : Text)
              → text_eq key other ≡ false
              → find (is_secret other) db'.secrets ≡ find (is_secret other) db.secrets)
  unfolding store_secret secret put_secret delete_secret get_secret
  secret-store_secret key value true by now db h f = (
    ground (arith, find-delete_where (is_secret key) db.secrets),
    λ other apart. ground (
      arith,
      h,
      find-delete_where_other (is_secret key) (is_secret other) db.secrets
          (λ a. is_secret-apart key other a apart),
    ),
  )
  secret-store_secret key [] false by now db h f = (refl, λ other apart. refl)
  secret-store_secret key (c ∷ cs) false by now db h f =
      let value : Bytes = c ∷ cs in
      let blob : Bytes = sealed svc.gcm svc.keyring r value key given in
      let row : SecretRow = secret_row key blob svc.keyring.active_version by now in
      (
        ground (
          arith,
          h,
          seal-layout svc.gcm svc.keyring r value key given,
          find-upsert (is_secret key) row db.secrets (text_eq_refl key),
          open_blob-sealed svc.gcm svc.keyring r value key given svc.keyring laws fits given.active,
        ),
        λ other apart. ground (
          arith,
          h,
          seal-layout svc.gcm svc.keyring r value key given,
          find-upsert_other (is_secret key) (is_secret other) row db.secrets apart
              (λ a. is_secret-apart key other a apart),
        ),
      )
