-- ===== src/Store/Settings.antt =====
-- server/internal/store/settings.go: the repository `SettingsRepo`, over the tables of
-- server/migrations/00005_settings.sql.
--
-- `Codec` is encoding/json for a type of values: `decode` reads stored bytes into a value, whose fields
-- the bytes leave out keep what they were. The statement's now() is an argument.
use kubby.Prelude.{
  ℕ, Bool, true, false, ◌&&◌, Option, none, some, List, [], ◌∷◌, ltb, if◌then◌else◌, any, Text,
  text_eq,
}
use kubby.Store.Models.{Uuid, Time, Bytes, SettingRow, SecretRow}
use kubby.Store.Db.{Query, Error, ok, err, database, statement, find, delete_where}
use kubby.Store.Flow.{Call, pure, leave, ◌>>=◌, run}
use kubby.Store.Users.{has_id}

pub record Codec (A : Type 0) : Type 0 where
  pub encode : A → Option Bytes
  pub decode : Bytes → A → Option A

pub data SettingError : Type 0 where
  unreadable : Error → SettingError
  undecodable unencodable : SettingError

abbrev pub is_setting : Text → SettingRow → Bool
is_setting key r = text_eq r.key key

abbrev pub is_secret : Text → SecretRow → Bool
is_secret key r = text_eq r.key key

abbrev value_of : Option SettingRow → Option Bytes
value_of none = none
value_of (some r) = some r.value

-- The query of Get.
unfoldable pub stored_value : Text → Query (Option Bytes)
unfolding text_eq
stored_value key = statement (λ db. (ok (value_of (find (is_setting key) db.settings)), db))

abbrev read_into : {A : Type 0} → Option A → Call SettingError (Bool × A)
read_into none = leave undecodable
read_into (some a) = pure (true, a)

abbrev decode_into : {A : Type 0} → Codec A → A → Option Bytes → Call SettingError (Bool × A)
decode_into codec into none = pure (false, into)
decode_into codec into (some raw) = read_into (codec.decode raw into)

-- Whether the setting is stored, and what `into` points at then.
unfoldable pub get : {A : Type 0} → Codec A → Text → A → Call SettingError (Bool × A)
unfolding stored_value
get codec key into = do raw ← run unreadable (stored_value key); decode_into codec into raw

-- INSERT … ON CONFLICT … DO UPDATE: the row of the key gets every value of the new one.
abbrev pub upsert : {A : Type 0} → (A → Bool) → A → List A → List A
upsert same new [] = new ∷ []
upsert same new (r ∷ rs) = let rest = upsert same new rs in if same r then new ∷ rs else r ∷ rest

abbrev pub setting_row : Text → Bytes → Uuid → Time → SettingRow
setting_row key raw by now = record {
  key = key;
  value = raw;
  updated_at = now;
  updated_by = some by;
}

-- The foreign key to `users`.
unfoldable pub write_setting : Text → Bytes → Uuid → Time → Query (Unit {0})
unfolding text_eq
write_setting key raw by now = statement (λ db.
    if any (has_id by) db.users
    then (
      ok tt,
      record db { settings = upsert (is_setting key) (setting_row key raw by now) db.settings },
    )
    else (err database, db))

abbrev encoded : Option Bytes → Call SettingError Bytes
encoded none = leave unencodable
encoded (some raw) = pure raw

unfoldable pub put : {A : Type 0} → Codec A → Text → A → Uuid → Time → Call SettingError (Unit {0})
unfolding write_setting
put codec key value by now = do
  raw ← encoded (codec.encode value)
  run unreadable (write_setting key raw by now)

abbrev sealed_in : Option SecretRow → Option (Bytes × ℕ)
sealed_in none = none
sealed_in (some r) = some (r.ciphertext, r.key_version)

unfoldable pub get_secret : Text → Query (Option (Bytes × ℕ))
unfolding text_eq
get_secret key = statement (λ db. (ok (sealed_in (find (is_secret key) db.secrets)), db))

abbrev pub secret_row : Text → Bytes → ℕ → Uuid → Time → SecretRow
secret_row key ciphertext version by now = record {
  key = key;
  ciphertext = ciphertext;
  key_version = version;
  updated_at = now;
  updated_by = some by;
}

-- The version has to fit an INTEGER.
unfoldable pub put_secret : Text → Bytes → ℕ → Uuid → Time → Query (Unit {0})
unfolding text_eq
put_secret key ciphertext version by now = statement (λ db.
    if any (has_id by) db.users && ltb version 2147483648
    then (
      ok tt,
      record db {
        secrets = upsert (is_secret key) (secret_row key ciphertext version by now) db.secrets;
      },
    )
    else (err database, db))

unfoldable pub delete_secret : Text → Query (Unit {0})
unfolding text_eq
delete_secret key =
    statement (λ db. (ok tt, record db { secrets = delete_where (is_secret key) db.secrets }))
