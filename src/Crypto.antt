-- ===== src/Crypto.antt =====
-- server/internal/crypto/envelope.go: envelope encryption of secrets at rest. The proofs are in
-- Crypto/Envelope and Crypto/Opening.
--
-- AES-GCM is not the program's: `Aead` holds its two operations, and the theorems name the laws of
-- it that they use. What the random source returns is the argument `Randomness`; none stands for a
-- failed read. A key version is a natural number here, where the code has an int.
pub mod Envelope
pub mod Opening
use kubby.Prelude.{
  ℕ, ◌+◌, ◌*◌, ◌/◌, ◌%◌, Bool, false, ◌||◌, not, Option, none, some, List, [], ◌∷◌, ◌++◌, ltb, ◌==◌,
  if◌then◌else◌, length, drop, take,
}

abbrev pub Bytes : Type 0
Bytes = List ℕ

pub data Error : Type 0 where
  key_required ciphertext_malformed unknown_version unknown_key no_randomness active_as_retired
        cipher_key :
      Error

pub data Result (A : Type 0) : Type 0 where
  ok : A → Result A
  err : Error → Result A

-- `cipher.AEAD` over AES: key, nonce, text, additional data.
pub record Aead : Type 0 where
  pub seal : Bytes → Bytes → Bytes → Bytes → Bytes
  pub open_text : Bytes → Bytes → Bytes → Bytes → Option Bytes

abbrev pub format_version : ℕ
format_version = 1

abbrev pub key_len : ℕ
key_len = 32

abbrev pub nonce_len : ℕ
nonce_len = 12

abbrev pub wrapped_dek_len : ℕ
wrapped_dek_len = key_len + 16

pub record Keyring : Type 0 where
  pub active_version : ℕ
  pub keys : ℕ → Option Bytes

abbrev pub update_key : (ℕ → Option Bytes) → ℕ → Bytes → ℕ → Option Bytes
update_key keys version key v = if v == version then some key else keys v

unfoldable pub new_keyring : ℕ → Bytes → Result Keyring
new_keyring version key =
    if not (length key == key_len)
    then err key_required
    else ok (record { active_version = version; keys = update_key (λ v. none) version key })

unfoldable pub add_retired_key : Keyring → ℕ → Bytes → Result Keyring
add_retired_key k version key =
    if not (length key == key_len)
    then err key_required
    else if version == k.active_version
    then err active_as_retired
    else ok (record k { keys = update_key k.keys version key })

-- What `rand.Read` puts into the data key and into the two nonces.
pub record Randomness : Type 0 where
  pub dek : Option Bytes
  pub dek_nonce : Option Bytes
  pub payload_nonce : Option Bytes

-- `binary.BigEndian.AppendUint16(out, uint16(v))`: the conversion keeps the low sixteen bits.
abbrev pub uint16_bytes : ℕ → Bytes
uint16_bytes v = (v / 256 % 256) ∷ (v % 256) ∷ []

abbrev pub uint16_of : Bytes → ℕ
uint16_of (hi ∷ lo ∷ rest) = hi * 256 + lo
uint16_of _ = 0

-- `aes.NewCipher` takes a key of 16, 24 or 32 bytes.
abbrev pub is_aes_key : Bytes → Bool
is_aes_key key = length key == 16 || length key == 24 || length key == 32

-- The blob that `Seal` lays out.
abbrev pub layout : ℕ → Bytes → Bytes → Bytes → Bytes → Bytes
layout version dek_nonce wrapped_dek payload_nonce ciphertext =
    uint16_bytes format_version
    ++ (uint16_bytes version ++ (dek_nonce ++ (wrapped_dek ++ (payload_nonce ++ ciphertext))))

abbrev pub header_len : ℕ
header_len = 4 + nonce_len + wrapped_dek_len + nonce_len

module _ (gcm : Aead) where
  -- The ciphertext with the nonce that was drawn for it.
  unfoldable pub encrypt : Bytes → Option Bytes → Bytes → Bytes → Result (Bytes × Bytes)
  encrypt key none plaintext aad = if is_aes_key key then err no_randomness else err cipher_key
  encrypt key (some nonce) plaintext aad =
      if is_aes_key key then ok (gcm.seal key nonce plaintext aad, nonce) else err cipher_key

  unfoldable pub decrypt : Bytes → Bytes → Bytes → Bytes → Option Bytes
  decrypt key nonce ciphertext aad =
      if is_aes_key key then gcm.open_text key nonce ciphertext aad else none

  abbrev seal_payload : Keyring → Randomness → Bytes → Bytes → Bytes → Bytes × Bytes → Result Bytes
  seal_payload k r dek plaintext aad (wrapped_dek, dek_nonce) =
      elim (encrypt dek r.payload_nonce plaintext aad) [
        | err e ↦ err e
        | ok (ciphertext, payload_nonce) ↦
            ok (layout k.active_version dek_nonce wrapped_dek payload_nonce ciphertext)
      ]

  abbrev seal_with : Keyring → Randomness → Bytes → Bytes → Bytes → Option Bytes → Result Bytes
  seal_with k r plaintext aad kek none = err no_randomness
  seal_with k r plaintext aad kek (some dek) = elim (encrypt kek r.dek_nonce dek []) [
    | err e ↦ err e
    | ok wrapped ↦ seal_payload k r dek plaintext aad wrapped
  ]

  unfoldable pub seal : Keyring → Randomness → Bytes → Bytes → Result Bytes
  seal k r plaintext aad = elim (k.keys k.active_version) [
    | none ↦ err unknown_key
    | some kek ↦ seal_with k r plaintext aad kek r.dek
  ]

  abbrev pub open_payload : Bytes → Bytes → Bytes → Option Bytes → Result Bytes
  open_payload payload_nonce ciphertext aad none = err ciphertext_malformed
  open_payload payload_nonce ciphertext aad (some dek) =
      elim (decrypt dek payload_nonce ciphertext aad) [
        | none ↦ err ciphertext_malformed
        | some plaintext ↦ ok plaintext
      ]

  -- The slices of the blob behind its first four bytes.
  abbrev pub open_with : Bytes → Bytes → Option Bytes → Result Bytes
  open_with rest aad none = err unknown_key
  open_with rest aad (some kek) =
      let dek_nonce = take nonce_len rest in
      let after_nonce = drop nonce_len rest in
      let wrapped_dek = take wrapped_dek_len after_nonce in
      let after_dek = drop wrapped_dek_len after_nonce in
      let payload_nonce = take nonce_len after_dek in
      let ciphertext = drop nonce_len after_dek in
      open_payload payload_nonce ciphertext aad (decrypt kek dek_nonce wrapped_dek [])

  unfoldable pub open_blob : Keyring → Bytes → Bytes → Result Bytes
  open_blob k blob aad =
      let opened = open_with (drop 4 blob) aad (k.keys (uint16_of (drop 2 blob))) in
      if ltb (length blob) header_len
      then err ciphertext_malformed
      else if not (uint16_of blob == format_version)
      then err unknown_version
      else opened

unfoldable pub needs_rewrap : Keyring → Bytes → Bool
needs_rewrap k blob =
    if ltb (length blob) 4 then false else not (uint16_of (drop 2 blob) == k.active_version)
