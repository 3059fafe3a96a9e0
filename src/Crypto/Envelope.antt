-- ===== src/Crypto/Envelope.antt =====
-- Sealing and opening (server/internal/crypto/envelope.go).
use native.Mathlib.Nat.{mod-eq_of_lt}
use kubby.Prelude.{
  ℕ, ◌+◌, ◌*◌, ◌/◌, ◌%◌, ◌<◌, ◌≡◌, ap, ◌∙◌, true, false, none, some, [], ◌++◌, arith, ltb, length,
  length-append, take-append, drop-append,
}
use kubby.Crypto.{
  Bytes, ciphertext_malformed, unknown_key, ok, err, Aead, key_len, nonce_len, wrapped_dek_len,
  Keyring, new_keyring, add_retired_key, Randomness, layout, header_len, encrypt, decrypt, seal,
  open_payload, open_blob, needs_rewrap,
}

-- What AES-GCM documents: a sealed text opens under its own key, nonce and additional data, and is
-- sixteen bytes longer than the plaintext.
pub record GcmLaws (gcm : Aead) : Type 0 where
  pub open_seal :
      (key nonce plaintext aad : Bytes)
      → gcm.open_text key nonce (gcm.seal key nonce plaintext aad) aad ≡ some plaintext
  pub length_seal :
      (key nonce plaintext aad : Bytes)
      → length (gcm.seal key nonce plaintext aad) ≡ length plaintext + 16

uint16-roundtrip : (v : ℕ) → v / 256 % 256 * 256 + v % 256 ≡ v % 65536
uint16-roundtrip v = omega arith

module _ (gcm : Aead) (k : Keyring) (v : ℕ) (n1 w n2 c aad : Bytes) (nonce1 : length n1 ≡ nonce_len)
    (wrapped : length w ≡ wrapped_dek_len) (nonce2 : length n2 ≡ nonce_len) where
  long_enough : ltb (length (layout v n1 w n2 c)) header_len ≡ false
  long_enough =
      let total : length (n1 ++ (w ++ (n2 ++ c))) ≡ 72 + length c =
        omega (
          arith,
          length-append n1 (w ++ (n2 ++ c)),
          length-append w (n2 ++ c),
          length-append n2 c,
        ) in
      ground arith

  -- The reader finds each part where the writer laid it.
  open_blob-layout :
      (kek : Bytes)
      → k.keys (v % 65536) ≡ some kek
      → open_blob gcm k (layout v n1 w n2 c) aad
        ≡ open_payload gcm n2 c aad (decrypt gcm kek n1 w [])
  unfolding open_blob
  open_blob-layout kek found = rw (
    long_enough,
    uint16-roundtrip v,
    found,
    take-append nonce_len n1 (w ++ (n2 ++ c)) nonce1,
    drop-append nonce_len n1 (w ++ (n2 ++ c)) nonce1,
    take-append wrapped_dek_len w (n2 ++ c) wrapped,
    drop-append wrapped_dek_len w (n2 ++ c) wrapped,
    take-append nonce_len n2 c nonce2,
    drop-append nonce_len n2 c nonce2,
  )

  open_blob-layout_unknown :
      k.keys (v % 65536) ≡ none → open_blob gcm k (layout v n1 w n2 c) aad ≡ err unknown_key
  unfolding open_blob
  open_blob-layout_unknown absent = rw (long_enough, uint16-roundtrip v, absent)

-- What a call of `Seal` is given: a key of the right length under the active version, and the
-- random bytes, as many as `make([]byte, n)` asks for.
pub record CanSeal (k : Keyring) (r : Randomness) (kek dek n1 n2 : Bytes) : Type 0 where
  pub active : k.keys k.active_version ≡ some kek
  pub kek_length : length kek ≡ key_len
  pub drew_dek : r.dek ≡ some dek
  pub dek_length : length dek ≡ key_len
  pub drew_dek_nonce : r.dek_nonce ≡ some n1
  pub dek_nonce_length : length n1 ≡ nonce_len
  pub drew_payload_nonce : r.payload_nonce ≡ some n2
  pub payload_nonce_length : length n2 ≡ nonce_len

module _ (gcm : Aead) (k : Keyring) (r : Randomness) {kek dek n1 n2 : Bytes} (plaintext aad : Bytes)
    (given : CanSeal k r kek dek n1 n2) where
  abbrev pub sealed : Bytes
  sealed = layout k.active_version n1 (gcm.seal kek n1 dek []) n2 (gcm.seal dek n2 plaintext aad)

  pub seal-layout : seal gcm k r plaintext aad ≡ ok sealed
  unfolding seal encrypt
  seal-layout = ground (arith, given.active, given.kek_length, given.dek_length)

  pub open_blob-sealed :
      (k' : Keyring)
      → GcmLaws gcm
      → k.active_version < 65536
      → k'.keys k.active_version ≡ some kek
      → open_blob gcm k' sealed aad ≡ ok plaintext
  unfolding decrypt
  open_blob-sealed k' laws fits held =
      let wrapped : length (gcm.seal kek n1 dek []) ≡ wrapped_dek_len =
        laws.length_seal kek n1 dek [] ∙ ap (λ n. n + 16) given.dek_length in
      let version : k'.keys (k.active_version % 65536) ≡ some kek = rw (mod-eq_of_lt fits) held in
      open_blob-layout gcm k' k.active_version n1 (gcm.seal kek n1 dek []) n2
        (gcm.seal dek n2 plaintext aad) aad given.dek_nonce_length wrapped
        given.payload_nonce_length kek version
      ∙ ground (
        arith,
        given.kek_length,
        given.dek_length,
        laws.open_seal kek n1 dek [],
        laws.open_seal dek n2 plaintext aad,
      )

  -- What is sealed opens again under every keyring that still holds the key of its version, such
  -- as one whose active key is newer, if the version fits the two bytes it is written in.
  pub open_blob-seal :
      (k' : Keyring)
      → GcmLaws gcm
      → k.active_version < 65536
      → k'.keys k.active_version ≡ some kek
      → (blob : Bytes) × (seal gcm k r plaintext aad ≡ ok blob)
        × (open_blob gcm k' blob aad ≡ ok plaintext)
  open_blob-seal k' laws fits held = (sealed, seal-layout, open_blob-sealed k' laws fits held)

  -- A version that does not fit is cut to its low sixteen bits without an error: the blob that
  -- `Seal` returns does not open under the keyring that sealed it, if that has no key for the
  -- version that is left.
  pub open_blob-seal_oversized :
      GcmLaws gcm
      → k.keys (k.active_version % 65536) ≡ none
      → (blob : Bytes) × (seal gcm k r plaintext aad ≡ ok blob)
        × (open_blob gcm k blob aad ≡ err unknown_key)
  open_blob-seal_oversized laws absent =
      let wrapped : length (gcm.seal kek n1 dek []) ≡ wrapped_dek_len =
        laws.length_seal kek n1 dek [] ∙ ap (λ n. n + 16) given.dek_length in
      (
        sealed,
        seal-layout,
        open_blob-layout_unknown gcm k k.active_version n1 (gcm.seal kek n1 dek []) n2
            (gcm.seal dek n2 plaintext aad) aad given.dek_nonce_length wrapped
            given.payload_nonce_length absent,
      )

  -- A blob opens under no other additional data, where the cipher rejects the payload under it.
  open_blob-seal_other_aad :
      (aad' : Bytes)
      → GcmLaws gcm
      → k.active_version < 65536
      → gcm.open_text dek n2 (gcm.seal dek n2 plaintext aad) aad' ≡ none
      → (blob : Bytes) × (seal gcm k r plaintext aad ≡ ok blob)
        × (open_blob gcm k blob aad' ≡ err ciphertext_malformed)
  unfolding decrypt
  open_blob-seal_other_aad aad' laws fits rejects =
      let wrapped : length (gcm.seal kek n1 dek []) ≡ wrapped_dek_len =
        laws.length_seal kek n1 dek [] ∙ ap (λ n. n + 16) given.dek_length in
      let version : k.keys (k.active_version % 65536) ≡ some kek =
        rw (mod-eq_of_lt fits) given.active in
      (
        sealed,
        seal-layout,
        open_blob-layout gcm k k.active_version n1 (gcm.seal kek n1 dek []) n2
              (gcm.seal dek n2 plaintext aad) aad' given.dek_nonce_length wrapped
              given.payload_nonce_length kek version
            ∙ ground
                (arith, given.kek_length, given.dek_length, laws.open_seal kek n1 dek [], rejects),
      )

-- Rotation: a keyring with a new active key and the old one retired opens what the old keyring
-- sealed, and says that it needs rewrapping, which the old keyring does not.
open_blob-rotated :
    (gcm : Aead) (k : Keyring) (r : Randomness) {kek dek n1 n2 : Bytes} (plaintext aad : Bytes)
    (given : CanSeal k r kek dek n1 n2) (version : ℕ) (key : Bytes) {fresh k' : Keyring}
    → GcmLaws gcm
    → k.active_version < 65536
    → new_keyring version key ≡ ok fresh
    → add_retired_key fresh k.active_version kek ≡ ok k'
    → (blob : Bytes) × (seal gcm k r plaintext aad ≡ ok blob)
      × (open_blob gcm k' blob aad ≡ ok plaintext)
      × (needs_rewrap k' blob ≡ true)
      × (needs_rewrap k blob ≡ false)
unfolding new_keyring add_retired_key needs_rewrap
open_blob-rotated gcm k r plaintext aad given version key laws fits made retired = (
  sealed gcm k r plaintext aad given,
  seal-layout gcm k r plaintext aad given,
  open_blob-sealed gcm k r plaintext aad given _ laws fits (ground arith),
  ground (arith, uint16-roundtrip k.active_version),
  ground (arith, uint16-roundtrip k.active_version),
)
