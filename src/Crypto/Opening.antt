-- ===== src/Crypto/Opening.antt =====
-- What a blob that opens is like (server/internal/crypto/envelope.go).
use kubby.Prelude.{
  ◌≤◌, ◌≡◌, refl, Bool, true, false, not, Option, none, some, [], arith, ltb, ◌==◌, if◌then◌else◌,
  length, drop, take,
}
use kubby.Crypto.{
  Bytes, ciphertext_malformed, unknown_version, Result, ok, err, Aead, format_version, Keyring,
  uint16_of, header_len, decrypt, open_payload, open_with, open_blob,
}

ok-of_option :
    (o : Option Bytes) {p : Bytes}
    → elim o as (λ _. Result Bytes) [
      | none ↦ err ciphertext_malformed
      | some plaintext ↦ ok plaintext
    ]
      ≡ ok p
    → o ≡ some p
ok-of_option none h = cc
ok-of_option (some x) h = cc

module _ (gcm : Aead) where
  open_payload-ok :
      (n2 c aad : Bytes) (o : Option Bytes) {p : Bytes}
      → open_payload gcm n2 c aad o ≡ ok p
      → (dek : Bytes) × (o ≡ some dek) × (decrypt gcm dek n2 c aad ≡ some p)
  open_payload-ok n2 c aad none h = cc
  open_payload-ok n2 c aad (some dek) h = (dek, refl, ok-of_option (decrypt gcm dek n2 c aad) h)

  open_with-ok :
      (rest aad : Bytes) (o : Option Bytes) {p : Bytes}
      → open_with gcm rest aad o ≡ ok p
      → (kek : Bytes) × (dek : Bytes) × (o ≡ some kek)
        × (decrypt gcm kek (take 12 rest) (take 48 (drop 12 rest)) [] ≡ some dek)
        × (decrypt gcm dek (take 12 (drop 48 (drop 12 rest))) (drop 12 (drop 48 (drop 12 rest))) aad
            ≡ some p)
  open_with-ok rest aad none h = cc
  open_with-ok rest aad (some kek) h =
      let (dek, unwrapped, opened) =
        open_payload-ok (take 12 (drop 48 (drop 12 rest))) (drop 12 (drop 48 (drop 12 rest))) aad
          (decrypt gcm kek (take 12 rest) (take 48 (drop 12 rest)) []) h in
      (kek, dek, refl, unwrapped, opened)

  -- The two tests at the head of `Open`.
  open_blob-tests :
      (k : Keyring) (blob aad : Bytes) {p : Bytes}
      → open_blob gcm k blob aad ≡ ok p
      → (header_len ≤ length blob)
        × (uint16_of blob ≡ format_version)
        × (open_with gcm (drop 4 blob) aad (k.keys (uint16_of (drop 2 blob))) ≡ ok p)
  unfolding open_blob
  open_blob-tests k blob aad h =
      split (ltb (length blob) header_len) (uint16_of blob == format_version) refl refl h
    where
      split :
          (short same : Bool) {r : Result Bytes} {p : Bytes}
          → short ≡ ltb (length blob) header_len
          → same ≡ (uint16_of blob == format_version)
          → (if short
              then err ciphertext_malformed
              else if not same
              then err unknown_version
              else r)
            ≡ ok p
          → (header_len ≤ length blob) × (uint16_of blob ≡ format_version) × (r ≡ ok p)
      split true same e f h = cc
      split false true e f h = (ground arith, ground arith, h)
      split false false e f h = cc

-- Opening succeeds only on a blob of this format whose key version is held, with a wrapped key and
-- a payload that the cipher accepts, the payload under the additional data that is given.
pub open_blob_sound :
    (gcm : Aead) (k : Keyring) (blob aad : Bytes) {plaintext : Bytes}
    → open_blob gcm k blob aad ≡ ok plaintext
    → (header_len ≤ length blob)
      × (uint16_of blob ≡ format_version)
      × ((kek : Bytes) × (dek : Bytes) × (k.keys (uint16_of (drop 2 blob)) ≡ some kek)
          × (decrypt gcm kek (take 12 (drop 4 blob)) (take 48 (drop 12 (drop 4 blob))) []
              ≡ some dek)
          × (decrypt gcm dek
                (take 12 (drop 48 (drop 12 (drop 4 blob))))
                (drop 12 (drop 48 (drop 12 (drop 4 blob))))
                aad
              ≡ some plaintext))
open_blob_sound gcm k blob aad h =
    let (long, version, rest) = open_blob-tests gcm k blob aad h in
    (long, version, open_with-ok gcm (drop 4 blob) aad (k.keys (uint16_of (drop 2 blob))) rest)
