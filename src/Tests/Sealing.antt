-- ===== src/Tests/Sealing.antt =====
-- Sealing and opening at concrete inputs.
use kubby.Prelude.{
  ℕ, ◌≤◌, ◌≡◌, refl, Option, none, some, [], ◌∷◌, arith, ◌==◌, if◌then◌else◌, eqb_refl, length,
  drop, take,
}
use kubby.Crypto.{
  Bytes, unknown_key, ok, err, format_version, Keyring, update_key, uint16_of, layout, header_len,
  decrypt, seal, open_blob,
}
use kubby.Crypto.Opening.{open_blob_sound}
use kubby.Crypto.Envelope.{GcmLaws, CanSeal, open_blob-seal, open_blob-seal_oversized}
use kubby.Tests.Data.{gcm, zeros, randomness}

pub gcm_laws : GcmLaws gcm
gcm_laws = record {
  open_seal = λ key nonce plaintext aad. rw (eqb_refl (length aad)) refl;
  length_seal = λ key nonce plaintext aad. omega arith;
}

abbrev pub single : ℕ → ℕ → Option Bytes
single version v = if v == version then some (zeros 32) else none

abbrev pub ring : ℕ → Keyring
ring version = record { active_version = version; keys = single version }

pub ring-CanSeal : CanSeal (ring 3) randomness (zeros 32) (zeros 32) (zeros 12) (zeros 12)
ring-CanSeal = record {
  active = refl;
  kek_length = refl;
  drew_dek = refl;
  dek_length = refl;
  drew_dek_nonce = refl;
  dek_nonce_length = refl;
  drew_payload_nonce = refl;
  payload_nonce_length = refl;
}

large_ring-CanSeal : CanSeal (ring 65540) randomness (zeros 32) (zeros 32) (zeros 12) (zeros 12)
large_ring-CanSeal = record {
  active = refl;
  kek_length = refl;
  drew_dek = refl;
  dek_length = refl;
  drew_dek_nonce = refl;
  dek_nonce_length = refl;
  drew_payload_nonce = refl;
  payload_nonce_length = refl;
}

abbrev plain : Bytes
plain = 1 ∷ 2 ∷ 3 ∷ []

abbrev owner : Bytes
owner = 5 ∷ []

open_blob-seal_example :
    (blob : Bytes) × (seal gcm (ring 3) randomness plain owner ≡ ok blob)
    × (open_blob gcm (ring 3) blob owner ≡ ok plain)
open_blob-seal_example =
    open_blob-seal gcm (ring 3) randomness plain owner ring-CanSeal (ring 3) gcm_laws (omega arith)
      refl

open_blob-seal_oversized_example :
    (blob : Bytes) × (seal gcm (ring 65540) randomness plain owner ≡ ok blob)
    × (open_blob gcm (ring 65540) blob owner ≡ err unknown_key)
open_blob-seal_oversized_example =
    open_blob-seal_oversized gcm (ring 65540) randomness plain owner large_ring-CanSeal gcm_laws
      refl

abbrev blob : Bytes
blob =
    layout 3 (zeros 12) (gcm.seal (zeros 32) (zeros 12) (zeros 32) []) (zeros 12)
      (gcm.seal (zeros 32) (zeros 12) plain owner)

open_blob_sound_example :
    (header_len ≤ length blob)
    × (uint16_of blob ≡ format_version)
    × ((kek : Bytes) × (dek : Bytes) × ((ring 3).keys (uint16_of (drop 2 blob)) ≡ some kek)
        × (decrypt gcm kek (take 12 (drop 4 blob)) (take 48 (drop 12 (drop 4 blob))) [] ≡ some dek)
        × (decrypt gcm dek
              (take 12 (drop 48 (drop 12 (drop 4 blob))))
              (drop 12 (drop 48 (drop 12 (drop 4 blob))))
              owner
            ≡ some plain))
unfolding open_blob decrypt
open_blob_sound_example = open_blob_sound gcm (ring 3) blob owner {plaintext = plain} refl

abbrev newer : Keyring
newer = record {
  active_version = 4;
  keys = update_key (update_key (λ v. none) 4 (zeros 32)) 3 (zeros 32);
}

abbrev fresh : Keyring
fresh = record { active_version = 4; keys = update_key (λ v. none) 4 (zeros 32) }
