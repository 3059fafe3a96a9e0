-- ===== src/Auth/Totp.antt =====
-- server/internal/auth/totp.go: recovery codes and the check of a one-time code. The proofs are in
-- Auth/Totp/Codes. Drawing the secret and the QR code is left to the library that the code calls.
pub mod Codes
use kubby.Prelude.{
  ℕ, ◌+◌, ◌%◌, String, Bool, true, false, ◌&&◌, ◌||◌, not, Option, none, some, List, [], ◌∷◌, ltb,
  leb, ◌==◌, if◌then◌else◌, is_some, codes, Text, trim_space,
}
use kubby.Auth.Policy.{Unicode}

abbrev pub recovery_code_groups : ℕ
recovery_code_groups = 4

abbrev pub is_code_char : ℕ → Bool
is_code_char r = (leb b'a' r && leb r b'z') || (leb b'0' r && leb r b'9')

unfoldable pub keep_code_chars : Text → Text
keep_code_chars [] = []
keep_code_chars (r ∷ rs) =
    let rest = keep_code_chars rs in if is_code_char r then r ∷ rest else rest

unfoldable pub normalize_recovery_code : Unicode → Text → Text
unfolding keep_code_chars
normalize_recovery_code u code = keep_code_chars (u.to_lower code)

-- The loop of `groupCode` from position `i`; the codes are ASCII, where a byte is a character.
unfoldable pub group_from : ℕ → Text → Text
group_from i [] = []
group_from i (r ∷ rs) =
    let rest = r ∷ group_from (i + 1) rs in
    if ltb 0 i && i % recovery_code_groups == 0 then b'-' ∷ rest else rest

unfoldable pub group_code : Text → Text
unfolding group_from
group_code s = group_from 0 s

-- The loop of `MatchRecoveryCode` from position `i`. Every hash is checked; `none` is the -1.
unfoldable pub match_from : (Text → String → Bool) → Text → ℕ → Option ℕ → List String → Option ℕ
match_from verify normalized i found [] = found
match_from verify normalized i found (hash ∷ rest) =
    match_from verify normalized (i + 1)
      (if verify normalized hash && not (is_some found) then some i else found) rest

unfoldable pub match_recovery_code :
    Unicode → (Text → String → Bool) → Text → List String → Option ℕ
unfolding match_from
match_recovery_code u verify candidate hashes =
    match_from verify (normalize_recovery_code u candidate) 0 none hashes

-- `strings.ReplaceAll(code, " ", "")`
unfoldable pub without_spaces : Text → Text
without_spaces [] = []
without_spaces (c ∷ s) = let rest = without_spaces s in if c == b' ' then rest else c ∷ rest

abbrev nonempty : Text → Bool
nonempty [] = false
nonempty (c ∷ s) = true

-- `validate` is `totp.ValidateCustom` with the period, the digits and the one-step window that the
-- code gives it; true where it returns no error and accepts.
unfoldable pub verify_totp : (Text → Text → ℕ → Bool) → Text → Text → ℕ → Bool
unfolding without_spaces
verify_totp validate code secret now =
    let trimmed = trim_space (without_spaces code) in
    nonempty trimmed && validate trimmed secret now
