-- ===== src/Auth/Totp/Codes.antt =====
-- Recovery codes as they are shown, retyped and matched (server/internal/auth/totp.go).
use kubby.Prelude.{
  ℕ, ◌+◌, String, ◌≡◌, refl, inl, inr, Bool, true, Option, none, some, List, [], ◌∷◌, arith,
  if◌then◌else◌, Bool-cases, all, Text,
}
use kubby.Auth.Policy.{Unicode}
use kubby.Auth.Totp.{
  is_code_char, keep_code_chars, normalize_recovery_code, group_from, group_code, match_from,
  match_recovery_code,
}

keep-group_from :
    (i : ℕ) (s : Text) → all is_code_char s ≡ true → keep_code_chars (group_from i s) ≡ s
unfolding keep_code_chars group_from
keep-group_from i [] h = refl
keep-group_from i (r ∷ rs) h = ground (arith, keep-group_from (i + 1) rs)

-- A recovery code that is retyped as it was shown, in its groups, is normalised to what was hashed,
-- where the code is of lower-case letters and digits and lower-casing leaves its groups alone.
normalize-group_code :
    (u : Unicode) (s : Text)
    → all is_code_char s ≡ true
    → u.to_lower (group_code s) ≡ group_code s
    → normalize_recovery_code u (group_code s) ≡ s
unfolding normalize_recovery_code group_code
normalize-group_code u s h lower = rw lower (keep-group_from 0 s h)

-- The position of the first hash that verifies, counted from `i`.
abbrev pub first_match : (String → Bool) → ℕ → List String → Option ℕ
first_match p i [] = none
first_match p i (hash ∷ rest) =
    let later = first_match p (i + 1) rest in if p hash then some i else later

match_from-found :
    (verify : Text → String → Bool) (s : Text) (i j : ℕ) (hashes : List String)
    → match_from verify s i (some j) hashes ≡ some j
unfolding match_from
match_from-found verify s i j [] = refl
match_from-found verify s i j (hash ∷ rest) =
    ground (arith, match_from-found verify s (i + 1) j rest)

match_from-first_match :
    (verify : Text → String → Bool) (s : Text) (i : ℕ) (hashes : List String)
    → match_from verify s i none hashes ≡ first_match (verify s) i hashes
unfolding match_from
match_from-first_match verify s i [] = refl
match_from-first_match verify s i (hash ∷ rest) = elim (Bool-cases (verify s hash)) [
  | inl e ↦ rw e (match_from-found verify s (i + 1) i rest)
  | inr e ↦ rw e (match_from-first_match verify s (i + 1) rest)
]

-- Matching checks every hash and still answers with the first that the normalised code verifies
-- against, or with none.
pub match_recovery_code-first_match :
    (u : Unicode) (verify : Text → String → Bool) (candidate : Text) (hashes : List String)
    → match_recovery_code u verify candidate hashes
      ≡ first_match (verify (normalize_recovery_code u candidate)) 0 hashes
unfolding match_recovery_code
match_recovery_code-first_match u verify candidate hashes =
    match_from-first_match verify (normalize_recovery_code u candidate) 0 hashes
