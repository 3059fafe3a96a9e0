-- ===== src/Auth/Policy/Runs.antt =====
-- What the policy rejects (server/internal/auth/policy.go).
use kubby.Prelude.{
  ℕ, ◌+◌, ◌%◌, ◌≤◌, ◌<◌, ◌≡◌, refl, ◌∙◌, inl, inr, Bool, true, false, ◌&&◌, ◌||◌, not, List, [],
  ◌∷◌, arith, leb, ◌==◌, if◌then◌else◌, ==_iff, Bool-cases, length, All, codes, Text, contains,
}
use kubby.Auth.Policy.{
  Unicode, utf8, all_same, steps, is_repeated_or_sequential, class_count, password_problems,
  validate_password,
}

-- Each byte is the one before it plus `d`, modulo 256.
abbrev pub is_run : ℕ → ℕ → List ℕ → Bool
is_run d previous [] = true
is_run d previous (b ∷ bs) = b == (previous + d) % 256 && is_run d b bs

abbrev pub is_run_of : ℕ → List ℕ → Bool
is_run_of d [] = false
is_run_of d (b ∷ bs) = is_run d b bs

abbrev pub AreBytes : List ℕ → Type 0
AreBytes = All (λ b. b < 256)

all_same-is_run : (b : ℕ) (bs : List ℕ) → b < 256 → all_same b bs ≡ is_run 0 b bs
unfolding all_same
all_same-is_run b [] h = refl
all_same-is_run b (c ∷ cs) h = elim (Bool-cases (c == b)) [
  | inl e ↦ let same : c ≡ b = (==_iff c b).0 e in rw same (ground (arith, all_same-is_run b cs h))
  | inr e ↦ ground arith
]

steps-is_run :
    (a d : Bool) (p : ℕ) (bs : List ℕ) → steps a d p bs ≡ (a && is_run 1 p bs, d && is_run 255 p bs)
unfolding steps
steps-is_run true true p [] = refl
steps-is_run true false p [] = refl
steps-is_run false true p [] = refl
steps-is_run false false p [] = refl
steps-is_run a d p (b ∷ bs) =
    steps-is_run (if not (b == (p + 1) % 256) then false else a)
      (if not (b == (p + 255) % 256) then false else d) b bs
    ∙ ground arith

-- A text is rejected as repeated or sequential exactly if it has at least four bytes, and each is
-- the one before it, or each is the one before it plus one, or each is the one before it minus one,
-- modulo 256.
is_repeated_or_sequential-is_run :
    (s : List ℕ)
    → AreBytes s
    → is_repeated_or_sequential s
      ≡ (leb 4 (length s) && (is_run_of 0 s || is_run_of 1 s || is_run_of 255 s))
unfolding is_repeated_or_sequential
is_repeated_or_sequential-is_run [] h = refl
is_repeated_or_sequential-is_run (b ∷ bs) h =
    ground (arith, all_same-is_run b bs h.0, steps-is_run true true b bs)

-- An accepted password has 12 to 256 characters of at least three classes, is no run of bytes in
-- lower case, and does not hold the application's name.
validate_password_accepts :
    (u : Unicode) (password email display_name : Text)
    → validate_password u password email display_name ≡ true
    → (12 ≤ length password)
      × (length password ≤ 256)
      × (3 ≤ class_count u password)
      × (is_repeated_or_sequential (utf8 (u.to_lower password)) ≡ false)
      × (contains (u.to_lower password) (codes "kubby") ≡ false)
unfolding validate_password password_problems
validate_password_accepts u password email display_name h = ground arith
