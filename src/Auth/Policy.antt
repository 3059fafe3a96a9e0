-- ===== src/Auth/Policy.antt =====
-- server/internal/auth/policy.go: the password policy. The proofs are in Auth/Policy/Runs.
--
-- A Go string is the list of its code points; where the code indexes bytes, `utf8` gives them. The
-- tables of package unicode and strings.ToLower are the argument `Unicode`.
pub mod Runs
use kubby.Prelude.{
  ℕ, ◌+◌, ◌/◌, ◌%◌, Bool, true, false, ◌&&◌, ◌||◌, not, Option, none, some, List, [], ◌∷◌, ◌++◌,
  ltb, leb, ◌==◌, if◌then◌else◌, length, any, codes, Text, text_eq, trim_space, contains,
}

pub record Unicode : Type 0 where
  pub is_upper : ℕ → Bool
  pub is_lower : ℕ → Bool
  pub is_digit : ℕ → Bool
  pub is_punct : ℕ → Bool
  pub is_symbol : ℕ → Bool
  pub to_lower : Text → Text

abbrev pub min_password_length : ℕ
min_password_length = 12

abbrev pub max_password_length : ℕ
max_password_length = 256

abbrev common_passwords : List Text
common_passwords =
    codes "password"
    ∷ codes "password1"
    ∷ codes "password123"
    ∷ codes "password123!"
    ∷ codes "qwerty"
    ∷ codes "qwerty123"
    ∷ codes "123456789"
    ∷ codes "1234567890"
    ∷ codes "letmein"
    ∷ codes "welcome123"
    ∷ codes "admin123"
    ∷ codes "administrator"
    ∷ codes "changeme"
    ∷ codes "changeme123"
    ∷ codes "iloveyou"
    ∷ codes "monkey123"
    ∷ codes "kubernetes"
    ∷ codes "kubernetes1"
    ∷ codes "dragon123"
    ∷ codes "sunshine1"
    ∷ codes "abc123456"
    ∷ codes "passw0rd"
    ∷ codes "p@ssw0rd"
    ∷ codes "p@ssword123"
    ∷ codes "trustno1"
    ∷ codes "football123"
    ∷ codes "baseball123"
    ∷ codes "master123"
    ∷ []

-- Each problem stands for the message of that case.
pub data Problem : Type 0 where
  too_short too_long few_classes common repeated has_email has_name has_application : Problem

-- The bytes of one code point in UTF-8.
unfoldable pub utf8_rune : ℕ → List ℕ
utf8_rune c =
    if ltb c 0x80
    then c ∷ []
    else if ltb c 0x800
    then (0xc0 + c / 0x40) ∷ (0x80 + c % 0x40) ∷ []
    else if ltb c 0x10000
    then (0xe0 + c / 0x1000) ∷ (0x80 + c / 0x40 % 0x40) ∷ (0x80 + c % 0x40) ∷ []
    else (0xf0 + c / 0x40000)
      ∷ (0x80 + c / 0x1000 % 0x40)
      ∷ (0x80 + c / 0x40 % 0x40)
      ∷ (0x80 + c % 0x40)
      ∷ []

unfoldable pub utf8 : Text → List ℕ
unfolding utf8_rune
utf8 [] = []
utf8 (c ∷ s) = utf8_rune c ++ utf8 s

-- The first loop: every byte against the first. `break` leaves it at the first that differs.
unfoldable pub all_same : ℕ → List ℕ → Bool
all_same first [] = true
all_same first (b ∷ bs) = let rest = all_same first bs in if not (b == first) then false else rest

-- The second loop with its two flags; `s[i-1]+1` and `s[i-1]-1` are of type byte and wrap.
unfoldable pub steps : Bool → Bool → ℕ → List ℕ → Bool × Bool
steps ascending descending previous [] = (ascending, descending)
steps ascending descending previous (b ∷ bs) =
    steps (if not (b == (previous + 1) % 256) then false else ascending)
      (if not (b == (previous + 255) % 256) then false else descending) b bs

abbrev either : Bool × Bool → Bool
either (a, b) = a || b

unfoldable pub is_repeated_or_sequential : List ℕ → Bool
unfolding all_same steps
is_repeated_or_sequential [] = false
is_repeated_or_sequential (b ∷ bs) =
    if ltb (length (b ∷ bs)) 4
    then false
    else if all_same b bs
    then true
    else either (steps true true b bs)

-- The flags of the four classes, as the switch sets them: the first class that fits.
pub record Classes : Type 0 where
  pub upper : Bool
  pub lower : Bool
  pub digit : Bool
  pub symbol : Bool

abbrev no_classes : Classes
no_classes = record { upper = false; lower = false; digit = false; symbol = false }

-- strings.Cut s "@", without its rest: what stands before the separator, if there is one.
unfoldable pub cut_at : Text → Option Text
cut_at [] = none
cut_at (c ∷ s) =
    let rest = cut_at s in
    if c == b'@' then some [] else elim rest [ none ↦ none | some before ↦ some (c ∷ before) ]

abbrev one : Bool → ℕ
one true = 1
one false = 0

abbrev when : Bool → Problem → List Problem
when true p = p ∷ []
when false p = []

module _ (u : Unicode) where
  abbrev class_of : Classes → ℕ → Classes
  class_of k r =
      if u.is_upper r
      then record k { upper = true }
      else if u.is_lower r
      then record k { lower = true }
      else if u.is_digit r
      then record k { digit = true }
      else if u.is_punct r || u.is_symbol r
      then record k { symbol = true }
      else k

  unfoldable pub classes_of : Classes → Text → Classes
  classes_of k [] = k
  classes_of k (r ∷ rs) = classes_of (class_of k r) rs

  abbrev count_classes : Classes → ℕ
  count_classes k = one k.upper + one k.lower + one k.digit + one k.symbol

  unfoldable pub class_count : Text → ℕ
  unfolding classes_of
  class_count password = count_classes (classes_of no_classes password)

  abbrev names_email : Text → Option Text → Bool
  names_email lower none = false
  names_email lower (some local) = leb 3 (length (utf8 local)) && contains lower local

  abbrev names_person : Text → Text → Bool
  names_person lower name = leb 3 (length (utf8 name)) && contains lower name

  unfoldable pub password_problems : Text → Text → Text → List Problem
  password_problems password email display_name =
      let lower = u.to_lower password in
      when (ltb (length password) min_password_length) too_short
      ++ (when (ltb max_password_length (length password)) too_long
          ++ (when (ltb (class_count password) 3) few_classes
              ++ (when (any (text_eq lower) common_passwords) common
                  ++ (when (is_repeated_or_sequential (utf8 lower)) repeated
                      ++ (when (names_email lower (cut_at (u.to_lower email))) has_email
                          ++ (when (names_person lower (u.to_lower (trim_space display_name)))
                                has_name
                              ++ when (contains lower (codes "kubby")) has_application))))))

  abbrev accepts : List Problem → Bool
  accepts [] = true
  accepts (p ∷ ps) = false

  -- True where `ValidatePassword` returns no error.
  unfoldable pub validate_password : Text → Text → Text → Bool
  validate_password password email display_name =
      accepts (password_problems password email display_name)
