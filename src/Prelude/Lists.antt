-- ===== src/Prelude/Lists.antt =====
-- Lists measured and indexed by native numbers, under the library's names, and predicates on lists.
use Prim.Native.Nat.{ℕ, zero, suc, ◌+◌, ◌≤◌}
use mathlib.Core.Path.{◌≡◌, refl, ap, sym, ◌∙◌}
use mathlib.Core.Bool.{Bool, true, false, ◌||◌, ◌&&◌}
use mathlib.Core.Logic.{◌⊎◌}
use mathlib.Core.List.{List, [], ◌∷◌, ◌++◌}
use native.Mathlib.Omega.{arith}

module _ {ℓ} {A : Type ℓ} where
  abbrev pub length : List A → ℕ
  length [] = 0
  length (x ∷ xs) = suc (length xs)

  abbrev pub drop : ℕ → List A → List A
  drop zero xs = xs
  drop (suc n) [] = []
  drop (suc n) (x ∷ xs) = drop n xs

  abbrev pub take : ℕ → List A → List A
  take zero xs = []
  take (suc n) [] = []
  take (suc n) (x ∷ xs) = x ∷ take n xs

  abbrev pub any : (A → Bool) → List A → Bool
  any p [] = false
  any p (x ∷ xs) = p x || any p xs

  abbrev pub all : (A → Bool) → List A → Bool
  all p [] = true
  all p (x ∷ xs) = p x && all p xs

  pub length-append : (xs ys : List A) → length (xs ++ ys) ≡ length xs + length ys
  length-append [] ys = omega arith
  length-append (x ∷ xs) ys = omega (arith, length-append xs ys)

module _ {A : Type 0} where
  -- What a slice at the end of the first part takes and leaves.
  pub take-append : (n : ℕ) (xs ys : List A) → length xs ≡ n → take n (xs ++ ys) ≡ xs
  take-append zero [] ys h = refl
  take-append zero (x ∷ xs) ys h = absurd (omega arith)
  take-append (suc n) [] ys h = absurd (omega arith)
  take-append (suc n) (x ∷ xs) ys h = rw (take-append n xs ys (omega arith))

  pub drop-append : (n : ℕ) (xs ys : List A) → length xs ≡ n → drop n (xs ++ ys) ≡ ys
  drop-append zero [] ys h = refl
  drop-append zero (x ∷ xs) ys h = absurd (omega arith)
  drop-append (suc n) [] ys h = absurd (omega arith)
  drop-append (suc n) (x ∷ xs) ys h = drop-append n xs ys (omega arith)

  pub drop-none : (n : ℕ) (xs : List A) → length xs ≤ n → drop n xs ≡ []
  drop-none zero [] h = refl
  drop-none zero (x ∷ xs) h = absurd (omega arith)
  drop-none (suc n) [] h = refl
  drop-none (suc n) (x ∷ xs) h = drop-none n xs (omega arith)

  append-take_start : (n : ℕ) (xs : List A) → take n xs ++ drop n xs ≡ xs
  append-take_start zero xs = refl
  append-take_start (suc n) [] = refl
  append-take_start (suc n) (x ∷ xs) = ap (λ ys. x ∷ ys) (append-take_start n xs)

  drop-drop : (n o : ℕ) (xs : List A) → drop (o + n) xs ≡ drop n (drop o xs)
  drop-drop n zero xs = ap (λ k. drop k xs) (omega arith)
  drop-drop n (suc o) [] =
      drop-none (suc o + n) [] (omega arith) ∙ sym (drop-none n [] (omega arith))
  drop-drop n (suc o) (x ∷ xs) =
      let next : suc o + n ≡ suc (o + n) = omega arith in
      ap (λ k. drop k (x ∷ xs)) next ∙ drop-drop n o xs

  -- A page and what is behind it.
  pub append-take : (n o : ℕ) (xs : List A) → take n (drop o xs) ++ drop (o + n) xs ≡ drop o xs
  append-take n o xs = rw (drop-drop n o xs) (append-take_start n (drop o xs))

-- Every element satisfies the predicate; it computes to tuples.
abbrev pub All {ℓ κ} : {A : Type ℓ} → (A → Type κ) → List A → Type κ
All P [] = Unit
All P (x ∷ xs) = P x × All P xs

pub All-append {ℓ κ} :
    {A : Type ℓ} (P : A → Type κ) (xs ys : List A) → All P xs → All P ys → All P (xs ++ ys)
All-append P [] ys hx hy = hy
All-append P (x ∷ xs) ys hx hy = (hx.0, All-append P xs ys hx.1 hy)

-- Membership that computes to a sum, which the tactics take apart.
abbrev pub In : {A : Type 0} → A → List A → Type 0
In a [] = ⊥
In a (x ∷ xs) = (a ≡ x) ⊎ In a xs
