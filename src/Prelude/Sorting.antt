-- ===== src/Prelude/Sorting.antt =====
-- Sorting by a Boolean order, as `sort.SliceStable` does, with its laws.
use mathlib.Core.Path.{◌≡◌}
use native.Mathlib.Omega.{arith}
use mathlib.Core.Bool.{Bool, true, false}
use mathlib.Core.Logic.{◌↔◌, inl, inr}
use mathlib.Core.List.{List, [], ◌∷◌, Perm}
use mathlib.Core.List.Perm
use kubby.Prelude.Tests.{if◌then◌else◌, Bool-cases}
use kubby.Prelude.Lists.{All, In}

module _ {A : Type 0} where
  -- Before the first element that is not less than it.
  unfoldable pub insert_by : (A → A → Bool) → A → List A → List A
  insert_by lt x [] = x ∷ []
  insert_by lt x (y ∷ ys) = let rest = insert_by lt x ys in if lt y x then y ∷ rest else x ∷ y ∷ ys

  -- Equal elements keep their order.
  unfoldable pub sort_by : (A → A → Bool) → List A → List A
  unfolding insert_by
  sort_by lt [] = []
  sort_by lt (x ∷ xs) = insert_by lt x (sort_by lt xs)

  -- No element is less than one that stands before it.
  abbrev pub IsSortedBy : (A → A → Bool) → List A → Type 0
  IsSortedBy lt [] = Unit
  IsSortedBy lt (x ∷ xs) = All (λ y. lt y x ≡ false) xs × IsSortedBy lt xs

  perm-insert_by : (lt : A → A → Bool) (x : A) (xs : List A) → Perm (insert_by lt x xs) (x ∷ xs)
  unfolding insert_by
  perm-insert_by lt x [] = Perm.refl (x ∷ [])
  perm-insert_by lt x (y ∷ ys) = elim (Bool-cases (lt y x)) [
    | inl e ↦ rw e (Perm.trans (Perm.cons y (perm-insert_by lt x ys)) (Perm.swap x y ys))
    | inr e ↦ rw e (Perm.refl (x ∷ y ∷ ys))
  ]

  pub perm-sort_by : (lt : A → A → Bool) (xs : List A) → Perm (sort_by lt xs) xs
  unfolding sort_by
  perm-sort_by lt [] = Perm.refl []
  perm-sort_by lt (x ∷ xs) =
      Perm.trans (perm-insert_by lt x (sort_by lt xs)) (Perm.cons x (perm-sort_by lt xs))

  All-insert_by :
      (lt : A → A → Bool) (P : A → Type 0) (x : A) (xs : List A)
      → P x
      → All P xs
      → All P (insert_by lt x xs)
  unfolding insert_by
  All-insert_by lt P x [] px h = (px, tt)
  All-insert_by lt P x (y ∷ ys) px h = elim (Bool-cases (lt y x)) [
    | inl e ↦ rw e (h.0, All-insert_by lt P x ys px h.1)
    | inr e ↦ rw e (px, h)
  ]

  pub All-sort_by :
      (lt : A → A → Bool) (P : A → Type 0) (xs : List A) → All P xs → All P (sort_by lt xs)
  unfolding sort_by
  All-sort_by lt P [] h = tt
  All-sort_by lt P (x ∷ xs) h = All-insert_by lt P x (sort_by lt xs) h.0 (All-sort_by lt P xs h.1)

  All-imp : (P Q : A → Type 0) → ((a : A) → P a → Q a) → (xs : List A) → All P xs → All Q xs
  All-imp P Q f [] h = tt
  All-imp P Q f (x ∷ xs) h = (f x h.0, All-imp P Q f xs h.1)

module _ {A : Type 0} where
  In-insert_by :
      (lt : A → A → Bool) (a x : A) (xs : List A) → In a (insert_by lt x xs) ↔ In a (x ∷ xs)
  unfolding insert_by
  In-insert_by lt a x [] = ground arith
  In-insert_by lt a x (y ∷ ys) = ground (arith, In-insert_by lt a x ys)

  pub In-sort_by : (lt : A → A → Bool) (a : A) (xs : List A) → In a (sort_by lt xs) ↔ In a xs
  unfolding sort_by
  In-sort_by lt a [] = ground arith
  In-sort_by lt a (x ∷ xs) = ground (arith, In-insert_by lt a x (sort_by lt xs), In-sort_by lt a xs)

-- The order is a strict weak order: asymmetric, and what is not less is transitive.
module _ {A : Type 0} (lt : A → A → Bool) (asym : (a b : A) → lt a b ≡ true → lt b a ≡ false)
    (trans : (a b c : A) → lt b a ≡ false → lt c b ≡ false → lt c a ≡ false) where
  insert_by-IsSortedBy :
      (x : A) (xs : List A) → IsSortedBy lt xs → IsSortedBy lt (insert_by lt x xs)
  unfolding insert_by
  insert_by-IsSortedBy x [] h = (tt, tt)
  insert_by-IsSortedBy x (y ∷ ys) h = elim (Bool-cases (lt y x)) [
    | inl e ↦ rw e (
      All-insert_by lt (λ z. lt z y ≡ false) x ys (asym y x e) h.0,
      insert_by-IsSortedBy x ys h.1,
    )
    | inr e ↦
        rw e
          ((e, All-imp (λ z. lt z y ≡ false) (λ z. lt z x ≡ false) (λ z. trans x y z e) ys h.0), h)
  ]

  sort_by-IsSortedBy : (xs : List A) → IsSortedBy lt (sort_by lt xs)
  unfolding sort_by
  sort_by-IsSortedBy [] = tt
  sort_by-IsSortedBy (x ∷ xs) = insert_by-IsSortedBy x (sort_by lt xs) (sort_by-IsSortedBy xs)
