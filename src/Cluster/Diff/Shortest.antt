-- ===== src/Cluster/Diff/Shortest.antt =====
-- The table of server/internal/cluster/diff.go holds the lengths of longest common subsequences, and
-- the diff keeps as many lines as any reading of the change can.
use kubby.Prelude.{
  ℕ, ◌+◌, ◌≤◌, max, ◌≡◌, sym, ◌∙◌, ◌⊎◌, inl, inr, true, false, List, [], ◌∷◌, arith, if◌then◌else◌,
  Bool-cases, length, Text, text_eq, text_eq_iff,
}

-- The length of a longest common subsequence.
unfoldable pub lcs : List Text → List Text → ℕ
unfolding text_eq
lcs [] b = 0
lcs (x ∷ a) [] = 0
lcs (x ∷ a) (y ∷ b) = if text_eq x y then lcs a b + 1 else max (lcs a (y ∷ b)) (lcs (x ∷ a) b)

-- `c` is `a` with some of its lines left out.
abbrev pub IsSubsequence : List Text → List Text → Type 0
IsSubsequence [] a = Unit
IsSubsequence (z ∷ c) [] = ⊥
IsSubsequence (z ∷ c) (x ∷ a) = ((z ≡ x) × IsSubsequence c a) ⊎ IsSubsequence (z ∷ c) a

IsSubsequence-tail : (z : Text) (c a : List Text) → IsSubsequence (z ∷ c) a → IsSubsequence c a
IsSubsequence-tail z [] a h = tt
IsSubsequence-tail z (w ∷ c) [] h = absurd h
IsSubsequence-tail z (w ∷ c) (x ∷ a) (inl h) = inr h.1
IsSubsequence-tail z (w ∷ c) (x ∷ a) (inr h) = inr (IsSubsequence-tail z (w ∷ c) a h)

rest-IsSubsequence :
    (z x : Text) (c a : List Text) → IsSubsequence (z ∷ c) (x ∷ a) → IsSubsequence c a
rest-IsSubsequence z x c a (inl h) = h.1
rest-IsSubsequence z x c a (inr h) = IsSubsequence-tail z c a h

differ :
    {m n : ℕ} (x y z : Text) (c a b : List Text)
    → IsSubsequence (z ∷ c) (x ∷ a)
    → IsSubsequence (z ∷ c) (y ∷ b)
    → text_eq x y ≡ false
    → (IsSubsequence (z ∷ c) a → IsSubsequence (z ∷ c) (y ∷ b) → length (z ∷ c) ≤ m)
    → (IsSubsequence (z ∷ c) (x ∷ a) → IsSubsequence (z ∷ c) b → length (z ∷ c) ≤ n)
    → length (z ∷ c) ≤ max m n
differ x y z c a b (inr s) t e f g = omega (arith, f s t)
differ x y z c a b (inl s) (inr t) e f g = omega (arith, g (inl s) t)
differ x y z c a b (inl s) (inl t) e f g =
    let same : text_eq x y ≡ true = (text_eq_iff x y).1 (sym s.0 ∙ t.0) in cc

-- No common subsequence is longer.
pub length-le-lcs : (c a b : List Text) → IsSubsequence c a → IsSubsequence c b → length c ≤ lcs a b
unfolding lcs
length-le-lcs [] a b s t = omega arith
length-le-lcs (z ∷ c) [] b s t = absurd s
length-le-lcs (z ∷ c) (x ∷ a) [] s t = absurd t
length-le-lcs (z ∷ c) (x ∷ a) (y ∷ b) s t = elim (Bool-cases (text_eq x y)) [
  | inl e ↦ rw e (
      omega
        (arith, length-le-lcs c a b (rest-IsSubsequence z x c a s) (rest-IsSubsequence z y c b t)))
  | inr e ↦
      rw e (
        differ x y z c a b s t e (length-le-lcs (z ∷ c) a (y ∷ b))
          (length-le-lcs (z ∷ c) (x ∷ a) b))
]
