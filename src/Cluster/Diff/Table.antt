-- ===== src/Cluster/Diff/Table.antt =====
-- The table of server/internal/cluster/diff.go holds what it is named for, and the walk over it keeps
-- a longest common subsequence of the lines.
use mathlib.Core.Path.{subst}
use kubby.Prelude.{
  ℕ, zero, suc, ◌+◌, ◌≤◌, ◌≡◌, refl, ◌∙◌, ◌≢◌, inl, inr, List, [], ◌∷◌, arith, Bool-cases, length,
  drop, Text, text_eq, eq_of_text_eq,
}
use kubby.Cluster.Diff.{
  LineKind, context, added, removed, DiffLine, split_lines, entry, cell, tail_row, fill_row, zeros,
  first_row, fill_table, line, rest_of, walk, diff_text,
}
use kubby.Cluster.Diff.Sides.{old_lines, new_lines, diff_text-sides}
use kubby.Cluster.Diff.Shortest.{lcs, IsSubsequence, length-le-lcs}

drop_nil : (k : ℕ) → drop {A = Text} k [] ≡ []
drop_nil zero = refl
drop_nil (suc k) = refl

entry-tail_row : (row : List ℕ) (k : ℕ) → entry (tail_row row) k ≡ entry row (suc k)
unfolding entry
entry-tail_row [] k = refl
entry-tail_row (n ∷ row) k = refl

entry-zeros : (b : List Text) (k : ℕ) → entry (zeros b) k ≡ 0
unfolding entry zeros
entry-zeros [] zero = refl
entry-zeros [] (suc k) = refl
entry-zeros (y ∷ b) zero = refl
entry-zeros (y ∷ b) (suc k) = entry-zeros b k

lcs_nil : (a : List Text) → lcs a [] ≡ 0
unfolding lcs
lcs_nil [] = refl
lcs_nil (x ∷ a) = refl

-- A row from the row below it.
entry-fill_row :
    (x : Text) (a b : List Text) (below : List ℕ)
    → ((k : ℕ) → entry below k ≡ lcs a (drop k b))
    → (k : ℕ) → entry (fill_row x b below) k ≡ lcs (x ∷ a) (drop k b)
unfolding fill_row entry lcs
entry-fill_row x a [] below h zero = refl
entry-fill_row x a [] below h (suc k) = refl
entry-fill_row x a (y ∷ b) below h zero = ground (
  arith,
  h 0,
  h 1,
  entry-fill_row x a b (tail_row below) (λ k. entry-tail_row below k ∙ h (suc k)) 0,
)
entry-fill_row x a (y ∷ b) below h (suc k) =
    entry-fill_row x a b (tail_row below) (λ k. entry-tail_row below k ∙ h (suc k)) k

entry-first_row : (t : List (List ℕ)) (k : ℕ) → entry (first_row t) k ≡ cell t 0 k
unfolding entry cell first_row
entry-first_row [] k = refl
entry-first_row (row ∷ t) k = refl

-- Every entry of the table, those outside it included: the length of a longest common subsequence of
-- the lines from there on.
cell-fill_table :
    (a b : List Text) (i j : ℕ) → cell (fill_table a b) i j ≡ lcs (drop i a) (drop j b)
unfolding cell fill_table entry lcs
cell-fill_table [] b zero j = entry-zeros b j
cell-fill_table [] b (suc i) j = refl
cell-fill_table (x ∷ a) b zero j =
    entry-fill_row x a b (first_row (fill_table a b))
      (λ k. entry-first_row (fill_table a b) k ∙ cell-fill_table a b 0 k) j
cell-fill_table (x ∷ a) b (suc i) j = cell-fill_table a b i j

-- The lines that the diff shows unchanged.
unfoldable pub kept_lines : List DiffLine → List Text
kept_lines [] = []
kept_lines (l ∷ ls) = let rest = kept_lines ls in elim l.kind [ context ↦ l.text ∷ rest | _ ↦ rest ]

kept_lines-rest_of :
    (a : List Text) → (kept_lines (rest_of removed a) ≡ []) × (kept_lines (rest_of added a) ≡ [])
unfolding kept_lines rest_of
kept_lines-rest_of [] = (refl, refl)
kept_lines-rest_of (x ∷ a) = kept_lines-rest_of a

-- The table seen from row `i` and column `j`, where the lines `a` and `b` are left.
abbrev IsTable : List (List ℕ) → ℕ → List Text → ℕ → List Text → Type 0
IsTable t i a j b = (m n p q : ℕ) → m ≡ i + p → n ≡ j + q → cell t m n ≡ lcs (drop p a) (drop q b)

length-kept_lines :
    (t : List (List ℕ)) (i : ℕ) (a : List Text) (j : ℕ) (b : List Text)
    → IsTable t i a j b
    → length (kept_lines (walk t i a j b)) ≡ lcs a b
unfolding walk kept_lines lcs
length-kept_lines t i [] j b h = rw ((kept_lines-rest_of b).1) refl
length-kept_lines t i (x ∷ a) j [] h = rw ((kept_lines-rest_of (x ∷ a)).0) refl
length-kept_lines t i (x ∷ a) j (y ∷ b) h = ground (
  arith,
  length-kept_lines t (suc i) a (suc j) b
      (λ m n p q e f. h m n (suc p) (suc q) (omega arith) (omega arith)),
  length-kept_lines t (suc i) a j (y ∷ b)
      (λ m n p q e f. h m n (suc p) q (omega arith) (omega arith)),
  length-kept_lines t i (x ∷ a) (suc j) b
      (λ m n p q e f. h m n p (suc q) (omega arith) (omega arith)),
  h i (suc j) 0 1 (omega arith) (omega arith),
  h (suc i) j 1 0 (omega arith) (omega arith),
)

skip-IsSubsequence : (x : Text) (c a : List Text) → IsSubsequence c a → IsSubsequence c (x ∷ a)
skip-IsSubsequence x [] a h = tt
skip-IsSubsequence x (z ∷ c) a h = inr h

kept_lines-IsSubsequence :
    (ls : List DiffLine)
    → IsSubsequence (kept_lines ls) (old_lines ls) × IsSubsequence (kept_lines ls) (new_lines ls)
unfolding kept_lines old_lines new_lines
kept_lines-IsSubsequence [] = (tt, tt)
kept_lines-IsSubsequence (l ∷ ls) = step l.kind l.text ls (kept_lines-IsSubsequence ls)
  where
    step :
        (k : LineKind) (t : Text) (ls : List DiffLine)
        → IsSubsequence (kept_lines ls) (old_lines ls)
          × IsSubsequence (kept_lines ls) (new_lines ls)
        → IsSubsequence (kept_lines (line k t ∷ ls)) (old_lines (line k t ∷ ls))
          × IsSubsequence (kept_lines (line k t ∷ ls)) (new_lines (line k t ∷ ls))
    step context t ls h = (inl (refl, h.0), inl (refl, h.1))
    step added t ls h = (h.0, skip-IsSubsequence t (kept_lines ls) (new_lines ls) h.1)
    step removed t ls h = (skip-IsSubsequence t (kept_lines ls) (old_lines ls) h.0, h.1)

length-kept_lines-diff_text :
    (before after : Text)
    → before ≢ after
    → length (kept_lines (diff_text before after)) ≡ lcs (split_lines before) (split_lines after)
unfolding diff_text
length-kept_lines-diff_text before after ne = elim (Bool-cases (text_eq before after)) [
  | inl e ↦ absurd (ne (eq_of_text_eq before after e))
  | inr e ↦
      let a = split_lines before in
      let b = split_lines after in
      rw e (
        length-kept_lines (fill_table a b) 0 a 0 b (λ m n p q f g.
          let same_row : m ≡ p = omega arith in
          let same_column : n ≡ q = omega arith in
          rw (same_row, same_column) (cell-fill_table a b p q)))
]

-- The unchanged lines of the diff of two texts that differ are a subsequence of the lines of both,
-- and no common subsequence `c` of the two is longer.
pub diff_text-longest :
    (before after : Text) (c : List Text)
    → before ≢ after
    → IsSubsequence c (split_lines before)
    → IsSubsequence c (split_lines after)
    → IsSubsequence (kept_lines (diff_text before after)) (split_lines before)
      × IsSubsequence (kept_lines (diff_text before after)) (split_lines after)
      × (length c ≤ length (kept_lines (diff_text before after)))
diff_text-longest before after c ne s t =
    let sides = diff_text-sides before after ne in
    let both = kept_lines-IsSubsequence (diff_text before after) in
    (
      subst (IsSubsequence (kept_lines (diff_text before after))) sides.0 both.0,
      subst (IsSubsequence (kept_lines (diff_text before after))) sides.1 both.1,
      omega (
        arith,
        length-kept_lines-diff_text before after ne,
        length-le-lcs c (split_lines before) (split_lines after) s t,
      ),
    )
