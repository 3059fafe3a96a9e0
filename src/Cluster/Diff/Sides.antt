-- ===== src/Cluster/Diff/Sides.antt =====
-- What a diff of server/internal/cluster/diff.go says of its two sides.
use kubby.Prelude.{
  ℕ, suc, ◌≡◌, refl, ◌≢◌, inl, inr, List, [], ◌∷◌, arith, Bool-cases, Text, text_eq, eq_of_text_eq,
}
use kubby.Cluster.Diff.{added, removed, DiffLine, split_lines, fill_table, rest_of, walk, diff_text}

-- The lines that a reader finds before the change, and after it.
unfoldable pub old_lines : List DiffLine → List Text
old_lines [] = []
old_lines (l ∷ ls) = let rest = old_lines ls in elim l.kind [ added ↦ rest | _ ↦ l.text ∷ rest ]

unfoldable pub new_lines : List DiffLine → List Text
new_lines [] = []
new_lines (l ∷ ls) = let rest = new_lines ls in elim l.kind [ removed ↦ rest | _ ↦ l.text ∷ rest ]

rest_of-removed :
    (a : List Text) → (old_lines (rest_of removed a) ≡ a) × (new_lines (rest_of removed a) ≡ [])
unfolding rest_of old_lines new_lines
rest_of-removed [] = (refl, refl)
rest_of-removed (x ∷ a) = (rw ((rest_of-removed a).0) refl, (rest_of-removed a).1)

rest_of-added :
    (b : List Text) → (old_lines (rest_of added b) ≡ []) × (new_lines (rest_of added b) ≡ b)
unfolding rest_of old_lines new_lines
rest_of-added [] = (refl, refl)
rest_of-added (x ∷ b) = ((rest_of-added b).0, rw ((rest_of-added b).1) refl)

walk-sides :
    (t : List (List ℕ)) (i : ℕ) (a : List Text) (j : ℕ) (b : List Text)
    → (old_lines (walk t i a j b) ≡ a) × (new_lines (walk t i a j b) ≡ b)
unfolding walk old_lines new_lines
walk-sides t i [] j b = rest_of-added b
walk-sides t i (x ∷ a) j [] = rest_of-removed (x ∷ a)
walk-sides t i (x ∷ a) j (y ∷ b) = ground (
  arith,
  eq_of_text_eq x y,
  walk-sides t (suc i) a (suc j) b,
  walk-sides t (suc i) a j (y ∷ b),
  walk-sides t i (x ∷ a) (suc j) b,
)

-- The diff of two texts that differ loses nothing: its context and removed lines are the lines of
-- the text before, and its context and added lines those of the text after, in order.
pub diff_text-sides :
    (before after : Text)
    → before ≢ after
    → (old_lines (diff_text before after) ≡ split_lines before)
      × (new_lines (diff_text before after) ≡ split_lines after)
unfolding diff_text
diff_text-sides before after ne = elim (Bool-cases (text_eq before after)) [
  | inl e ↦ absurd (ne (eq_of_text_eq before after e))
  | inr e ↦
      let a = split_lines before in
      let b = split_lines after in rw e (walk-sides (fill_table a b) 0 a 0 b)
]
