-- ===== src/Cluster/Diff.antt =====
-- server/internal/cluster/diff.go: the unified diff of two texts. The proofs are in
-- Cluster/Diff/Sides, Cluster/Diff/Shortest and Cluster/Diff/Table.
--
-- Rendering an object as YAML calls a library; a text is its code points.
pub mod Sides
pub mod Shortest
pub mod Table
use kubby.Prelude.{
  ℕ, zero, suc, ◌+◌, max, true, false, ◌&&◌, List, [], ◌∷◌, leb, ◌==◌, if◌then◌else◌, Text, text_eq,
  is_empty, split_on,
}

pub data LineKind : Type 0 where
  context added removed : LineKind

pub record DiffLine : Type 0 where
  pub kind : LineKind
  pub text : Text

abbrev newline : ℕ
newline = 10

-- `strings.TrimRight(text, "\n")`
unfoldable pub trim_newlines : Text → Text
trim_newlines [] = []
trim_newlines (c ∷ s) =
    let rest = trim_newlines s in if is_empty rest && c == newline then [] else c ∷ rest

unfoldable pub split_lines : Text → List Text
unfolding split_on trim_newlines
split_lines text = if is_empty text then [] else split_on newline (trim_newlines text)

-- A row of the table, which its default 0 fills past its end.
unfoldable pub entry : List ℕ → ℕ → ℕ
entry [] j = 0
entry (n ∷ row) zero = n
entry (n ∷ row) (suc j) = entry row j

unfoldable pub cell : List (List ℕ) → ℕ → ℕ → ℕ
unfolding entry
cell [] i j = 0
cell (row ∷ table) zero j = entry row j
cell (row ∷ table) (suc i) j = cell table i j

abbrev pub tail_row : List ℕ → List ℕ
tail_row [] = []
tail_row (n ∷ row) = row

-- The row of one line of `a`, from its end, over the row `below` of the line after it.
unfoldable pub fill_row : Text → List Text → List ℕ → List ℕ
unfolding entry text_eq
fill_row x [] below = 0 ∷ []
fill_row x (y ∷ b) below =
    let right = fill_row x b (tail_row below) in
    (if text_eq x y then entry below 1 + 1 else max (entry below 0) (entry right 0)) ∷ right

unfoldable pub zeros : List Text → List ℕ
zeros [] = 0 ∷ []
zeros (y ∷ b) = 0 ∷ zeros b

unfoldable pub first_row : List (List ℕ) → List ℕ
first_row [] = []
first_row (row ∷ table) = row

-- `lengths`: a row for each line of `a`, and the last row of zeros.
unfoldable pub fill_table : List Text → List Text → List (List ℕ)
unfolding fill_row zeros first_row
fill_table [] b = zeros b ∷ []
fill_table (x ∷ a) b = let table = fill_table a b in fill_row x b (first_row table) ∷ table

abbrev pub line : LineKind → Text → DiffLine
line k t = record { kind = k; text = t }

unfoldable pub rest_of : LineKind → List Text → List DiffLine
rest_of k [] = []
rest_of k (x ∷ a) = line k x ∷ rest_of k a

-- The loops over `i` and `j`, with the lines that are left of each side.
unfoldable pub walk : List (List ℕ) → ℕ → List Text → ℕ → List Text → List DiffLine
unfolding cell rest_of text_eq
walk lengths i [] j b = rest_of added b
walk lengths i (x ∷ a) j [] = rest_of removed (x ∷ a)
walk lengths i (x ∷ a) j (y ∷ b) = elim (text_eq x y) [
  | true ↦ line context x ∷ walk lengths (suc i) a (suc j) b
  | false ↦ elim (leb (cell lengths i (suc j)) (cell lengths (suc i) j)) [
    | true ↦ line removed x ∷ walk lengths (suc i) a j (y ∷ b)
    | false ↦ line added y ∷ walk lengths i (x ∷ a) (suc j) b
  ]
]

unfoldable pub diff_text : Text → Text → List DiffLine
unfolding split_lines fill_table walk text_eq
diff_text before after =
    if text_eq before after
    then []
    else let a = split_lines before in let b = split_lines after in walk (fill_table a b) 0 a 0 b
