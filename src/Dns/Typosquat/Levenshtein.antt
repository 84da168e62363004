-- ===== src/Dns/Typosquat/Levenshtein.antt =====
-- dns_server/typosquat.py: `_levenshtein`, the two-row table with its early exit.
pub mod Scripts
pub mod Rows
pub mod Exact
use scamlens.Base.{
  ℕ, suc, ◌+◌, ◌-◌, min, Text, List, [], ◌∷◌, Option, none, some, length, ltb, ◌==◌, same,
  if◌then◌else◌,
}

-- `abs(m - n)`
unfoldable pub abs_diff : ℕ → ℕ → ℕ
abs_diff m n = (m - n) + (n - m)

unfoldable pub cost : ℕ → ℕ → ℕ
cost ca cb = if ca == cb then 0 else 1

-- `list(range(n, n + len(b) + 1))`
unfoldable pub range_row : ℕ → Text → List ℕ
range_row n [] = n ∷ []
range_row n (cb ∷ b) = n ∷ range_row (suc n) b

-- The loop over `b`: `left` is `curr[j - 1]`, and the list `prev[j - 1], prev[j], ...`.
unfoldable pub fill : ℕ → Text → ℕ → List ℕ → List ℕ
unfolding cost
fill ca (cb ∷ b) left (diag ∷ up ∷ prev) =
    let v = min (min (left + 1) (up + 1)) (diag + cost ca cb) in v ∷ fill ca b v (up ∷ prev)
fill ca b left prev = []

-- `row_min`, which starts at `i`.
unfoldable pub row_min : ℕ → List ℕ → ℕ
row_min m [] = m
row_min m (v ∷ vs) = row_min (if ltb v m then v else m) vs

unfoldable pub last : ℕ → List ℕ → ℕ
last d [] = d
last d (v ∷ vs) = last v vs

-- The loop over `a`, from its character number `i`; `none` is the early exit.
unfoldable pub rows : ℕ → Text → Text → ℕ → List ℕ → Option ℕ
unfolding fill row_min last
rows k [] b i prev = some (last 0 prev)
rows k (ca ∷ a) b i prev =
    let curr = fill ca b i prev in
    let rest = rows k a b (suc i) (i ∷ curr) in if ltb k (row_min i curr) then none else rest

unfoldable pub levenshtein : Text → Text → ℕ → Option ℕ
unfolding rows range_row abs_diff
levenshtein a b max_distance =
    if ltb max_distance (abs_diff (length a) (length b))
    then none
    else if same a b
    then some 0
    else rows max_distance a b 1 (range_row 0 b)
