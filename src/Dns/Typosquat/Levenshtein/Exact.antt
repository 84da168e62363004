-- ===== src/Dns/Typosquat/Levenshtein/Exact.antt =====
-- `_levenshtein` against the edit scripts.
use mathlib.Core.List.{reverse, reverse_aux, reverse-reverse}
use scamlens.Base.{
  ℕ, suc, ◌≤◌, ◌<◌, Text, List, [], ◌∷◌, Option, none, some, length, ◌≡◌, arith, ltb, All, ap, sym,
  ◌∙◌, ltb→lt, subst, Bool-cases, inl, inr, same, same_iff,
}
use scamlens.Dns.Typosquat.Levenshtein.{abs_diff, range_row, fill, row_min, last, rows, levenshtein}
use scamlens.Dns.Typosquat.Levenshtein.Scripts.{
  Edit, done, keep, distance, distance-Edit, distance-le, reverse_script, abs_diff-le,
}
use scamlens.Dns.Typosquat.Levenshtein.Rows.{
  table, table-cons, range_row-table, fill-table, last-table, row_min-All, far_row,
}

-- The number is `n`, or there is none and `n` is above the limit.
abbrev Bounded : ℕ → ℕ → Option ℕ → Type 0
Bounded k n none = k < n
Bounded k n (some d) = d ≡ n

row-table :
    (ca : ℕ) (ra b : Text) (i : ℕ) (prev : List ℕ)
    → i ≡ suc (length ra)
    → prev ≡ table ra [] b
    → (i ∷ fill ca b i prev) ≡ table (ca ∷ ra) [] b
unfolding distance
row-table ca ra b i prev ei ep =
    rw ep
      (rw ei (ap (◌∷◌ (suc (length ra))) (fill-table ca ra [] b) ∙ sym (table-cons (ca ∷ ra) [] b)))

rows-Bounded :
    (k : ℕ) (a b ra : Text) (i : ℕ) (prev : List ℕ)
    → i ≡ suc (length ra)
    → prev ≡ table ra [] b
    → Bounded k (distance (reverse_aux a ra) (reverse_aux b [])) (rows k a b i prev)
unfolding rows
rows-Bounded k [] b ra i prev ei ep = ap (last 0) ep ∙ last-table 0 ra [] b
rows-Bounded k (ca ∷ a) b ra i prev ei ep =
    let row = row-table ca ra b i prev ei ep in
    elim (Bool-cases (ltb k (row_min i (fill ca b i prev)))) [
      | inl far ↦ rw far (
          far_row k a b (ca ∷ ra)
            (subst (All (λ v. k < v)) row (row_min-All k i _ (ltb→lt _ _ far))))
      | inr near ↦
          rw near (rows-Bounded k a b (ca ∷ ra) (suc i) (i ∷ fill ca b i prev) (omega arith) row)
    ]

-- The least cost of a script that makes `b` of `a`.
pub record IsLeast (a b : Text) (d : ℕ) : Type 0 where
  pub script : Edit a b d
  pub least : {n : ℕ} → Edit a b n → d ≤ n

distance-IsLeast : (a b : Text) → IsLeast a b (distance (reverse a) (reverse b))
distance-IsLeast a b = record {
  script =
      subst (λ t. Edit t b (distance (reverse a) (reverse b))) (reverse-reverse a)
        (subst (λ t. Edit (reverse (reverse a)) t (distance (reverse a) (reverse b)))
          (reverse-reverse b) (reverse_script (distance-Edit (reverse a) (reverse b))));
  least = λ e. distance-le (reverse_script e);
}

keep_all : (a : Text) → Edit a a 0
keep_all [] = done
keep_all (c ∷ a) = keep c (keep_all a)

-- What a caller may rely on: a number is the least cost, and `None` means that every script costs
-- more than the limit.
abbrev pub Measures : Text → Text → ℕ → Option ℕ → Type 0
Measures a b k none = (n : ℕ) → Edit a b n → k < n
Measures a b k (some d) = IsLeast a b d

Measures-of_Bounded :
    (a b : Text) (k : ℕ) (r : Option ℕ)
    → Bounded k (distance (reverse a) (reverse b)) r
    → Measures a b k r
Measures-of_Bounded a b k none h = λ n e. omega (arith, h, (distance-IsLeast a b).least e)
Measures-of_Bounded a b k (some d) h = subst (IsLeast a b) (sym h) (distance-IsLeast a b)

-- For every two texts and every limit: a number that `_levenshtein` returns is the least number
-- of insertions, deletions and substitutions that turn the first text into the second, and it
-- returns None only if more edits than the limit are needed.
pub levenshtein-Measures : (a b : Text) (k : ℕ) → Measures a b k (levenshtein a b k)
unfolding levenshtein
levenshtein-Measures a b k = elim (Bool-cases (ltb k (abs_diff (length a) (length b)))) [
  | inl far ↦ rw far (λ n e. omega (arith, ltb→lt _ _ far, abs_diff-le e))
  | inr near ↦ rw near (elim (Bool-cases (same a b)) [
    | inl equal ↦ rw equal (record {
      script = subst (λ t. Edit a t 0) ((same_iff a b).0 equal) (keep_all a);
      least = λ e. omega arith;
    })
    | inr other ↦ rw other (
        Measures-of_Bounded a b k _
          (rows-Bounded k a b [] 1 (range_row 0 b) (omega arith) (range_row-table [] b)))
  ])
]
