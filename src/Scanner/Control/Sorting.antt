-- ===== src/Scanner/Control/Sorting.antt =====
-- An instance of `list.sort` for the tests: insertion from the right, which is stable.
use scamlens.Base.{
  ℕ, ◌==◌, ◌≡◌, ◌≤◌, refl, arith, List, [], ◌∷◌, leb, leb→le, Bool-cases, inl, inr, ◌∙◌, All,
  if◌then◌else◌,
}
use scamlens.Scanner.Control.{Triaged, Sort}
use scamlens.Scanner.Control.Triage.{select, IsSorted, IsStableSort}

abbrev pub insert : (Triaged → ℕ) → Triaged → List Triaged → List Triaged
insert key t [] = t ∷ []
insert key t (u ∷ us) = if leb (key t) (key u) then t ∷ u ∷ us else u ∷ insert key t us

abbrev pub insertion_sort : Sort
insertion_sort key [] = []
insertion_sort key (t ∷ ts) = insert key t (insertion_sort key ts)

module _ (key : Triaged → ℕ) where
  abbrev AllAbove : ℕ → List Triaged → Type 0
  AllAbove n ts = All (λ (u : Triaged). n ≤ key u) ts

  raise : (n m : ℕ) (ts : List Triaged) → m ≤ n → AllAbove n ts → AllAbove m ts
  raise n m [] le h = tt
  raise n m (t ∷ ts) le h = (omega (arith, le, h.0), raise n m ts le h.1)

  insert-AllAbove :
      (n : ℕ) (t : Triaged) (ts : List Triaged)
      → n ≤ key t
      → AllAbove n ts
      → AllAbove n (insert key t ts)
  insert-AllAbove n t [] le h = (le, tt)
  insert-AllAbove n t (u ∷ us) le h = elim (Bool-cases (leb (key t) (key u))) [
    | inl e ↦ rw e (le, h)
    | inr e ↦ rw e (h.0, insert-AllAbove n t us le h.1)
  ]

  insert-IsSorted :
      (t : Triaged) (ts : List Triaged) → IsSorted key ts → IsSorted key (insert key t ts)
  insert-IsSorted t [] h = (tt, tt)
  insert-IsSorted t (u ∷ us) h = elim (Bool-cases (leb (key t) (key u))) [
    | inl e ↦ let le = leb→le _ _ e in rw e ((le, raise (key u) (key t) us le h.0), h)
    | inr e ↦ rw e (insert-AllAbove (key u) t us (ground (arith, e)) h.0, insert-IsSorted t us h.1)
  ]

  sort-IsSorted : (ts : List Triaged) → IsSorted key (insertion_sort key ts)
  sort-IsSorted [] = tt
  sort-IsSorted (t ∷ ts) = insert-IsSorted t (insertion_sort key ts) (sort-IsSorted ts)

  -- The links of one key, in front of which another of them is inserted.
  select-insert :
      (n : ℕ) (t : Triaged) (ts : List Triaged)
      → select (λ u. key u == n) (insert key t ts) ≡ select (λ u. key u == n) (t ∷ ts)
  select-insert n t [] = refl
  select-insert n t (u ∷ us) = elim (Bool-cases (leb (key t) (key u))) [
    | inl e ↦ rw e refl
    | inr e ↦ rw (e, select-insert n t us) (ground (arith, e))
  ]

  select-sort :
      (n : ℕ) (ts : List Triaged)
      → select (λ u. key u == n) (insertion_sort key ts) ≡ select (λ u. key u == n) ts
  select-sort n [] = refl
  select-sort n (t ∷ ts) = select-insert n t (insertion_sort key ts) ∙ rw (select-sort n ts) refl

pub insertion_sort-IsStableSort : IsStableSort insertion_sort
insertion_sort-IsStableSort = record { sorted = sort-IsSorted; stable = select-sort }
