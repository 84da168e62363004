-- ===== src/Scanner/Control/Triage.antt =====
-- ai_scanner/control.py: the order and the number of the triaged links.
use scamlens.Base.{
  ℕ, Bool, true, false, ◌==◌, ◌||◌, ◌≡◌, ◌≤◌, List, [], ◌∷◌, ◌++◌, Option, none, some, All,
  if◌then◌else◌,
}
use scamlens.Dns.Cache
use scamlens.Dns.Cache.{Label}
use scamlens.Scanner.Control.{Triaged, link_rank, Sort}

abbrev pub select : (Triaged → Bool) → List Triaged → List Triaged
select p [] = []
select p (t ∷ ts) = if p t then t ∷ select p ts else select p ts

-- No link has a key above that of a later one.
abbrev pub IsSorted : (Triaged → ℕ) → List Triaged → Type 0
IsSorted key [] = Unit
IsSorted key (t ∷ ts) = All (λ (u : Triaged). key t ≤ key u) ts × IsSorted key ts

-- What Python documents of `list.sort`: the result is sorted by the key, and links of the same key
-- stay in their order.
pub record IsStableSort (sort : Sort) : Type 0 where
  pub sorted : (key : Triaged → ℕ) (ts : List Triaged) → IsSorted key (sort key ts)
  pub stable :
      (key : Triaged → ℕ) (n : ℕ) (ts : List Triaged)
      → select (λ t. key t == n) (sort key ts) ≡ select (λ t. key t == n) ts

abbrev pub label_of : Triaged → Option Label
label_of t = elim (t.cached_verdict) [ none ↦ none | some p ↦ some p.verdict ]

abbrev pub says_scam : Option Label → Bool
says_scam (some Cache.scam) = true
says_scam _ = false

abbrev pub says_suspicious : Option Label → Bool
says_suspicious (some Cache.suspicious) = true
says_suspicious _ = false

abbrev pub says_pending : Option Label → Bool
says_pending (some Cache.pending) = true
says_pending _ = false

-- A safe verdict, or none.
abbrev pub says_other : Option Label → Bool
says_other (some Cache.safe) = true
says_other none = true
says_other _ = false

abbrev pub with_label : (Option Label → Bool) → List Triaged → List Triaged
with_label p ts = select (λ t. p (label_of t)) ts

abbrev pub has_rank : ℕ → Triaged → Bool
has_rank n t = link_rank t == n

-- The four classes are the four ranks, and every link is in one of them.
abbrev InClasses : Triaged → Type 0
InClasses t =
    (says_scam (label_of t) ≡ has_rank 0 t)
    × (says_suspicious (label_of t) ≡ has_rank 1 t)
    × (says_pending (label_of t) ≡ has_rank 2 t)
    × (says_other (label_of t) ≡ has_rank 9 t)
    × ((has_rank 0 t || (has_rank 1 t || (has_rank 2 t || has_rank 9 t))) ≡ true)

-- The links of the four ranks, one rank after the other.
abbrev by_rank : List Triaged → List Triaged
by_rank ts =
    select (has_rank 0) ts
    ++ (select (has_rank 1) ts ++ (select (has_rank 2) ts ++ select (has_rank 9) ts))
