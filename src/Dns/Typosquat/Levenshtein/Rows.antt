-- ===== src/Dns/Typosquat/Levenshtein/Rows.antt =====
-- What a row of the table holds, and why a row above the limit ends the search.
use scamlens.Base.{
  ℕ, ◌≤◌, ◌<◌, Text, List, [], ◌∷◌, length, ◌≡◌, refl, arith, ltb, All, if◌then◌else◌, ap, ◌∙◌, sym,
}
use mathlib.Core.List.{reverse_aux}
use scamlens.Dns.Typosquat.Levenshtein.{range_row, fill, row_min, last}
use scamlens.Dns.Typosquat.Levenshtein.Scripts.{distance, distance-nil}

-- The distances of one prefix of `a` to the prefixes of `b`, both read backwards: `rb` is the
-- part of `b` that is behind, `b` the part ahead.
unfoldable pub table : Text → Text → Text → List ℕ
table ra rb [] = distance ra rb ∷ []
table ra rb (cb ∷ b) = distance ra rb ∷ table ra (cb ∷ rb) b

abbrev tail_of : List ℕ → List ℕ
tail_of [] = []
tail_of (v ∷ vs) = vs

pub table-cons : (ra rb b : Text) → table ra rb b ≡ distance ra rb ∷ tail_of (table ra rb b)
unfolding table
table-cons ra rb [] = refl
table-cons ra rb (cb ∷ b) = refl

pub range_row-table : (rb b : Text) → range_row (length rb) b ≡ table [] rb b
unfolding range_row table distance
range_row-table rb [] = refl
range_row-table rb (cb ∷ b) = ap (◌∷◌ (length rb)) (range_row-table (cb ∷ rb) b)

-- One pass of the inner loop turns the row of a prefix into the row of the next prefix.
pub fill-table :
    (ca : ℕ) (ra rb b : Text)
    → fill ca b (distance (ca ∷ ra) rb) (table ra rb b) ≡ tail_of (table (ca ∷ ra) rb b)
unfolding fill table distance
fill-table ca ra rb [] = refl
fill-table ca ra rb (cb ∷ b) =
    let left = distance (ca ∷ ra) (cb ∷ rb) in
    ap (λ t. fill ca (cb ∷ b) (distance (ca ∷ ra) rb) (distance ra rb ∷ t))
      (table-cons ra (cb ∷ rb) b)
    ∙ ap (λ t. left ∷ fill ca b left t) (sym (table-cons ra (cb ∷ rb) b))
    ∙ ap (◌∷◌ left) (fill-table ca ra (cb ∷ rb) b)
    ∙ sym (table-cons (ca ∷ ra) (cb ∷ rb) b)

pub last-table : (d : ℕ) (ra rb b : Text) → last d (table ra rb b) ≡ distance ra (reverse_aux b rb)
unfolding last table
last-table d ra rb [] = refl
last-table d ra rb (cb ∷ b) = last-table (distance ra rb) ra (cb ∷ rb) b

row_min-le : (m : ℕ) (vs : List ℕ) → row_min m vs ≤ m
unfolding row_min
row_min-le m [] = omega arith
row_min-le m (v ∷ vs) = ground (arith, row_min-le (if ltb v m then v else m) vs)

-- A row whose least entry is above the limit is above it everywhere.
pub row_min-All : (k m : ℕ) (vs : List ℕ) → k < row_min m vs → All (λ v. k < v) (m ∷ vs)
unfolding row_min
row_min-All k m [] h = (h, tt)
row_min-All k m (v ∷ vs) h =
    let rest = row_min-All k (if ltb v m then v else m) vs h in
    (ground (arith, rest.0), (ground (arith, rest.0), rest.1))

table-head : (k : ℕ) (ra rb b : Text) → All (λ v. k < v) (table ra rb b) → k < distance ra rb
unfolding table
table-head k ra rb [] h = h.0
table-head k ra rb (cb ∷ b) h = h.0

-- So is then the row of every longer prefix.
table-All :
    (k ca : ℕ) (ra rb b : Text)
    → k < distance (ca ∷ ra) rb
    → All (λ v. k < v) (table ra rb b)
    → All (λ v. k < v) (table (ca ∷ ra) rb b)
unfolding table distance
table-All k ca ra rb [] left h = (left, tt)
table-All k ca ra rb (cb ∷ b) left h =
    let up : k < distance ra (cb ∷ rb) = table-head k ra (cb ∷ rb) b h.1 in
    (left, table-All k ca ra (cb ∷ rb) b (omega (arith, left, up, h.0)) h.1)

table-All_nil :
    (k ca : ℕ) (ra b : Text)
    → All (λ v. k < v) (table ra [] b)
    → All (λ v. k < v) (table (ca ∷ ra) [] b)
unfolding distance
table-All_nil k ca ra b h =
    table-All k ca ra [] b (omega (arith, table-head k ra [] b h, distance-nil ra)) h

-- The early exit is right: the distance of the whole texts is above the limit too.
pub far_row :
    (k : ℕ) (a b ra : Text)
    → All (λ v. k < v) (table ra [] b)
    → k < distance (reverse_aux a ra) (reverse_aux b [])
far_row k [] b ra h = last_far b [] h
  where
    last_far : (b rb : Text) → All (λ v. k < v) (table ra rb b) → k < distance ra (reverse_aux b rb)
    last_far [] rb h = table-head k ra rb [] h
    last_far (cb ∷ b) rb h = last_far b (cb ∷ rb) (unfold table in h.1)
far_row k (ca ∷ a) b ra h = far_row k a b (ca ∷ ra) (table-All_nil k ca ra b h)
