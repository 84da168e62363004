-- ===== src/Dns/Typosquat/Detector/Brands.antt =====
-- The dict of brand labels, and the comparison with one of them.
use scamlens.Base.{
  ℕ, true, ◌≡◌, ◌≤◌, refl, arith, Text, List, [], ◌∷◌, Option, none, some, length, ltb, same_iff,
  is_some, In, Bool-cases, inl, inr, subst, ltb→lt,
}
use scamlens.Dns.Typosquat.Levenshtein.{abs_diff}
use scamlens.Dns.Typosquat.Levenshtein.Scripts.{abs_diff-le}
use scamlens.Dns.Typosquat.Levenshtein.Exact.{IsLeast, Measures, levenshtein-Measures}
use scamlens.Dns.Typosquat.Labels.{etld_plus_one_label}
use scamlens.Dns.Typosquat.Detector.{
  Anchor, Labels, lookup, insert, add_all, brand_labels, max_d, in_range, near,
}

lookup-insert_self : (k : Text) (v : Anchor) (m : Labels) → lookup k (insert k v m) ≡ some v
unfolding lookup insert
lookup-insert_self k v [] = rw ((same_iff k k).1 refl)
lookup-insert_self k v ((j, w) ∷ m) = ground (arith, lookup-insert_self k v m)

has-insert :
    (k j : Text) (v : Anchor) (m : Labels)
    → is_some (lookup j m) ≡ true
    → is_some (lookup j (insert k v m)) ≡ true
unfolding lookup insert
has-insert k j v [] h = cc
has-insert k j v ((i, w) ∷ m) h = ground (arith, has-insert k j v m)

has-add_all :
    (labels : Labels) (items : List Anchor) (j : Text)
    → is_some (lookup j labels) ≡ true
    → is_some (lookup j (add_all labels items)) ≡ true
unfolding add_all
has-add_all labels [] j h = h
has-add_all labels (a ∷ items) j h =
    has-add_all (insert (etld_plus_one_label a.canonical) a labels) items j
      (has-insert (etld_plus_one_label a.canonical) j a labels h)

listed-add_all :
    (labels : Labels) (items : List Anchor) (a : Anchor)
    → In a items
    → is_some (lookup (etld_plus_one_label a.canonical) (add_all labels items)) ≡ true
unfolding add_all
listed-add_all labels (b ∷ items) a (inl e) = rw e (
    has-add_all _ items (etld_plus_one_label b.canonical)
      (rw (lookup-insert_self (etld_plus_one_label b.canonical) b labels)))
listed-add_all labels (b ∷ items) a (inr m) =
    listed-add_all (insert (etld_plus_one_label b.canonical) b labels) items a m
listed-add_all labels [] a m = absurd m

-- The label of every brand of the map is a key.
pub listed-brand_labels :
    (items : List Anchor) (a : Anchor)
    → In a items
    → is_some (lookup (etld_plus_one_label a.canonical) (brand_labels items)) ≡ true
unfolding brand_labels
listed-brand_labels items a m = listed-add_all [] items a m

-- A misspelling: the least number of edits is from 1 to the limit of the brand's length.
pub record IsMisspelling (candidate brand_label : Text) (d : ℕ) : Type 0 where
  pub least : IsLeast candidate brand_label d
  pub positive : 1 ≤ d
  pub small : d ≤ max_d brand_label

in_range-IsMisspelling :
    (c l : Text) (r : Option ℕ) {d : ℕ}
    → Measures c l (max_d l) r
    → in_range (max_d l) r ≡ some d
    → IsMisspelling c l d
unfolding in_range
in_range-IsMisspelling c l none m h = cc
in_range-IsMisspelling c l (some n) {d} m h =
    let e : n ≡ d = ground arith in
    record { least = subst (IsLeast c l) e m; positive = ground arith; small = ground arith }

pub near_sound : (c l : Text) {d : ℕ} → near c l ≡ some d → IsMisspelling c l d
unfolding near
near_sound c l h = elim (Bool-cases (ltb (max_d l) (abs_diff (length l) (length c)))) [
  | inl far ↦ cc (rw far at h)
  | inr close ↦ in_range-IsMisspelling c l _ (levenshtein-Measures c l (max_d l)) (rw close at h)
]

in_range-eq_some :
    (c l : Text) (r : Option ℕ) {d : ℕ}
    → Measures c l (max_d l) r
    → IsMisspelling c l d
    → in_range (max_d l) r ≡ some d
unfolding in_range
in_range-eq_some c l none {d} m h = absurd (omega (arith, m d h.least.script, h.small))
in_range-eq_some c l (some n) {d} m h =
    let p : n ≤ d = m.least h.least.script in
    let q : d ≤ n = h.least.least m.script in
    let e : d ≡ n = omega arith in rw e (ground (arith, h.positive, h.small))

abs_diff_comm : (m n : ℕ) → abs_diff m n ≡ abs_diff n m
unfolding abs_diff
abs_diff_comm m n = omega arith

pub near_complete : (c l : Text) {d : ℕ} → IsMisspelling c l d → near c l ≡ some d
unfolding near
near_complete c l h = elim (Bool-cases (ltb (max_d l) (abs_diff (length l) (length c)))) [
  | inl far ↦ absurd (
      omega (
        arith,
        ltb→lt _ _ far,
        abs_diff_comm (length l) (length c),
        abs_diff-le h.least.script,
        h.small,
      ))
  | inr close ↦ rw close (in_range-eq_some c l _ (levenshtein-Measures c l (max_d l)) h)
]
