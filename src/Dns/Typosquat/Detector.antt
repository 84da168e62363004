-- ===== src/Dns/Typosquat/Detector.antt =====
-- dns_server/typosquat.py: `TyposquatDetector`.
pub mod Brands
pub mod Sound
pub mod Complete
use scamlens.Base.{
  ℕ, Bool, true, false, not, ◌&&◌, ◌||◌, Text, List, [], ◌∷◌, ◌++◌, map, Option, none, some, length,
  ltb, leb, ◌==◌, same, is_some, strip, lower, codes, if◌then◌else◌,
}
use scamlens.Dns.Typosquat.Levenshtein.{abs_diff, levenshtein}
use scamlens.Dns.Typosquat.Boundary.{contains_at_boundary}
use scamlens.Dns.Typosquat.Labels.{etld_plus_one_label, normalize}

pub record TyposquatHit : Type 0 where
  pub brand : Text
  pub brand_domain : Text
  pub reason : Text
  pub distance : ℕ

-- A value of `_brand_labels`: the canonical domain and the brand.
pub record Anchor : Type 0 where
  pub canonical : Text
  pub brand : Text

-- `_brand_labels`, a dict from labels to anchors in the order of insertion.
abbrev pub Labels : Type 0
Labels = List (Text × Anchor)

unfoldable pub lookup : Text → Labels → Option Anchor
unfolding same
lookup k [] = none
lookup k ((j, v) ∷ m) = if same k j then some v else lookup k m

-- `d[k] = v`: a new key goes to the end, and a known key keeps its place.
unfoldable pub insert : Text → Anchor → Labels → Labels
unfolding same
insert k v [] = (k, v) ∷ []
insert k v ((j, w) ∷ m) = if same k j then (j, v) ∷ m else (j, w) ∷ insert k v m

-- The dict comprehension of `__init__`, over the items of `brand_map`.
unfoldable pub add_all : Labels → List Anchor → Labels
unfolding insert
add_all labels [] = labels
add_all labels (a ∷ items) = add_all (insert (etld_plus_one_label a.canonical) a labels) items

unfoldable pub brand_labels : List Anchor → Labels
unfolding add_all
brand_labels brand_map = add_all [] brand_map

-- The members of `{label, normalized}` in the order in which the set is walked, which Python
-- leaves open: `raw_first` says which.
unfoldable pub both_forms : Bool → Text → Text → List Text
both_forms raw_first label normalized =
    if same normalized label
    then label ∷ []
    else if raw_first
    then label ∷ normalized ∷ []
    else normalized ∷ label ∷ []

unfoldable pub max_d : Text → ℕ
max_d brand_label = if leb 7 (length brand_label) then 2 else 1

unfoldable pub in_range : ℕ → Option ℕ → Option ℕ
in_range limit none = none
in_range limit (some d) = if ltb 0 d && leb d limit then some d else none

-- The body of the loop over the candidates: `none` goes on.
unfoldable pub near : Text → Text → Option ℕ
unfolding in_range max_d
near candidate brand_label =
    if ltb (max_d brand_label) (abs_diff (length brand_label) (length candidate))
    then none
    else in_range (max_d brand_label) (levenshtein candidate brand_label (max_d brand_label))

unfoldable pub first_near : List Text → Text → Option ℕ
first_near [] brand_label = none
first_near (c ∷ cs) brand_label = elim (near c brand_label) [
  | none ↦ first_near cs brand_label
  | some d ↦ some d
]

unfoldable pub hit : Anchor → Text → ℕ → TyposquatHit
hit a reason d = record {
  brand = a.brand;
  brand_domain = a.canonical;
  reason = reason;
  distance = d;
}

-- `reason=f"..."`; `digit` is the decimal form of a distance, which is 1 or 2.
unfoldable pub homoglyph_reason : Anchor → Text → Text → Text
homoglyph_reason a label normalized =
    codes "homoglyph of "
    ++ a.brand
    ++ codes " ("
    ++ label
    ++ codes " looks like "
    ++ normalized
    ++ codes ")"

unfoldable pub distance_reason : Anchor → ℕ → Text
distance_reason a d =
    codes "edit distance "
    ++ (if d == 2 then codes "2" else codes "1")
    ++ codes " from "
    ++ a.canonical

unfoldable pub token_reason : Anchor → Text
token_reason a = codes "contains brand '" ++ a.brand ++ codes "' in non-official domain"

-- Rule 2.
unfoldable pub by_distance : List Text → Labels → Option TyposquatHit
unfolding first_near hit
by_distance candidates [] = none
by_distance candidates ((l, a) ∷ labels) = elim (first_near candidates l) [
  | none ↦ by_distance candidates labels
  | some d ↦ some (hit a (distance_reason a d) d)
]

-- Rule 3.
unfoldable pub token_in : Text → Labels → Option TyposquatHit
unfolding hit
token_in candidate [] = none
token_in candidate ((l, a) ∷ labels) =
    let rest = token_in candidate labels in
    if ltb (length l) 5
    then rest
    else if contains_at_boundary candidate l
    then some (hit a (token_reason a) 0)
    else rest

unfoldable pub by_token : List Text → Labels → Option TyposquatHit
unfolding token_in
by_token [] labels = none
by_token (c ∷ cs) labels = elim (token_in c labels) [ none ↦ by_token cs labels | some h ↦ some h ]

-- Rule 1: the normal form is a brand label.
unfoldable pub by_homoglyph : Text → Text → Labels → Option TyposquatHit
unfolding lookup hit
by_homoglyph label normalized labels =
    if same normalized label then none else elim (lookup normalized labels) [
      | none ↦ none
      | some a ↦ some (hit a (homoglyph_reason a label normalized) 0)
    ]

unfoldable pub or_else : Option TyposquatHit → Option TyposquatHit → Option TyposquatHit
or_else none r = r
or_else (some h) r = some h

unfoldable pub check_label : Bool → Bool → Labels → Text → Option TyposquatHit
unfolding lookup or_else by_homoglyph by_distance by_token both_forms
check_label first second labels [] = none
check_label first second labels (c ∷ cs) =
    let label = c ∷ cs in
    let normalized = normalize label in
    if is_some (lookup label labels)
    then none
    else or_else (by_homoglyph label normalized labels) (
        or_else (by_distance (both_forms first label normalized) labels)
          (by_token (both_forms second label normalized) labels))

-- `TyposquatDetector(brand_map).check(domain)`; the two flags are the walks of the two sets.
unfoldable pub check : Bool → Bool → List Anchor → Text → Option TyposquatHit
unfolding check_label brand_labels etld_plus_one_label
check first second brand_map domain =
    check_label first second (brand_labels brand_map)
      (etld_plus_one_label (strip (codes ".") (lower domain)))
