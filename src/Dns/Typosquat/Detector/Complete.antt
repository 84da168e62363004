-- ===== src/Dns/Typosquat/Detector/Complete.antt =====
-- What the detector reports, exactly.
use scamlens.Base.{
  ℕ, Bool, true, ◌≡◌, ◌≢◌, ◌≤◌, ◌↔◌, refl, arith, Text, List, [], ◌∷◌, Option, none, some, length,
  same, same_iff, is_some, In, Bool-cases, Option-cases, inl, inr, ap, subst, strip, lower, codes,
}
use mathlib.Core.Bool.{false≢true}
use scamlens.Dns.Typosquat.Boundary.{contains_at_boundary}
use scamlens.Dns.Typosquat.Boundary.Tokens.{contains_at_boundary_iff}
use scamlens.Dns.Typosquat.Labels.{normalize, etld_plus_one_label}
use scamlens.Dns.Typosquat.Detector.{
  TyposquatHit, Anchor, Labels, lookup, brand_labels, both_forms, near, first_near, by_distance,
  token_in, by_token, by_homoglyph, or_else, check_label, check,
}
use scamlens.Dns.Typosquat.Detector.Brands.{IsMisspelling, near_complete, listed-brand_labels}
use scamlens.Dns.Typosquat.Detector.Sound.{
  IsForm, Suspicious, homoglyph, misspelling, token, check_label_sound,
}

first_near_complete :
    (cs : List Text) (l c : Text) {d : ℕ}
    → In c cs
    → IsMisspelling c l d
    → is_some (first_near cs l) ≡ true
unfolding first_near
first_near_complete (b ∷ cs) l c m p = elim (Option-cases (near b l)) [
  | inr (n, e) ↦ rw (e, first_near) refl
  | inl e ↦
      rw (e, first_near)
        (elim m [
          | inl here ↦ cc (near_complete c l p, ap (λ t. near t l) here)
          | inr later ↦ first_near_complete cs l c later p
        ])
]
first_near_complete [] l c m p = absurd m

by_distance_complete :
    (cs : List Text) (labels : Labels) (c l : Text) (a : Anchor) {d : ℕ}
    → In c cs
    → In (l, a) labels
    → IsMisspelling c l d
    → is_some (by_distance cs labels) ≡ true
unfolding by_distance
by_distance_complete cs ((k, b) ∷ labels) c l a m n p = elim (Option-cases (first_near cs k)) [
  | inr (d, e) ↦ rw (e, by_distance) refl
  | inl e ↦
      rw (e, by_distance)
        (elim n [
          | inl here ↦
              let found : is_some (first_near cs k) ≡ true =
                subst (λ t. is_some (first_near cs t) ≡ true) (ap (λ t. t.0) here)
                  (first_near_complete cs l c m p) in
              absurd (false≢true (rw e at found))
          | inr later ↦ by_distance_complete cs labels c l a m later p
        ])
]
by_distance_complete cs [] c l a m n p = absurd n

token_in_complete :
    (c : Text) (labels : Labels) (l : Text) (a : Anchor)
    → In (l, a) labels
    → 5 ≤ length l
    → contains_at_boundary c l ≡ true
    → is_some (token_in c labels) ≡ true
unfolding token_in
token_in_complete c ((k, b) ∷ labels) l a (inl here) long t =
    let e : l ≡ k = ap (λ u. u.0) here in
    let long' : 5 ≤ length k = subst (λ u. 5 ≤ length u) e long in
    let t' : contains_at_boundary c k ≡ true = subst (λ u. contains_at_boundary c u ≡ true) e t in
    ground (arith, long', t')
token_in_complete c ((k, b) ∷ labels) l a (inr later) long t =
    ground (arith, token_in_complete c labels l a later long t)
token_in_complete c [] l a m long t = absurd m

by_token_complete :
    (cs : List Text) (labels : Labels) (c : Text)
    → In c cs
    → is_some (token_in c labels) ≡ true
    → is_some (by_token cs labels) ≡ true
unfolding by_token
by_token_complete (b ∷ cs) labels c m t = elim (Option-cases (token_in b labels)) [
  | inr (h, e) ↦ rw (e, by_token) refl
  | inl e ↦
      rw (e, by_token)
        (elim m [
          | inl here ↦ absurd (false≢true (cc (t, e, ap (λ u. is_some (token_in u labels)) here)))
          | inr later ↦ by_token_complete cs labels c later t
        ])
]
by_token_complete [] labels c m t = absurd m

form-In : (b : Bool) (label c : Text) → IsForm label c → In c (both_forms b label (normalize label))
unfolding both_forms
form-In b label c f = ground (arith, same_iff (normalize label) label)

or_else-left : (p q : Option TyposquatHit) → is_some p ≡ true → is_some (or_else p q) ≡ true
unfolding or_else
or_else-left p q h = ground arith

or_else-right : (p q : Option TyposquatHit) → is_some q ≡ true → is_some (or_else p q) ≡ true
unfolding or_else
or_else-right p q h = ground arith

by_homoglyph_complete :
    (label : Text) (labels : Labels) (a : Anchor)
    → normalize label ≢ label
    → lookup (normalize label) labels ≡ some a
    → is_some (by_homoglyph label (normalize label) labels) ≡ true
unfolding by_homoglyph
by_homoglyph_complete label labels a ne e = elim (Bool-cases (same (normalize label) label)) [
  | inl equal ↦ absurd (ne ((same_iff _ _).0 equal))
  | inr other ↦ rw other (rw (e, by_homoglyph) refl)
]

check_label_complete :
    (first second : Bool) (labels : Labels) (x : ℕ) (xs : Text) {h : TyposquatHit}
    → lookup (x ∷ xs) labels ≡ none
    → Suspicious labels (x ∷ xs) h
    → is_some (check_label first second labels (x ∷ xs)) ≡ true
unfolding check_label
check_label_complete first second labels x xs foreign (homoglyph a ne e) =
    rw foreign (or_else-left _ _ (by_homoglyph_complete (x ∷ xs) labels a ne e))
check_label_complete first second labels x xs foreign (misspelling c l a d f m p) = rw foreign (
    or_else-right (by_homoglyph (x ∷ xs) (normalize (x ∷ xs)) labels) _
      (or_else-left _ _ (by_distance_complete _ labels c l a (form-In first (x ∷ xs) c f) m p)))
check_label_complete first second labels x xs foreign (token c l a f m long ne t) = rw foreign (
    or_else-right (by_homoglyph (x ∷ xs) (normalize (x ∷ xs)) labels) _ (
      or_else-right (by_distance (both_forms first (x ∷ xs) (normalize (x ∷ xs))) labels) _ (
        by_token_complete _ labels c (form-In second (x ∷ xs) c f)
          (token_in_complete c labels l a m long ((contains_at_boundary_iff c l).1 (ne, t))))))

abbrev pub label_of : Text → Text
label_of domain = etld_plus_one_label (strip (codes ".") (lower domain))

-- The label of a domain is there, is no brand's, and one of the three rules fits it.
pub record IsFlagged (labels : Labels) (label : Text) : Type 0 where
  pub present : label ≢ []
  pub foreign : lookup label labels ≡ none
  pub shown : TyposquatHit
  pub why : Suspicious labels label shown

IsFlagged-to :
    (first second : Bool) (labels : Labels) (label : Text)
    → is_some (check_label first second labels label) ≡ true
    → IsFlagged labels label
IsFlagged-to first second labels label h =
    elim (Option-cases (check_label first second labels label)) [
      | inl e ↦ absurd (false≢true (rw e at h))
      | inr (shown, e) ↦
          let (foreign, why) = check_label_sound first second labels label e in
          record { present = not_empty label e; foreign = foreign; shown = shown; why = why }
    ]
  where
    not_empty : (t : Text) {s : TyposquatHit} → check_label first second labels t ≡ some s → t ≢ []
    not_empty [] e p = unfold check_label in cc e
    not_empty (x ∷ xs) e p = cc p

IsFlagged-from :
    (first second : Bool) (labels : Labels) (label : Text)
    → IsFlagged labels label
    → is_some (check_label first second labels label) ≡ true
IsFlagged-from first second labels [] f = absurd (f.present refl)
IsFlagged-from first second labels (x ∷ xs) f =
    check_label_complete first second labels x xs f.foreign f.why

-- For every brand map, every domain and every order in which the two sets are walked: the
-- detector reports the domain exactly when its label, that of the lowered domain without dots at
-- its ends, is not empty, is the label of no brand, and one of the three rules fits it.
pub check_iff :
    (first second : Bool) (items : List Anchor) (domain : Text)
    → (is_some (check first second items domain) ≡ true)
      ↔ IsFlagged (brand_labels items) (label_of domain)
unfolding check
check_iff first second items domain = (
  IsFlagged-to first second (brand_labels items) (label_of domain),
  IsFlagged-from first second (brand_labels items) (label_of domain),
)

-- No domain whose label is the label of a brand of the map is reported.
check-eq-none_of_brand :
    (first second : Bool) (items : List Anchor) (a : Anchor) (domain : Text)
    → In a items
    → label_of domain ≡ etld_plus_one_label a.canonical
    → check first second items domain ≡ none
check-eq-none_of_brand first second items a domain m e =
    elim (Option-cases (check first second items domain)) [
      | inl p ↦ p
      | inr (h, p) ↦
          let f = (check_iff first second items domain).0 (rw p) in
          absurd (
            false≢true (
              cc (
                listed-brand_labels items a m,
                f.foreign,
                ap (λ t. is_some (lookup t (brand_labels items))) e,
              )))
    ]
