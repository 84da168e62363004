-- ===== src/Dns/Typosquat/Detector/Sound.antt =====
-- Why the detector reports a label.
use scamlens.Base.{
  ℕ, Bool, ◌≡◌, ◌≢◌, ◌≤◌, refl, arith, Text, List, [], ◌∷◌, Option, none, some, length, ltb, same,
  same_iff, some_inj, In, Bool-cases, Option-cases, inl, inr, ◌⊎◌, subst, sym, ◌∙◌,
}
use mathlib.Core.Bool.{false≢true}
use scamlens.Dns.Typosquat.Boundary.{contains_at_boundary}
use scamlens.Dns.Typosquat.Boundary.Tokens.{IsToken, contains_at_boundary_iff}
use scamlens.Dns.Typosquat.Labels.{normalize}
use scamlens.Dns.Typosquat.Detector.{
  TyposquatHit, Anchor, Labels, lookup, both_forms, near, first_near, hit, homoglyph_reason,
  distance_reason, token_reason, by_distance, token_in, by_token, by_homoglyph, or_else,
  check_label,
}
use scamlens.Dns.Typosquat.Detector.Brands.{IsMisspelling, near_sound}

-- The candidate is the label or its normal form.
abbrev pub IsForm : Text → Text → Type 0
IsForm label c = (c ≡ label) ⊎ (c ≡ normalize label)

-- The three rules, each with what the hit then says.
pub data Suspicious (labels : Labels) (label : Text) : TyposquatHit → Type 0 where
  homoglyph :
      (a : Anchor)
      → normalize label ≢ label
      → lookup (normalize label) labels ≡ some a
      → Suspicious labels label (hit a (homoglyph_reason a label (normalize label)) 0)
  misspelling :
      (c l : Text) (a : Anchor) (d : ℕ)
      → IsForm label c
      → In (l, a) labels
      → IsMisspelling c l d
      → Suspicious labels label (hit a (distance_reason a d) d)
  token :
      (c l : Text) (a : Anchor)
      → IsForm label c
      → In (l, a) labels
      → 5 ≤ length l
      → c ≢ l
      → IsToken l c
      → Suspicious labels label (hit a (token_reason a) 0)

first_near_sound :
    (cs : List Text) (l : Text) {d : ℕ}
    → first_near cs l ≡ some d
    → (c : Text) × In c cs × IsMisspelling c l d
unfolding first_near
first_near_sound [] l h = cc
first_near_sound (c ∷ cs) l {d} h = elim (Option-cases (near c l)) [
  | inl e ↦ let (c', m, p) = first_near_sound cs l (rw (e, first_near) at h) in (c', inr m, p)
  | inr (n, e) ↦
      let same_d : some n ≡ some d = rw (e, first_near) at h in
      (c, inl refl, near_sound c l (e ∙ same_d))
]

by_distance_sound :
    (cs : List Text) (labels : Labels) {h : TyposquatHit}
    → by_distance cs labels ≡ some h
    → (c l : Text) × (a : Anchor) × (d : ℕ) × In c cs
      × In (l, a) labels
      × IsMisspelling c l d
      × (hit a (distance_reason a d) d ≡ h)
unfolding by_distance
by_distance_sound cs [] h = cc
by_distance_sound cs ((l, a) ∷ labels) {h} e = elim (Option-cases (first_near cs l)) [
  | inl none_near ↦
      let (c, l', a', d, m, n, p, q) =
        by_distance_sound cs labels (rw (none_near, by_distance) at e) in
      (c, l', a', d, m, inr n, p, q)
  | inr (d, found) ↦
      let (c, m, p) = first_near_sound cs l found in
      (c, l, a, d, m, inl refl, p, some_inj (rw (found, by_distance) at e))
]

token_in_sound :
    (c : Text) (labels : Labels) {h : TyposquatHit}
    → token_in c labels ≡ some h
    → (l : Text) × (a : Anchor) × In (l, a) labels
      × (5 ≤ length l)
      × (c ≢ l)
      × IsToken l c
      × (hit a (token_reason a) 0 ≡ h)
unfolding token_in
token_in_sound c [] e = cc
token_in_sound c ((l, a) ∷ labels) {h} e = elim (Bool-cases (ltb (length l) 5)) [
  | inl short ↦
      let (l', a', m, p, q, r, s) = token_in_sound c labels (rw short at e) in
      (l', a', inr m, p, q, r, s)
  | inr long ↦ elim (Bool-cases (contains_at_boundary c l)) [
    | inl inside ↦
        let (q, r) = (contains_at_boundary_iff c l).0 inside in
        (l, a, inl refl, ground arith, q, r, some_inj (rw (long, inside) at e))
    | inr outside ↦
        let (l', a', m, p, q, r, s) = token_in_sound c labels (rw (long, outside) at e) in
        (l', a', inr m, p, q, r, s)
  ]
]

by_token_sound :
    (cs : List Text) (labels : Labels) {h : TyposquatHit}
    → by_token cs labels ≡ some h
    → (c : Text) × In c cs × (token_in c labels ≡ some h)
unfolding by_token
by_token_sound [] labels e = cc
by_token_sound (c ∷ cs) labels e = elim (Option-cases (token_in c labels)) [
  | inl missing ↦
      let (c', m, p) = by_token_sound cs labels (rw (missing, by_token) at e) in (c', inr m, p)
  | inr (h, found) ↦ (c, inl refl, found ∙ (rw (found, by_token) at e))
]

forms : (b : Bool) (label c : Text) → In c (both_forms b label (normalize label)) → IsForm label c
unfolding both_forms
forms b label c m = ground arith

by_homoglyph_sound :
    (label : Text) (labels : Labels) {h : TyposquatHit}
    → by_homoglyph label (normalize label) labels ≡ some h
    → Suspicious labels label h
unfolding by_homoglyph
by_homoglyph_sound label labels e = elim (Bool-cases (same (normalize label) label)) [
  | inl equal ↦ cc (rw equal at e)
  | inr other ↦ elim (Option-cases (lookup (normalize label) labels)) [
    | inl missing ↦ cc (rw (missing, by_homoglyph) at (rw other at e))
    | inr (a, found) ↦
        subst (Suspicious labels label) (some_inj (rw (other, found, by_homoglyph) at e))
          (homoglyph a (λ q. absurd (false≢true (sym other ∙ (same_iff _ _).1 q))) found)
  ]
]

or_else-cases :
    (p q : Option TyposquatHit) {h : TyposquatHit}
    → or_else p q ≡ some h
    → (p ≡ some h) ⊎ (q ≡ some h)
unfolding or_else
or_else-cases none q e = inr e
or_else-cases (some g) q e = inl e

-- Whatever the order in which the sets are walked: a hit of the detector is for a label that is
-- no brand's own, and it is one of the three kinds, with the brand, its canonical domain, the
-- reason and the distance of that kind: the normal form is the brand's label and the distance is
-- 0; or the label or its normal form is a misspelling of the brand's label, the distance is the
-- least number of edits, and it is from 1 to 2, or 1 for a brand label of less than 7 characters;
-- or the brand's label, of 5 characters at least, is a token of the label or of its normal form.
pub check_label_sound :
    (first second : Bool) (labels : Labels) (label : Text) {h : TyposquatHit}
    → check_label first second labels label ≡ some h
    → (lookup label labels ≡ none) × Suspicious labels label h
unfolding check_label
check_label_sound first second labels [] e = cc
check_label_sound first second labels (x ∷ xs) {h} e =
    let label = x ∷ xs in
    elim (Option-cases (lookup label labels)) [
      | inr (a, own) ↦ cc (rw own at e)
      | inl foreign ↦ (
        foreign,
        elim (or_else-cases _ _ (rw foreign at e)) [
          | inl p ↦ by_homoglyph_sound label labels p
          | inr r ↦ elim (or_else-cases _ _ r) [
            | inl p ↦
                let (c, l, a, d, m, n, q, s) = by_distance_sound _ labels p in
                subst (Suspicious labels label) s (misspelling c l a d (forms first label c m) n q)
            | inr p ↦
                let (c, m, q) = by_token_sound _ labels p in
                let (l, a, n, long, ne, t, s) = token_in_sound c labels q in
                subst (Suspicious labels label) s (token c l a (forms second label c m) n long ne t)
          ]
        ],
      )
    ]
