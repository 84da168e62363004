-- ===== src/Dns/Typosquat/Boundary/Tokens.antt =====
-- When a brand is a token of a label.
use mathlib.Core.Bool.{false≢true}
use scamlens.Base.{
  ℕ, zero, suc, ◌+◌, ◌-◌, ◌≤◌, ◌<◌, Bool, true, false, ◌&&◌, ◌||◌, Text, [], ◌∷◌, ◌++◌, Option,
  none, some, length, drop, take, ltb, ◌==◌, ◌≡◌, ◌≢◌, ◌↔◌, refl, ap, sym, ◌∙◌, subst, same,
  same_iff, has_char, starts_with, arith, ==_iff, Bool-cases, Option-cases, inl, inr, ltb→lt,
  append_assoc, take-append-drop, drop-append_length, length-append,
}
use scamlens.Dns.Typosquat.Boundary.{
  suc?, plus?, find, find_from, at_separator, left_ok, right_ok, search_from, contains_at_boundary,
}

starts_with-append : (p r : Text) → starts_with p (p ++ r) ≡ true
unfolding starts_with
starts_with-append [] r = refl
starts_with-append (x ∷ p) r = ground (arith, starts_with-append p r)

starts_with-drop : (p s : Text) → starts_with p s ≡ true → s ≡ p ++ drop (length p) s
unfolding starts_with
starts_with-drop [] s h = refl
starts_with-drop (x ∷ p) [] h = cc
starts_with-drop (x ∷ p) (y ∷ s) h = ground (arith, starts_with-drop p s)

drop-nil : (i : ℕ) → drop {A = ℕ} i [] ≡ []
drop-nil zero = refl
drop-nil (suc i) = refl

drop-drop : (i j : ℕ) (s : Text) → drop j (drop i s) ≡ drop (i + j) s
drop-drop zero j s = ap (λ k. drop k s) (omega arith)
drop-drop (suc i) j [] = drop-nil j ∙ sym (drop-nil (suc i + j))
drop-drop (suc i) j (x ∷ s) =
    let e : suc (i + j) ≡ suc i + j = omega arith in drop-drop i j s ∙ ap (λ k. drop k (x ∷ s)) e

-- What `find` says of each place.
abbrev FindSpec : Text → Text → Option ℕ → Type 0
FindSpec p s none = (j : ℕ) → j ≤ length s → starts_with p (drop j s) ≡ false
FindSpec p s (some i) =
    (starts_with p (drop i s) ≡ true)
    × (i ≤ length s)
    × ((j : ℕ) → j < i → starts_with p (drop j s) ≡ false)

FindSpec-suc :
    (p : Text) (x : ℕ) (s : Text) (r : Option ℕ)
    → starts_with p (x ∷ s) ≡ false
    → FindSpec p s r
    → FindSpec p (x ∷ s) (suc? r)
FindSpec-suc p x s none e h = all
  where
    all : (j : ℕ) → j ≤ suc (length s) → starts_with p (drop j (x ∷ s)) ≡ false
    all zero k = e
    all (suc j) k = h j (omega arith)
FindSpec-suc p x s (some i) e h = (h.0, omega (arith, h.1), below)
  where
    below : (j : ℕ) → j < suc i → starts_with p (drop j (x ∷ s)) ≡ false
    below zero k = e
    below (suc j) k = h.2 j (omega arith)

FindSpec-find : (p s : Text) → FindSpec p s (find p s)
unfolding find
FindSpec-find p [] = elim (Bool-cases (starts_with p [])) [
  | inl e ↦ rw e (e, omega arith, λ j h. absurd (omega arith))
  | inr e ↦ rw e (λ j h. rw (drop-nil j) e)
]
FindSpec-find p (x ∷ s) = elim (Bool-cases (starts_with p (x ∷ s))) [
  | inl e ↦ rw e (e, omega arith, λ j h. absurd (omega arith))
  | inr e ↦ rw e (FindSpec-suc p x s (find p s) e (FindSpec-find p s))
]

-- The same of a search that starts at `idx`.
abbrev FromSpec : Text → Text → ℕ → Option ℕ → Type 0
FromSpec label brand idx none =
    (j : ℕ) → idx ≤ j → j ≤ length label → starts_with brand (drop j label) ≡ false
FromSpec label brand idx (some i) =
    (starts_with brand (drop i label) ≡ true)
    × (idx ≤ i)
    × (i ≤ length label)
    × ((j : ℕ) → idx ≤ j → j < i → starts_with brand (drop j label) ≡ false)

at_offset :
    (label brand : Text) (idx j : ℕ)
    → idx ≤ j
    → starts_with brand (drop (j - idx) (drop idx label)) ≡ false
    → starts_with brand (drop j label) ≡ false
at_offset label brand idx j h e =
    let sum : idx + (j - idx) ≡ j = omega arith in
    subst (λ k. starts_with brand (drop k label) ≡ false) sum
      (subst (λ t. starts_with brand t ≡ false) (drop-drop idx (j - idx) label) e)

length-drop : (i : ℕ) (s : Text) → length (drop i s) ≡ length s - i
length-drop zero s = omega arith
length-drop (suc i) [] = omega arith
length-drop (suc i) (x ∷ s) = omega (arith, length-drop i s)

FromSpec-plus :
    (label brand : Text) (idx : ℕ) (r : Option ℕ)
    → idx ≤ length label
    → FindSpec brand (drop idx label) r
    → FromSpec label brand idx (plus? idx r)
FromSpec-plus label brand idx none b h =
    λ j p q. at_offset label brand idx j p (h (j - idx) (omega (arith, length-drop idx label)))
FromSpec-plus label brand idx (some i) b h = (
  subst (λ t. starts_with brand t ≡ true) (drop-drop idx i label) h.0,
  omega arith,
  omega (arith, h.1, length-drop idx label),
  λ j p q. at_offset label brand idx j p (h.2 (j - idx) (omega arith)),
)

FromSpec-find_from :
    (label brand : Text) (idx : ℕ) → FromSpec label brand idx (find_from label brand idx)
unfolding find_from
FromSpec-find_from label brand idx = elim (Bool-cases (ltb (length label) idx)) [
  | inl e ↦ rw e (λ j p q. absurd (omega (arith, ltb→lt _ _ e)))
  | inr e ↦
      rw e (FromSpec-plus label brand idx _ (ground arith) (FindSpec-find brand (drop idx label)))
]

-- The place `i` of the label holds the brand between boundaries.
abbrev TokenAt : Text → Text → ℕ → Type 0
TokenAt label brand i =
    (starts_with brand (drop i label) ≡ true)
    × (left_ok label i ≡ true)
    × (right_ok label (i + length brand) ≡ true)
    × (i ≤ length label)

found :
    (label brand : Text) (idx : ℕ) {i : ℕ}
    → find_from label brand idx ≡ some i
    → FromSpec label brand idx (some i)
found label brand idx e = subst (FromSpec label brand idx) e (FromSpec-find_from label brand idx)

search_from_sound :
    (fuel : ℕ) (label brand : Text) (idx : ℕ)
    → search_from fuel label brand idx ≡ true
    → (i : ℕ) × TokenAt label brand i
unfolding search_from
search_from_sound zero label brand idx h = cc
search_from_sound (suc fuel) label brand idx h = elim (Option-cases (find_from label brand idx)) [
  | inl e ↦ absurd (false≢true (rw (e, search_from) at h))
  | inr (i, e) ↦ elim (Bool-cases (left_ok label i && right_ok label (i + length brand))) [
    | inl good ↦
        (i, ((found label brand idx e).0, ground arith, ground arith, (found label brand idx e).2))
    | inr bad ↦ search_from_sound fuel label brand (i + 1) (rw (e, bad, search_from) at h)
  ]
]

-- A token is not before the first place that the search finds, nor at a place that fails.
later :
    (label brand : Text) (idx i j : ℕ)
    → TokenAt label brand i
    → idx ≤ i
    → FromSpec label brand idx (some j)
    → (left_ok label j && right_ok label (j + length brand)) ≡ false
    → j + 1 ≤ i
later label brand idx i j t le f bad = elim (Bool-cases (ltb i j)) [
  | inl before ↦ absurd (false≢true (sym (f.3 i le (ltb→lt _ _ before)) ∙ t.0))
  | inr after ↦ elim (Bool-cases (i == j)) [
    | inl here ↦
        let e : i ≡ j = (==_iff i j).0 here in
        let l : left_ok label j ≡ true = subst (λ k. left_ok label k ≡ true) e t.1 in
        let r : right_ok label (j + length brand) ≡ true =
          subst (λ k. right_ok label (k + length brand) ≡ true) e t.2 in
        absurd (false≢true (ground (arith, l, r, bad)))
    | inr other ↦ ground (arith, after, other)
  ]
]

search_from_complete :
    (fuel : ℕ) (label brand : Text) (idx i : ℕ)
    → length label + 1 < fuel + idx
    → idx ≤ i
    → TokenAt label brand i
    → search_from fuel label brand idx ≡ true
unfolding search_from
search_from_complete zero label brand idx i enough le t = absurd (omega arith)
search_from_complete (suc fuel) label brand idx i enough le t =
    elim (Option-cases (find_from label brand idx)) [
      | inl e ↦
          let missing : FromSpec label brand idx none =
            subst (FromSpec label brand idx) e (FromSpec-find_from label brand idx) in
          absurd (false≢true (sym (missing i le t.3) ∙ t.0))
      | inr (j, e) ↦ elim (Bool-cases (left_ok label j && right_ok label (j + length brand))) [
        | inl good ↦ rw (e, search_from) (rw good refl)
        | inr bad ↦
            rw (e, search_from)
              (rw bad (
                search_from_complete fuel label brand (j + 1) i
                  (omega (arith, (found label brand idx e).1))
                  (later label brand idx i j t le (found label brand idx e) bad) t))
      ]
    ]

abbrev pub is_separator : ℕ → Bool
is_separator c = c == b'-' || c == b'_'

abbrev pub starts_open : Text → Bool
starts_open [] = true
starts_open (c ∷ s) = is_separator c

abbrev pub ends_open : Text → Bool
ends_open [] = true
ends_open (c ∷ []) = is_separator c
ends_open (c ∷ d ∷ s) = ends_open (d ∷ s)

-- The label is the brand between two texts that are empty or have a separator at the brand.
pub record IsToken (brand label : Text) : Type 0 where
  pub before : Text
  pub after : Text
  pub split : label ≡ before ++ (brand ++ after)
  pub open_left : ends_open before ≡ true
  pub open_right : starts_open after ≡ true

left_ok-cons : (c n : ℕ) (s : Text) → left_ok (c ∷ s) (suc (suc n)) ≡ left_ok s (suc n)
unfolding left_ok at_separator
left_ok-cons c n s =
    let e : suc (suc n) - 1 ≡ suc n = omega arith in
    let f : suc n - 1 ≡ n = omega arith in rw (e, f) (ground arith)

left-open : (before rest : Text) → left_ok (before ++ rest) (length before) ≡ ends_open before
unfolding left_ok at_separator has_char
left-open [] rest = refl
left-open (c ∷ []) rest = ground arith
left-open (c ∷ d ∷ s) rest = left_ok-cons c (length s) (d ∷ (s ++ rest)) ∙ left-open (d ∷ s) rest

right_ok-cons : (c n : ℕ) (s : Text) → right_ok (c ∷ s) (suc n) ≡ right_ok s n
unfolding right_ok at_separator
right_ok-cons c n s = ground arith

right-open : (s after : Text) → right_ok (s ++ after) (length s) ≡ starts_open after
unfolding right_ok at_separator has_char
right-open [] [] = refl
right-open [] (c ∷ after) = ground arith
right-open (c ∷ s) after = right_ok-cons c (length s) (s ++ after) ∙ right-open s after

places :
    (label brand before after : Text)
    → label ≡ before ++ (brand ++ after)
    → (left_ok label (length before) ≡ ends_open before)
      × (right_ok label (length before + length brand) ≡ starts_open after)
places label brand before after e = (
  rw e (left-open before (brand ++ after)),
  rw (e, ← append_assoc before brand after, ← length-append before brand)
      (right-open (before ++ brand) after),
)

length-take : (i : ℕ) (s : Text) → i ≤ length s → length (take i s) ≡ i
length-take zero s h = refl
length-take (suc i) [] h = absurd (omega arith)
length-take (suc i) (x ∷ s) h = omega (arith, length-take i s (omega arith))

-- The place of a token, and the token at a place.
IsToken-place : (label brand : Text) → IsToken brand label → (i : ℕ) × TokenAt label brand i
IsToken-place label brand t =
    let p = places label brand t.before t.after t.split in
    (
      length t.before,
      (
        rw t.split (
            rw (drop-append_length t.before (brand ++ t.after)) (starts_with-append brand t.after)),
        p.0 ∙ t.open_left,
        p.1 ∙ t.open_right,
        rw t.split (omega (arith, length-append t.before (brand ++ t.after))),
      ),
    )

place-IsToken : (label brand : Text) (i : ℕ) → TokenAt label brand i → IsToken brand label
place-IsToken label brand i t =
    let before = take i label in
    let after = drop (length brand) (drop i label) in
    let parts : label ≡ before ++ (brand ++ after) =
      sym (take-append-drop i label)
      ∙ ap (λ u. take i label ++ u) (starts_with-drop brand (drop i label) t.0) in
    let p = places label brand before after parts in
    let e : length before ≡ i = length-take i label t.3 in
    record {
      before = before;
      after = after;
      split = parts;
      open_left = sym p.0 ∙ subst (λ k. left_ok label k ≡ true) (sym e) t.1;
      open_right = sym p.1 ∙ subst (λ k. right_ok label (k + length brand) ≡ true) (sym e) t.2;
    }

-- For every label and brand: `_contains_at_boundary` answers true exactly when the label is not
-- the brand and is the brand with something before or after it, where what stands before is
-- empty or ends with '-' or '_', and what stands after is empty or begins with one of them.
pub contains_at_boundary_iff :
    (label brand : Text)
    → (contains_at_boundary label brand ≡ true) ↔ ((label ≢ brand) × IsToken brand label)
unfolding contains_at_boundary
contains_at_boundary_iff label brand = elim (Bool-cases (same label brand)) [
  | inl e ↦ (λ h. absurd (false≢true (rw e at h)), λ h. absurd (h.0 ((same_iff label brand).0 e)))
  | inr e ↦ (
    λ h. (
      λ q. absurd (false≢true (sym e ∙ (same_iff label brand).1 q)),
      let (i, t) = search_from_sound (length label + 2) label brand 0 (rw e at h) in
          place-IsToken label brand i t,
    ),
    λ h.
        let (i, t) = IsToken-place label brand h.1 in
        rw e
          (search_from_complete (length label + 2) label brand 0 i (omega arith) (omega arith) t),
  )
]
