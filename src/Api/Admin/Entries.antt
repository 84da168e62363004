-- ===== src/Api/Admin/Entries.antt =====
-- api/routers/admin.py: what a validated `DomainEntry` looks like.
use scamlens.Base.{
  ℕ, true, false, not, ◌==◌, ◌≡◌, ◌||◌, ◌≤◌, refl, arith, Text, [], ◌∷◌, none, some, has_char,
  lower, strip, rstrip, white, length, ltb, codes, if◌then◌else◌, Bool-cases, inl, inr, subst,
  some_inj,
}
use scamlens.Api.Admin.{before, drop_prefix, norm}

has_char-before : (c : ℕ) (s : Text) → has_char c (before c s) ≡ false
unfolding has_char before
has_char-before c [] = refl
has_char-before c (x ∷ s) = ground (arith, has_char-before c s)

has_char-before_le : (j c : ℕ) (s : Text) → has_char j s ≡ false → has_char j (before c s) ≡ false
unfolding has_char before
has_char-before_le j c [] h = refl
has_char-before_le j c (x ∷ s) h = elim (Bool-cases (x == c)) [
  | inl e ↦ rw e refl
  | inr e ↦ elim (Bool-cases (j == x)) [
    | inl f ↦ ground (arith, f, h)
    | inr f ↦ ground (arith, e, f, h, has_char-before_le j c s (ground (arith, f, h)))
  ]
]

accepted-facts :
    (x d : Text)
    → (if not (has_char 46 (before 63 (before 47 x))) || has_char 32 (before 63 (before 47 x))
        then none
        else some (before 63 (before 47 x)))
      ≡ some d
    → (has_char 46 d ≡ true)
      × ((has_char 47 d ≡ false) × ((has_char 63 d ≡ false) × (has_char 32 d ≡ false)))
accepted-facts x d h =
    let slash = has_char-before_le 47 63 (before 47 x) (has_char-before 47 x) in
    let mark = has_char-before 63 (before 47 x) in
    elim (Bool-cases
      (not (has_char 46 (before 63 (before 47 x))) || has_char 32 (before 63 (before 47 x)))) [
        | inl e ↦ let impossible = rw e at h in cc
        | inr e ↦
            let same_text = some_inj (rw e at h) in
            subst
              (λ u.
                (has_char 46 u ≡ true)
                × ((has_char 47 u ≡ false) × ((has_char 63 u ≡ false) × (has_char 32 u ≡ false))))
              same_text (ground (arith, e), (slash, (mark, ground (arith, e))))
      ]

-- An accepted domain has a dot and no slash, question mark or space, and its entry was 3 to 253
-- characters long.
norm-IsClean :
    (v d : Text)
    → norm v ≡ some d
    → (3 ≤ length v)
      × ((length v ≤ 253)
          × ((has_char 46 d ≡ true)
              × ((has_char 47 d ≡ false) × ((has_char 63 d ≡ false) × (has_char 32 d ≡ false)))))
unfolding norm
norm-IsClean v d h = elim (Bool-cases (ltb (length v) 3 || ltb 253 (length v))) [
  | inl e ↦ let impossible = rw e at h in cc
  | inr e ↦ (
    ground (arith, e),
    (
      ground (arith, e),
      accepted-facts
          (drop_prefix (codes "http://")
            (drop_prefix (codes "https://") (rstrip (codes ".") (lower (strip white v)))))
          d (rw e at h),
    ),
  )
]
