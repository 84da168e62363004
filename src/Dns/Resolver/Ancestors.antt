-- ===== src/Dns/Resolver/Ancestors.antt =====
-- dns_server/resolver.py: what `_parent_chain` yields and `_match_chain` finds.
use scamlens.Base.{
  ℕ, true, false, ◌≡◌, ◌↔◌, ◌⊎◌, inl, inr, refl, arith, Text, List, [], ◌∷◌, ◌++◌, ◌==◌, elem,
  has_char, split, join, codes, if◌then◌else◌, Bool-cases, ap, sym, In, split-ne-nil, join-split,
  ==_iff, subst,
}
use scamlens.Dns.Resolver.{chain_of, parent_chain, any_in, match_chain}

-- The texts behind a dot that have a dot themselves.
above : Text → List Text
above [] = []
above (c ∷ s) =
    let rest = above s in if c == b'.' then (if has_char b'.' s then s ∷ rest else rest) else rest

above-nil : (s : Text) → has_char b'.' s ≡ false → above s ≡ []
unfolding above has_char
above-nil [] h = refl
above-nil (c ∷ s) h = ground (arith, above-nil s)

abbrev shown : Text → List Text
shown s = if has_char b'.' s then s ∷ above s else []

-- The first part of a chain changes with the first character.
chain_of-cons :
    (c : ℕ) (p : Text) (ps : List Text) (s : Text)
    → join (codes ".") (p ∷ ps) ≡ s
    → chain_of (p ∷ ps) ≡ shown s
    → c == b'.' ≡ false
    → chain_of ((c ∷ p) ∷ ps) ≡ shown (c ∷ s)
unfolding chain_of above has_char join
chain_of-cons c p [] s j h e = ground arith
chain_of-cons c p (q ∷ qs) s j h e = ground arith

above-dot : (s : Text) → above (b'.' ∷ s) ≡ shown s
unfolding above
above-dot s = ground (arith, above-nil s)

chain_of-dot :
    (p : Text) (ps : List Text) (s : Text)
    → join (codes ".") (p ∷ ps) ≡ s
    → chain_of (p ∷ ps) ≡ shown s
    → chain_of ([] ∷ p ∷ ps) ≡ shown (b'.' ∷ s)
unfolding chain_of has_char join
chain_of-dot p ps s j h = cc (j, h, above-dot s)

parent_chain-shown : (x : Text) → parent_chain x ≡ shown x
unfolding parent_chain split has_char chain_of
parent_chain-shown [] = refl
parent_chain-shown (c ∷ s) =
    let (p, ps, e) = split-ne-nil b'.' s in
    let joined : join (codes ".") (p ∷ ps) ≡ s = rw (← e) (join-split b'.' s) in
    let ih : chain_of (p ∷ ps) ≡ shown s = rw (← e) (parent_chain-shown s) in
    elim (Bool-cases (c == b'.')) [
      | inl dot ↦ rw (dot, e) (rw ((==_iff _ _).0 dot) (chain_of-dot p ps s joined ih))
      | inr other ↦ rw (other, e) (chain_of-cons c p ps s joined ih other)
    ]

abbrev Above : Text → Text → Type 0
Above d x = (before : Text) × (x ≡ before ++ (b'.' ∷ d)) × (has_char b'.' d ≡ true)

Above-cons : (c : ℕ) (d s : Text) → Above d s → Above d (c ∷ s)
Above-cons c d s (before, e, h) = (c ∷ before, ap (◌∷◌ c) e, h)

here_or_above :
    (c : ℕ) (d s : Text)
    → c ≡ b'.'
    → has_char b'.' s ≡ true
    → (In d (above s) → Above d s)
    → In d (s ∷ above s)
    → Above d (c ∷ s)
here_or_above c d s dot more f (inl e) = ([], cc, rw e more)
here_or_above c d s dot more f (inr m) = Above-cons c d s (f m)

In-above : (d x : Text) → In d (above x) → Above d x
unfolding above
In-above d [] m = absurd m
In-above d (c ∷ s) m = elim (Bool-cases (c == b'.')) [
  | inr other ↦ Above-cons c d s (In-above d s (rw other at m))
  | inl dot ↦ elim (Bool-cases (has_char b'.' s)) [
    | inr last ↦ Above-cons c d s (In-above d s (rw (dot, last) at m))
    | inl more ↦ here_or_above c d s ((==_iff _ _).0 dot) more (In-above d s) (rw (dot, more) at m)
  ]
]

above-In : (before d : Text) → has_char b'.' d ≡ true → In d (above (before ++ (b'.' ∷ d)))
unfolding above
above-In [] d h = rw h (inl refl)
above-In (c ∷ before) d h =
    let m = above-In before d h in
    let rest = before ++ (b'.' ∷ d) in
    elim (Bool-cases (c == b'.')) [
      | inr other ↦ rw other m
      | inl dot ↦ rw dot (elim (Bool-cases (has_char b'.' rest)) [
        | inl more ↦ rw more (inr m)
        | inr last ↦ rw last m
      ])
    ]

has_char-above : (before d : Text) → has_char b'.' (before ++ (b'.' ∷ d)) ≡ true
unfolding has_char
has_char-above [] d = refl
has_char-above (c ∷ before) d = ground (arith, has_char-above before d)

-- The name itself, or what stands behind one of its dots, if that has a dot.
pub record IsAncestor (d x : Text) : Type 0 where
  pub dotted : has_char b'.' d ≡ true
  pub place : (d ≡ x) ⊎ ((before : Text) × (x ≡ before ++ (b'.' ∷ d)))

chain_to : (d x : Text) → In d (shown x) → IsAncestor d x
chain_to d x m = elim (Bool-cases (has_char b'.' x)) [
  | inr none_left ↦ absurd (rw none_left at m)
  | inl dotted ↦ pick dotted (rw dotted at m)
]
  where
    pick : has_char b'.' x ≡ true → In d (x ∷ above x) → IsAncestor d x
    pick h (inl e) = record { dotted = rw e h; place = inl e }
    pick h (inr m) =
        let (before, e, k) = In-above d x m in record { dotted = k; place = inr (before, e) }

chain_from : (d x : Text) → IsAncestor d x → In d (shown x)
chain_from d x a = go a.dotted a.place
  where
    go :
        has_char b'.' d ≡ true
        → ((d ≡ x) ⊎ ((before : Text) × (x ≡ before ++ (b'.' ∷ d))))
        → In d (shown x)
    go h (inl e) = rw (← e) (rw h (inl refl))
    go h (inr (before, e)) = rw e (rw (has_char-above before d) (inr (above-In before d h)))

-- The chain of a name has the name and what stands behind each of its dots, where that has a dot.
pub parent_chain_iff : (d x : Text) → In d (parent_chain x) ↔ IsAncestor d x
parent_chain_iff d x = (
  λ m. chain_to d x (subst (In d) (parent_chain-shown x) m),
  λ a. subst (In d) (sym (parent_chain-shown x)) (chain_from d x a),
)

any_in_to : (cs set : List Text) → any_in cs set ≡ true → (d : Text) × In d cs × (elem d set ≡ true)
unfolding any_in
any_in_to [] set h = cc
any_in_to (c ∷ cs) set h = elim (Bool-cases (elem c set)) [
  | inl e ↦ (c, inl refl, e)
  | inr e ↦ let (d, m, k) = any_in_to cs set (rw e at h) in (d, inr m, k)
]

any_in_from : (cs set : List Text) (d : Text) → In d cs → elem d set ≡ true → any_in cs set ≡ true
unfolding any_in
any_in_from (c ∷ cs) set d (inl e) h =
    let here : elem c set ≡ true = subst (λ t. elem t set ≡ true) e h in rw here
any_in_from (c ∷ cs) set d (inr m) h = ground (arith, any_in_from cs set d m h)
any_in_from [] set d m h = absurd m

-- For every name and every set: `_match_chain` answers true exactly when the set has a text with a
-- dot that is the name itself or what stands behind a dot of the name.
pub match_chain_iff :
    (x : Text) (set : List Text)
    → (match_chain x set ≡ true) ↔ ((d : Text) × (elem d set ≡ true) × IsAncestor d x)
unfolding match_chain
match_chain_iff x set = (
  λ h. let (d, m, k) = any_in_to (parent_chain x) set h in (d, k, (parent_chain_iff d x).0 m),
  λ (d, k, a). any_in_from (parent_chain x) set d ((parent_chain_iff d x).1 a) k,
)
