-- ===== src/Base/Strings.antt =====
-- Python's `str` as the list of its code points, and the methods of `str` that the program calls.
use Prim.Native.Char.{code}
use Prim.Native.Nat.{ℕ, zero, suc, ◌+◌, ◌/◌, ◌%◌}
use Prim.Native.String.{String}
use mathlib.Core.Path.{◌≡◌, refl, subst, ◌∙◌}
use mathlib.Core.Logic.{◌↔◌}
use mathlib.Core.Bool.{Bool, true, false, ◌&&◌, ◌||◌}
use mathlib.Core.List.{List, [], ◌∷◌, ◌++◌, map, reverse}
use native.Mathlib.Omega.{arith}
use scamlens.Base.Tests.{leb, ◌==◌, if◌then◌else◌}

abbrev pub Text : Type 0
Text = List ℕ

-- A text literal.
abbrev pub codes : String → Text
codes String.[] = []
codes (String.◌∷◌ c s) = code c ∷ codes s

-- `s == t`
unfoldable pub same : Text → Text → Bool
same [] [] = true
same [] (y ∷ t) = false
same (x ∷ s) [] = false
same (x ∷ s) (y ∷ t) = x == y && same s t

pub same_refl : (s : Text) → same s s ≡ true
unfolding same
same_refl [] = refl
same_refl (x ∷ s) = ground (arith, same_refl s)

eq_of_same : (s t : Text) → same s t ≡ true → s ≡ t
unfolding same
eq_of_same [] [] h = refl
eq_of_same [] (y ∷ t) h = cc
eq_of_same (x ∷ s) [] h = cc
eq_of_same (x ∷ s) (y ∷ t) h = ground (arith, eq_of_same s t)

pub same_iff : (s t : Text) → (same s t ≡ true) ↔ (s ≡ t)
same_iff s t = (eq_of_same s t, λ e. subst (λ u. same s u ≡ true) e (same_refl s))

-- `s in (…)`, `s in {…}`
unfoldable pub elem : Text → List Text → Bool
elem s [] = false
elem s (t ∷ ts) = same s t || elem s ts

-- `c in "…"` for one character
unfoldable pub has_char : ℕ → Text → Bool
has_char c [] = false
has_char c (x ∷ s) = c == x || has_char c s

-- `s.startswith(p)`
unfoldable pub starts_with : Text → Text → Bool
starts_with [] s = true
starts_with (x ∷ p) [] = false
starts_with (x ∷ p) (y ∷ s) = x == y && starts_with p s

-- `s.endswith(p)`
unfoldable pub ends_with : Text → Text → Bool
unfolding starts_with
ends_with p s = starts_with (reverse p) (reverse s)

-- `p in s`
unfoldable pub contains : Text → Text → Bool
unfolding starts_with
contains p [] = starts_with p []
contains p (x ∷ s) = starts_with p (x ∷ s) || contains p s

-- `s.lower()` on ASCII letters; the program lowers host names and markup
unfoldable pub lower_char : ℕ → ℕ
lower_char c = if leb b'A' c && leb c b'Z' then c + 32 else c

unfoldable pub lower : Text → Text
unfolding lower_char
lower s = map lower_char s

-- `s.lstrip(cs)`: every leading character of the set goes
unfoldable pub lstrip : Text → Text → Text
unfolding has_char
lstrip cs [] = []
lstrip cs (x ∷ s) = let rest = lstrip cs s in if has_char x cs then rest else x ∷ s

-- `s.rstrip(cs)`, `s.strip(cs)`
unfoldable pub rstrip : Text → Text → Text
unfolding lstrip
rstrip cs s = reverse (lstrip cs (reverse s))

unfoldable pub strip : Text → Text → Text
unfolding rstrip
strip cs s = rstrip cs (lstrip cs s)

-- The ASCII white space of `s.strip()`.
abbrev pub white : Text
white = 32 ∷ 9 ∷ 10 ∷ 11 ∷ 12 ∷ 13 ∷ 28 ∷ 29 ∷ 30 ∷ 31 ∷ []

abbrev cons_head : ℕ → List Text → List Text
cons_head x [] = (x ∷ []) ∷ []
cons_head x (p ∷ ps) = (x ∷ p) ∷ ps

-- `s.split(c)` for a separator of one character
unfoldable pub split : ℕ → Text → List Text
split c [] = [] ∷ []
split c (x ∷ s) = if x == c then [] ∷ split c s else cons_head x (split c s)

-- `c.join(parts)`
unfoldable pub join : Text → List Text → Text
join c [] = []
join c (p ∷ []) = p
join c (p ∷ q ∷ ps) = p ++ c ++ join c (q ∷ ps)

pub split-ne-nil : (c : ℕ) (s : Text) → (p : Text) × (ps : List Text) × (split c s ≡ p ∷ ps)
unfolding split
split-ne-nil c [] = ([], [], refl)
split-ne-nil c (x ∷ s) = go (x == c) (split c s) (split-ne-nil c s)
  where
    go :
        (b : Bool) (l : List Text)
        → (p : Text) × (ps : List Text) × (l ≡ p ∷ ps)
        → (p : Text) × (ps : List Text) × ((if b then [] ∷ l else cons_head x l) ≡ p ∷ ps)
    go true l h = ([], l, refl)
    go false [] (p, ps, e) = (x ∷ [], [], refl)
    go false (q ∷ l) h = (x ∷ q, l, refl)

join-cons_head :
    (c x : ℕ) (p : Text) (ps : List Text)
    → join (c ∷ []) ((x ∷ p) ∷ ps) ≡ x ∷ join (c ∷ []) (p ∷ ps)
unfolding join
join-cons_head c x p [] = refl
join-cons_head c x p (q ∷ ps) = refl

-- Joining what `split` made gives the text back.
pub join-split : (c : ℕ) (s : Text) → join (c ∷ []) (split c s) ≡ s
unfolding split join
join-split c [] = refl
join-split c (x ∷ s) =
    let (p, ps, e) = split-ne-nil c s in
    let ih : join (c ∷ []) (p ∷ ps) ≡ s = rw (← e) (join-split c s) in
    ground (arith, e, ih, join-cons_head c x p ps)

-- `str(n)` of a number; the fuel is above the number, so it is above the number of digits.
unfoldable pub decimal_go : ℕ → ℕ → Text
decimal_go zero n = []
decimal_go (suc fuel) n =
    let more = decimal_go fuel (n / 10) ++ (b'0' + n % 10) ∷ [] in
    if leb n 9 then (b'0' + n) ∷ [] else more

unfoldable pub decimal : ℕ → Text
unfolding decimal_go
decimal n = decimal_go (suc n) n

-- No text stands twice in the list.
abbrev pub Distinct : List Text → Type 0
Distinct [] = Unit
Distinct (t ∷ ts) = (elem t ts ≡ false) × Distinct ts

elem-concat : (s t : Text) (ts : List Text) → elem s (ts ++ t ∷ []) ≡ (elem s ts || same s t)
unfolding elem
elem-concat s t [] = ground arith
elem-concat s t (u ∷ ts) = ground (arith, elem-concat s t ts)

pub Distinct-concat :
    (ts : List Text) (t : Text) → Distinct ts → elem t ts ≡ false → Distinct (ts ++ t ∷ [])
unfolding elem
Distinct-concat [] t d h = (refl, tt)
Distinct-concat (u ∷ ts) t d h = (
  elem-concat u t ts ∙ ground (arith, d.0, h, same_iff t u, same_iff u t),
  Distinct-concat ts t d.1 (ground (arith, h)),
)
