-- ===== src/Dns/Typosquat/Labels/Folding.antt =====
-- Characters that `_normalize` folds away.
use scamlens.Base.{
  ℕ, Bool, false, Text, [], ◌∷◌, map, ◌≡◌, ◌≢◌, arith, ◌==◌, ◌||◌, ◌&&◌, All, Bool-cases, inl, inr,
}
use scamlens.Dns.Typosquat.Labels.{homoglyph, normalize, replace_pair}

-- The characters that the table maps to something else.
abbrev pub is_folded : ℕ → Bool
is_folded c =
    c == b'0'
    || c == b'1'
    || c == b'3'
    || c == b'4'
    || c == b'5'
    || c == b'$'
    || c == b'@'
    || c == b'!'
    || c == b'i'

abbrev pub NoBang : Text → Type 0
NoBang = All (λ c. c ≢ b'!')

replace_pair-NoBang : (x y z : ℕ) (s : Text) → z ≢ b'!' → NoBang s → NoBang (replace_pair x y z s)
unfolding replace_pair
replace_pair-NoBang x y z [] k h = tt
replace_pair-NoBang x y z (c ∷ []) k h = h
replace_pair-NoBang x y z (c ∷ d ∷ s) k h = elim (Bool-cases (c == x && d == y)) [
  | inl e ↦ rw (e, replace_pair) (k, replace_pair-NoBang x y z s k h.1.1)
  | inr e ↦ rw (e, replace_pair) (h.0, replace_pair-NoBang x y z (d ∷ s) k h.1)
]

homoglyph-not_folded : (c : ℕ) → c ≢ b'!' → is_folded (homoglyph c) ≡ false
unfolding homoglyph
homoglyph-not_folded c h = ground arith

map-not_folded : (s : Text) → NoBang s → All (λ c. is_folded c ≡ false) (map homoglyph s)
map-not_folded [] h = tt
map-not_folded (c ∷ s) h = (homoglyph-not_folded c h.0, map-not_folded s h.1)

-- The normal form of a label without '!' has none of the characters that the homoglyph table
-- replaces: no 0, 1, 3, 4, 5, $, @, ! and no i.
normalize-not_folded : (s : Text) → NoBang s → All (λ c. is_folded c ≡ false) (normalize s)
unfolding normalize
normalize-not_folded s h = map-not_folded _ (
    replace_pair-NoBang b'c' b'l' b'd' _ (omega arith) (
      replace_pair-NoBang b'v' b'v' b'w' _ (omega arith)
        (replace_pair-NoBang b'r' b'n' b'm' s (omega arith) h)))
