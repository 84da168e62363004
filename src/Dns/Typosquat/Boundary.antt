-- ===== src/Dns/Typosquat/Boundary.antt =====
-- dns_server/typosquat.py: `_contains_at_boundary`.
pub mod Tokens
use scamlens.Base.{
  ℕ, zero, suc, ◌+◌, ◌-◌, Bool, true, false, ◌&&◌, ◌||◌, Text, List, [], ◌∷◌, Option, none, some,
  length, drop, get_elem?, ltb, ◌==◌, same, has_char, starts_with, codes, if◌then◌else◌,
}

abbrev suc? : Option ℕ → Option ℕ
suc? none = none
suc? (some i) = some (suc i)

abbrev plus? : ℕ → Option ℕ → Option ℕ
plus? n none = none
plus? n (some i) = some (n + i)

-- `s.find(p)`
unfoldable pub find : Text → Text → Option ℕ
find p [] = if starts_with p [] then some 0 else none
find p (x ∷ s) = if starts_with p (x ∷ s) then some 0 else suc? (find p s)

-- `label.find(brand, idx)`; `none` is -1
unfoldable pub find_from : Text → Text → ℕ → Option ℕ
find_from label brand idx =
    if ltb (length label) idx then none else plus? idx (find brand (drop idx label))

-- `s[i] in "-_"`; the loop reads no index out of range
unfoldable pub at_separator : Text → ℕ → Bool
unfolding has_char
at_separator s i = elim (get_elem? s i) [ none ↦ false | some c ↦ has_char c (codes "-_") ]

unfoldable pub left_ok : Text → ℕ → Bool
left_ok label i = i == 0 || at_separator label (i - 1)

unfoldable pub right_ok : Text → ℕ → Bool
right_ok label end = end == length label || at_separator label end

-- The `while True` loop, with fuel.
unfoldable pub search_from : ℕ → Text → Text → ℕ → Bool
search_from zero label brand idx = false
search_from (suc fuel) label brand idx = elim (find_from label brand idx) [
  | none ↦ false
  | some i ↦
      let rest = search_from fuel label brand (i + 1) in
      if left_ok label i && right_ok label (i + length brand) then true else rest
]

unfoldable pub contains_at_boundary : Text → Text → Bool
unfolding search_from
contains_at_boundary label brand =
    if same label brand then false else search_from (length label + 2) label brand 0
