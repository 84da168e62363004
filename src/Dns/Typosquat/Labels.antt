-- ===== src/Dns/Typosquat/Labels.antt =====
-- dns_server/typosquat.py: `_etld_plus_one_label`, `_normalize` and the tables that they use.
pub mod Folding
use scamlens.Base.{
  ℕ, Bool, Text, List, [], ◌∷◌, ◌++◌, ◌&&◌, map, Option, none, some, ◌==◌, elem, split, join, codes,
  if◌then◌else◌, true, false,
}
use mathlib.Core.List.{reverse}

abbrev pub compound : List Text
compound =
    codes "co.uk"
    ∷ codes "com.my"
    ∷ codes "com.au"
    ∷ codes "com.sg"
    ∷ codes "com.br"
    ∷ codes "co.jp"
    ∷ codes "co.kr"
    ∷ codes "com.cn"
    ∷ []

-- `parts[-1]`, `parts[-2]`, `parts[-3]` are the first three of the reversed list.
unfoldable pub pick_label : List Text → Text
unfolding elem join
pick_label [] = []
pick_label (tld ∷ []) = []
pick_label (tld ∷ second ∷ []) = second
pick_label (tld ∷ second ∷ third ∷ rest) =
    if elem (join (codes ".") (second ∷ tld ∷ [])) compound then third else second

unfoldable pub etld_plus_one_label : Text → Text
unfolding pick_label split
etld_plus_one_label domain = pick_label (reverse (split b'.' domain))

-- `s.replace(src, dst)` for a `src` of two characters and a `dst` of one
unfoldable pub replace_pair : ℕ → ℕ → ℕ → Text → Text
replace_pair x y z [] = []
replace_pair x y z (c ∷ []) = c ∷ []
replace_pair x y z (c ∷ d ∷ s) = elim (c == x && d == y) [
  | true ↦ z ∷ replace_pair x y z s
  | false ↦ c ∷ replace_pair x y z (d ∷ s)
]

-- `HOMOGLYPHS.get(ch, ch)`
unfoldable pub homoglyph : ℕ → ℕ
homoglyph c =
    if c == b'0'
    then b'o'
    else if c == b'1'
    then b'l'
    else if c == b'3'
    then b'e'
    else if c == b'4'
    then b'a'
    else if c == b'5'
    then b's'
    else if c == b'$'
    then b's'
    else if c == b'@'
    then b'a'
    else if c == b'!'
    then b'i'
    else if c == b'i'
    then b'l'
    else c

unfoldable pub normalize : Text → Text
unfolding replace_pair homoglyph
normalize s =
    let rn = replace_pair b'r' b'n' b'm' s in
    let vv = replace_pair b'v' b'v' b'w' rn in
    let cl = replace_pair b'c' b'l' b'd' vv in map homoglyph cl
