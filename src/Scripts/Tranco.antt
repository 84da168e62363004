-- ===== src/Scripts/Tranco.antt =====
-- scripts/import_tranco.py: the import of popular domains into the whitelist. The download gives the
-- lines of the file.
pub mod Import
use scamlens.Base.{
  ℕ, Bool, true, false, ◌==◌, Text, List, [], ◌∷◌, ◌++◌, Option, none, some, starts_with, strip,
  white, lower, length, leb, codes, if◌then◌else◌,
}
use scamlens.Postgres.{WhiteRow, Db, has_white}

-- `line.split(",", 1)` into two: `none` where there is one part only.
unfoldable pub split_once : ℕ → Text → Option (Text × Text)
split_once c [] = none
split_once c (x ∷ s) =
    let rest = split_once c s in
    if x == c
    then some ([], s)
    else elim rest [ none ↦ none | some (before, after) ↦ some (x ∷ before, after) ]

abbrev pub row_of : Text × Text → Text × Text
row_of (rank, domain) = (lower domain, codes "tranco-rank-" ++ rank)

-- The loop over the lines: `none` is the ValueError of a line without a comma.
unfoldable pub read_rows : ℕ → List Text → List (Text × Text) → Option (List (Text × Text))
unfolding split_once
read_rows top [] rows = some rows
read_rows top (line ∷ lines) rows = elim (split_once b',' (strip white line)) [
  | none ↦ none
  | some parts ↦
      let next = rows ++ row_of parts ∷ [] in
      let rest = read_rows top lines next in if leb top (length next) then some next else rest
]

-- reason LIKE 'tranco-rank-%'
unfoldable pub is_popular : Option Text → Bool
is_popular none = false
is_popular (some reason) = starts_with (codes "tranco-rank-") reason

unfoldable pub delete_popular : List WhiteRow → List WhiteRow
unfolding is_popular
delete_popular [] = []
delete_popular (row ∷ rows) =
    let rest = delete_popular rows in if is_popular row.reason then rest else row ∷ rest

-- INSERT INTO whitelist ... ON CONFLICT (domain) DO NOTHING, for each row
unfoldable pub insert_popular : List (Text × Text) → List WhiteRow → List WhiteRow
insert_popular [] list = list
insert_popular ((domain, reason) ∷ rows) list =
    let keep = insert_popular rows list in
    let add =
      insert_popular rows (
        list ++ record { domain = domain; reason = some reason; added_by = codes "tranco" } ∷ []) in
    if has_white domain list then keep else add

unfoldable pub import_tranco : ℕ → List Text → Db → Option Db
unfolding read_rows delete_popular insert_popular
import_tranco top lines db = elim (read_rows top lines []) [
  | none ↦ none
  | some rows ↦ some (record db { whitelist = insert_popular rows (delete_popular db.whitelist) })
]
