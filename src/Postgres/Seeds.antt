-- ===== src/Postgres/Seeds.antt =====
-- Membership after each statement on `blocklist_seed` and `whitelist`.
use scamlens.Base.{
  false, ◌≡◌, ◌||◌, refl, arith, Text, List, [], ◌∷◌, ◌++◌, same, same_iff, if◌then◌else◌,
  Bool-cases, inl, inr,
}
use scamlens.Postgres.{
  SeedRow, WhiteRow, has_seed, insert_seed, delete_seed, has_white, delete_white,
}

has_seed-append :
    (d : Text) (rows : List SeedRow) (row : SeedRow)
    → has_seed d (rows ++ row ∷ []) ≡ (same d row.domain || has_seed d rows)
unfolding has_seed
has_seed-append d [] row = refl
has_seed-append d (r ∷ rows) row = ground (arith, has_seed-append d rows row)

pub has_seed-insert_seed :
    (j d category : Text) (rows : List SeedRow)
    → has_seed j (insert_seed d category rows) ≡ (same j d || has_seed j rows)
unfolding insert_seed
has_seed-insert_seed j d category rows = elim (Bool-cases (has_seed d rows)) [
  | inl e ↦ rw e (elim (Bool-cases (same j d)) [
    | inl here ↦ rw here (rw ((same_iff j d).0 here) e)
    | inr other ↦ rw other refl
  ])
  | inr e ↦ rw e (has_seed-append j rows _)
]

pub has_seed-delete_seed :
    (j d : Text) (rows : List SeedRow)
    → has_seed j (delete_seed d rows) ≡ (if same d j then false else has_seed j rows)
unfolding has_seed delete_seed
has_seed-delete_seed j d [] = ground arith
has_seed-delete_seed j d (row ∷ rows) = ground (
  arith,
  same_iff d row.domain,
  same_iff j row.domain,
  same_iff d j,
  has_seed-delete_seed j d rows,
)

pub has_white-delete_white :
    (j d : Text) (rows : List WhiteRow)
    → has_white j (delete_white d rows) ≡ (if same d j then false else has_white j rows)
unfolding has_white delete_white
has_white-delete_white j d [] = ground arith
has_white-delete_white j d (row ∷ rows) = ground (
  arith,
  same_iff d row.domain,
  same_iff j row.domain,
  same_iff d j,
  has_white-delete_white j d rows,
)
