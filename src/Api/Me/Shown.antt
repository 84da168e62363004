-- ===== src/Api/Me/Shown.antt =====
-- api/routers/me.py: what the listings show, against who watches whom.
use scamlens.Base.{
  ℕ, zero, suc, Bool, true, false, not, ◌==◌, ◌&&◌, ◌||◌, ◌≡◌, ◌≤◌, refl, arith, List, [], ◌∷◌,
  ◌++◌, some, take, length, length-take-le, leb, if◌then◌else◌, Bool-cases, Option-cases, inl, inr,
  All, ◌∙◌,
}
use scamlens.Api.Auth.{Account, fetch_by_id}
use scamlens.Api.Me.{
  User, Link, Status, pending, accepted, rejected, Request, is_accepted, watches, handle_all,
}
use scamlens.Api.Me.Consent.{agreed, watches-agreed}
use scamlens.Api.Me.Listing.{
  Item, Listing, Row, rows_of, item_of, place, place_all, list_links, is_shown, newest_first,
  my_blocks,
}
use scamlens.Postgres.{AttemptRow}

-- An entry of the list is about the user `v`.
unfoldable pub names : ℕ → List Item → Bool
names v [] = false
names v (item ∷ items) = v == item.other_id || names v items

names-append :
    (v : ℕ) (xs : List Item) (item : Item)
    → names v (xs ++ item ∷ []) ≡ (names v xs || v == item.other_id)
unfolding names
names-append v [] item = ground arith
names-append v (x ∷ xs) item = ground (arith, names-append v xs item)

-- A row makes its guardian a guardian of its ward.
unfoldable pub grants : ℕ → ℕ → List Row → Bool
unfolding is_accepted
grants g w [] = false
grants g w (r ∷ rs) =
    (g == r.link.guardian_id && (w == r.link.ward_id && is_accepted r.link.status)) || grants g w rs

-- No row is of a user with itself, and every row is the user's.
unfoldable pub AreRows : ℕ → List Row → Type 0
AreRows who [] = Unit
AreRows who (r ∷ rs) =
    ((r.link.guardian_id == r.link.ward_id) ≡ false)
    × ((who == r.link.guardian_id || who == r.link.ward_id) ≡ true)
    × AreRows who rs

place-wards :
    (v : ℕ) (status : Status) (item : Item) (out : Listing)
    → names v (place status item out).wards
      ≡ (names v out.wards || (is_accepted status && (item.as_guardian && v == item.other_id)))
unfolding is_accepted
place-wards v accepted item out = elim (Bool-cases item.as_guardian) [
  | inl e ↦ rw e (names-append v out.wards _)
  | inr e ↦ rw e (ground arith)
]
place-wards v pending item out = elim (Bool-cases item.as_guardian) [
  | inl e ↦ rw e (ground arith)
  | inr e ↦ rw e (ground arith)
]
place-wards v rejected item out = ground arith

place-guardians :
    (v : ℕ) (status : Status) (item : Item) (out : Listing)
    → names v (place status item out).guardians ≡ (
        names v out.guardians
        || (is_accepted status && (not item.as_guardian && v == item.other_id)))
unfolding is_accepted
place-guardians v accepted item out = elim (Bool-cases item.as_guardian) [
  | inl e ↦ rw e (ground arith)
  | inr e ↦ rw e (names-append v out.guardians _)
]
place-guardians v pending item out = elim (Bool-cases item.as_guardian) [
  | inl e ↦ rw e (ground arith)
  | inr e ↦ rw e (ground arith)
]
place-guardians v rejected item out = ground arith

place_all-wards :
    (who v : ℕ) (rows : List Row) (out : Listing)
    → AreRows who rows
    → names v (place_all who rows out).wards ≡ (names v out.wards || grants who v rows)
unfolding place_all grants item_of AreRows
place_all-wards who v [] out h = ground arith
place_all-wards who v (r ∷ rs) out h =
    place_all-wards who v rs (place r.link.status (item_of who r) out) h.2
    ∙ ground (arith, place-wards v r.link.status (item_of who r) out, h.0, h.1)

place_all-guardians :
    (who v : ℕ) (rows : List Row) (out : Listing)
    → AreRows who rows
    → names v (place_all who rows out).guardians ≡ (names v out.guardians || grants v who rows)
unfolding place_all grants item_of AreRows
place_all-guardians who v [] out h = ground arith
place_all-guardians who v (r ∷ rs) out h =
    place_all-guardians who v rs (place r.link.status (item_of who r) out) h.2
    ∙ ground (arith, place-guardians v r.link.status (item_of who r) out, h.0, h.1)

-- Both accounts of a link are there, and they differ.
abbrev pub IsSoundLink : List Account → Link → Type 0
IsSoundLink accounts l =
    ((g : Account) × (fetch_by_id l.guardian_id accounts ≡ some g))
    × ((w : Account) × (fetch_by_id l.ward_id accounts ≡ some w))
    × ((l.guardian_id == l.ward_id) ≡ false)

rows_of-AreRows :
    (accounts : List Account) (who : ℕ) (links : List Link)
    → All (IsSoundLink accounts) links
    → AreRows who (rows_of accounts who links)
unfolding rows_of AreRows
rows_of-AreRows accounts who [] h = tt
rows_of-AreRows accounts who (l ∷ ls) ((g, w, differ), h) =
    let ih = rows_of-AreRows accounts who ls h in
    elim (Bool-cases (who == l.guardian_id || who == l.ward_id)) [
      | inl e ↦ rw (e, g.1, w.1) (differ, e, ih)
      | inr e ↦ rw e ih
    ]

-- The rows of a user have the grants of which it is a side.
grants-rows_of :
    (accounts : List Account) (who g w : ℕ) (links : List Link)
    → All (IsSoundLink accounts) links
    → (who == g || who == w) ≡ true
    → grants g w (rows_of accounts who links) ≡ watches g w links
unfolding rows_of grants watches
grants-rows_of accounts who g w [] h side = refl
grants-rows_of accounts who g w (l ∷ ls) ((lg, lw, differ), h) side =
    let ih = grants-rows_of accounts who g w ls h side in
    elim (Bool-cases (who == l.guardian_id || who == l.ward_id)) [
      | inl e ↦ rw (e, lg.1, lw.1) (ground (arith, ih))
      | inr e ↦ rw e (ground (arith, ih, e, side))
    ]

-- Where both accounts of every link are there, and differ: the listing of a user names under `wards`
-- exactly the users that it watches, and under `guardians` exactly those that watch it.
pub list_links_iff :
    (accounts : List Account) (who v : ℕ) (links : List Link)
    → All (IsSoundLink accounts) links
    → (names v (list_links accounts who links).wards ≡ watches who v links)
      × (names v (list_links accounts who links).guardians ≡ watches v who links)
unfolding list_links grants watches names
list_links_iff accounts who v links h =
    let rows = rows_of-AreRows accounts who links h in
    (
      place_all-wards who v (rows_of accounts who links) _ rows
          ∙ grants-rows_of accounts who who v links h (ground arith),
      place_all-guardians who v (rows_of accounts who links) _ rows
          ∙ grants-rows_of accounts who v who links h (ground arith),
    )

-- A row of the user's own, or of one who accepted an invite of the user.
abbrev pub IsAllowed : List User → List (User × Request) → ℕ → AttemptRow → Type 0
IsAllowed users requests who row =
    (owner : ℕ) × (row.user_id ≡ some owner)
    × ((owner == who || agreed users who owner requests) ≡ true)

newest_first-All :
    (P : AttemptRow → Type 0) (who : ℕ) (links : List Link) (rows out : List AttemptRow)
    → ((row : AttemptRow) → is_shown who links row.user_id ≡ true → P row)
    → All P out
    → All P (newest_first who links rows out)
unfolding newest_first
newest_first-All P who links [] out shown h = h
newest_first-All P who links (row ∷ rows) out shown h =
    elim (Bool-cases (is_shown who links row.user_id)) [
      | inl e ↦ rw e (newest_first-All P who links rows (row ∷ out) shown (shown row e, h))
      | inr e ↦ rw e (newest_first-All P who links rows out shown h)
    ]

take-All :
    (P : AttemptRow → Type 0) (n : ℕ) (rows : List AttemptRow) → All P rows → All P (take n rows)
take-All P zero rows h = tt
take-All P (suc n) [] h = tt
take-All P (suc n) (row ∷ rows) h = (h.0, take-All P n rows h.1)

shown-IsAllowed :
    (users : List User) (requests : List (User × Request)) (who : ℕ) (row : AttemptRow)
    → is_shown who (handle_all users requests).rows row.user_id ≡ true
    → IsAllowed users requests who row
shown-IsAllowed users requests who row h = elim (Option-cases row.user_id) [
  | inl e ↦ cc (rw e at h)
  | inr (owner, e) ↦ (
    owner,
    e,
    elim (Bool-cases (owner == who)) [
      | inl k ↦ rw k refl
      | inr k ↦ rw k (watches-agreed users who owner requests (rw (e, k) at h))
    ],
  )
]

-- Whatever requests about guardians were handled: `my_blocks` shows 200 rows at most, and only rows of
-- the user itself and of users who accepted an invite of that user.
pub my_blocks-IsAllowed :
    (users : List User) (requests : List (User × Request)) (limit who : ℕ) (rows : List AttemptRow)
    → let shown = my_blocks limit who (handle_all users requests).rows rows in
      All (IsAllowed users requests who) shown × (length shown ≤ 200)
unfolding my_blocks
my_blocks-IsAllowed users requests limit who rows =
    let links = (handle_all users requests).rows in
    let n = if leb limit 200 then limit else 200 in
    let small : n ≤ 200 = ground arith in
    (
      take-All (IsAllowed users requests who) n (newest_first who links rows []) (
          newest_first-All (IsAllowed users requests who) who links rows []
            (λ row e. shown-IsAllowed users requests who row e) tt),
      omega (arith, length-take-le n (newest_first who links rows []), small),
    )
