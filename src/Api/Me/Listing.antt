-- ===== src/Api/Me/Listing.antt =====
-- api/routers/me.py: the listings `list_links` and `my_blocks`. The rows stand in the order in which
-- they were written, so the newest are last; the links of one user are not ordered by their time.
use scamlens.Base.{
  ℕ, Bool, false, ◌==◌, ◌||◌, Text, List, [], ◌∷◌, ◌++◌, Option, none, some, take, leb,
  if◌then◌else◌,
}
use scamlens.Api.Auth.{Account, fetch_by_id}
use scamlens.Api.Me.{Link, Status, pending, accepted, rejected, watches}
use scamlens.Postgres.{AttemptRow}

-- An entry of an answer; `as_guardian` is the role in the link.
pub record Item : Type 0 where
  pub link_id : ℕ
  pub other_id : ℕ
  pub other_email : Text
  pub other_invite_code : Text
  pub as_guardian : Bool
  pub status : Status

pub record Listing : Type 0 where
  pub wards : List Item
  pub guardians : List Item
  pub pending_outgoing : List Item
  pub pending_incoming : List Item

-- A row of the query: the link with both accounts.
pub record Row : Type 0 where
  pub link : Link
  pub guardian : Account
  pub ward : Account

abbrev pub joined : Link → Option Account → Option Account → List Row
joined l (some g) (some w) = record { link = l; guardian = g; ward = w } ∷ []
joined l _ _ = []

-- SELECT ... WHERE gl.guardian_id = $1 OR gl.ward_id = $1
unfoldable pub rows_of : List Account → ℕ → List Link → List Row
rows_of accounts who [] = []
rows_of accounts who (l ∷ ls) =
    let rest = rows_of accounts who ls in
    if who == l.guardian_id || who == l.ward_id
    then joined l (fetch_by_id l.guardian_id accounts) (fetch_by_id l.ward_id accounts) ++ rest
    else rest

unfoldable pub item_of : ℕ → Row → Item
item_of who r = record {
  link_id = r.link.id;
  other_id = if r.link.guardian_id == who then r.link.ward_id else r.link.guardian_id;
  other_email = if r.link.guardian_id == who then r.ward.email else r.guardian.email;
  other_invite_code =
      if r.link.guardian_id == who then r.ward.invite_code else r.guardian.invite_code;
  as_guardian = r.link.guardian_id == who;
  status = r.link.status;
}

-- One turn of the loop.
abbrev pub place : Status → Item → Listing → Listing
place accepted item out =
    if item.as_guardian
    then record out { wards = out.wards ++ item ∷ [] }
    else record out { guardians = out.guardians ++ item ∷ [] }
place pending item out =
    if item.as_guardian
    then record out { pending_outgoing = out.pending_outgoing ++ item ∷ [] }
    else record out { pending_incoming = out.pending_incoming ++ item ∷ [] }
place rejected item out = out

unfoldable pub place_all : ℕ → List Row → Listing → Listing
unfolding item_of
place_all who [] out = out
place_all who (r ∷ rs) out = place_all who rs (place r.link.status (item_of who r) out)

unfoldable pub list_links : List Account → ℕ → List Link → Listing
unfolding rows_of place_all
list_links accounts who links =
    place_all who (rows_of accounts who links)
      (record { wards = []; guardians = []; pending_outgoing = []; pending_incoming = [] })

-- WHERE user_id = $1 OR user_id IN (the accepted wards)
abbrev pub is_shown : ℕ → List Link → Option ℕ → Bool
is_shown who links none = false
is_shown who links (some user) = user == who || watches who user links

-- ORDER BY created_at DESC
unfoldable pub newest_first : ℕ → List Link → List AttemptRow → List AttemptRow → List AttemptRow
newest_first who links [] out = out
newest_first who links (row ∷ rows) out =
    let on = newest_first who links rows (row ∷ out) in
    let skip = newest_first who links rows out in
    if is_shown who links row.user_id then on else skip

unfoldable pub my_blocks : ℕ → ℕ → List Link → List AttemptRow → List AttemptRow
unfolding newest_first
my_blocks limit who links rows =
    take (if leb limit 200 then limit else 200) (newest_first who links rows [])
