-- ===== src/Api/Me.antt =====
-- api/routers/me.py: the links between guardians and wards. The identity of an account is its `id`
-- and its invite code; timestamps and the e-mails in the answers are left out.
pub mod Consent
pub mod Listing
pub mod Shown
use scamlens.Base.{
  ℕ, suc, Bool, true, false, not, ◌+◌, ◌-◌, ◌==◌, ◌&&◌, ◌||◌, Text, List, [], ◌∷◌, ◌++◌, Option,
  none, some, same, strip, white, map, leb, if◌then◌else◌, length, ltb,
}

pub data Status : Type 0 where
  pending accepted rejected : Status

pub record Link : Type 0 where
  pub id : ℕ
  pub guardian_id : ℕ
  pub ward_id : ℕ
  pub status : Status

pub record User : Type 0 where
  pub id : ℕ
  pub invite_code : Text

pub record Links : Type 0 where
  pub next_id : ℕ
  pub rows : List Link

pub data Response : Type 0 where
  ok : ℕ → Response
  bad_request : Response
  not_found : Response
  invalid : Response

-- `str.upper`, on ASCII.
unfoldable pub upper : Text → Text
upper s = map (λ c. if leb 97 c && leb c 122 then c - 32 else c) s

-- SELECT id, email FROM users WHERE invite_code = $1
unfoldable pub find_user : Text → List User → Option User
find_user code [] = none
find_user code (u ∷ us) =
    let rest = find_user code us in if same code u.invite_code then some u else rest

-- INSERT INTO guardian_links ... ON CONFLICT (guardian_id, ward_id) DO UPDATE SET status = 'pending'
unfoldable pub upsert_link : ℕ → ℕ → ℕ → List Link → ℕ × List Link
upsert_link next g w [] =
    (next, record { id = next; guardian_id = g; ward_id = w; status = pending } ∷ [])
upsert_link next g w (l ∷ ls) =
    let (id, rest) = upsert_link next g w ls in
    if g == l.guardian_id && w == l.ward_id
    then (l.id, record l { status = pending } ∷ ls)
    else (id, l ∷ rest)

unfoldable pub is_pending : Status → Bool
is_pending pending = true
is_pending _ = false

unfoldable pub is_accepted : Status → Bool
is_accepted accepted = true
is_accepted _ = false

-- UPDATE guardian_links SET status = ... WHERE id = $1 AND ward_id = $2 AND status = 'pending'
-- RETURNING id
unfoldable pub respond : Status → ℕ → ℕ → List Link → Bool × List Link
unfolding is_pending
respond status id who [] = (false, [])
respond status id who (l ∷ ls) =
    let (found, rest) = respond status id who ls in
    if id == l.id && (who == l.ward_id && is_pending l.status)
    then (true, record l { status = status } ∷ rest)
    else (found, l ∷ rest)

-- DELETE FROM guardian_links WHERE id = $1 AND (guardian_id = $2 OR ward_id = $2) RETURNING id
unfoldable pub remove_link : ℕ → ℕ → List Link → Bool × List Link
remove_link id who [] = (false, [])
remove_link id who (l ∷ ls) =
    let (found, rest) = remove_link id who ls in
    if id == l.id && (who == l.guardian_id || who == l.ward_id)
    then (true, rest)
    else (found, l ∷ rest)

-- The limits of `InviteRequest`, then the handler. CHECK (guardian_id <> ward_id) makes the insertion
-- raise after it took an id.
unfoldable pub invite_dependent : List User → User → Text → Links → Response × Links
unfolding upper find_user upsert_link
invite_dependent users who invite_code s =
    let code = upper (strip white invite_code) in
    if ltb (length invite_code) 4 || ltb 32 (length invite_code)
    then (invalid, s)
    else if same code who.invite_code
    then (bad_request, s)
    else elim (find_user code users) [
      | none ↦ (not_found, s)
      | some target ↦
          let (id, rows) = upsert_link s.next_id who.id target.id s.rows in
          if who.id == target.id
          then (bad_request, record s { next_id = suc s.next_id })
          else (ok id, record { next_id = suc s.next_id; rows = rows })
    ]

unfoldable pub accept_link : User → ℕ → Links → Response × Links
unfolding respond
accept_link who link_id s =
    let (found, rows) = respond accepted link_id who.id s.rows in
    ((if found then ok link_id else not_found), record s { rows = rows })

unfoldable pub reject_link : User → ℕ → Links → Response × Links
unfolding respond
reject_link who link_id s =
    let (found, rows) = respond rejected link_id who.id s.rows in
    ((if found then ok link_id else not_found), record s { rows = rows })

unfoldable pub revoke_link : User → ℕ → Links → Response × Links
unfolding remove_link
revoke_link who link_id s =
    let (found, rows) = remove_link link_id who.id s.rows in
    ((if found then ok link_id else not_found), record s { rows = rows })

-- A request of a logged-in user.
pub data Request : Type 0 where
  invite : Text → Request
  accept reject revoke : ℕ → Request

unfoldable pub handle : List User → User → Request → Links → Response × Links
handle users who (invite code) s = invite_dependent users who code s
handle users who (accept id) s = accept_link who id s
handle users who (reject id) s = reject_link who id s
handle users who (revoke id) s = revoke_link who id s

-- Requests in the order in which the database commits them, the latest first.
unfoldable pub handle_all : List User → List (User × Request) → Links
handle_all users [] = record { next_id = 1; rows = [] }
handle_all users ((who, request) ∷ earlier) =
    (handle users who request (handle_all users earlier)).1

-- SELECT ward_id FROM guardian_links WHERE guardian_id = $1 AND status = 'accepted': whether the
-- guardian reads the ward's blocks and is told of them.
unfoldable pub watches : ℕ → ℕ → List Link → Bool
unfolding is_accepted
watches g w [] = false
watches g w (l ∷ ls) =
    (g == l.guardian_id && (w == l.ward_id && is_accepted l.status)) || watches g w ls
