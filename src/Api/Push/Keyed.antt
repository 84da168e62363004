-- ===== src/Api/Push/Keyed.antt =====
-- api/routers/push.py: the keys of the table.
use scamlens.Base.{
  ℕ, suc, ◌<◌, Bool, true, false, not, ◌==◌, ◌&&◌, ◌≡◌, refl, arith, Text, List, [], ◌∷◌, same,
  same_iff, if◌then◌else◌, Bool-cases, inl, inr,
}
use scamlens.Api.Push.{
  Subscription, Subscriptions, SubscribeRequest, PushLib, Message, delete_ids, has_id, subs_of,
  send_all, payload_of, send_to_user, upsert_subscription, is_valid, subscribe, delete_endpoint,
  unsubscribe, Request, joins, leaves, notified, handle_all,
}

-- No row of the list has the id `i`, or both the user and the endpoint.
unfoldable pub id_free : ℕ → List Subscription → Bool
id_free i [] = true
id_free i (row ∷ rows) = not (i == row.id) && id_free i rows

unfoldable pub key_free : ℕ → Text → List Subscription → Bool
key_free user endpoint [] = true
key_free user endpoint (row ∷ rows) =
    not (user == row.user_id && same endpoint row.endpoint) && key_free user endpoint rows

-- The ids are below `next` and distinct, and a user has one row for an endpoint.
unfoldable pub AreKeyed : ℕ → List Subscription → Type 0
unfolding id_free key_free
AreKeyed next [] = Unit
AreKeyed next (row ∷ rows) =
    (row.id < next)
    × (id_free row.id rows ≡ true)
    × (key_free row.user_id row.endpoint rows ≡ true)
    × AreKeyed next rows

abbrev pub IsKeyed : Subscriptions → Type 0
IsKeyed s = AreKeyed s.next_id s.rows

-- A sublist is keyed: `keep` says which rows stay.
unfoldable sublist : (Subscription → Bool) → List Subscription → List Subscription
sublist keep [] = []
sublist keep (row ∷ rows) = let rest = sublist keep rows in if keep row then row ∷ rest else rest

id_free-sublist :
    (keep : Subscription → Bool) (i : ℕ) (rows : List Subscription)
    → id_free i rows ≡ true
    → id_free i (sublist keep rows) ≡ true
unfolding sublist id_free
id_free-sublist keep i [] h = refl
id_free-sublist keep i (row ∷ rows) h = ground (arith, h, id_free-sublist keep i rows)

key_free-sublist :
    (keep : Subscription → Bool) (u : ℕ) (e : Text) (rows : List Subscription)
    → key_free u e rows ≡ true
    → key_free u e (sublist keep rows) ≡ true
unfolding sublist key_free
key_free-sublist keep u e [] h = refl
key_free-sublist keep u e (row ∷ rows) h = ground (arith, h, key_free-sublist keep u e rows)

sublist-AreKeyed :
    (keep : Subscription → Bool) (next : ℕ) (rows : List Subscription)
    → AreKeyed next rows
    → AreKeyed next (sublist keep rows)
unfolding sublist AreKeyed
sublist-AreKeyed keep next [] h = tt
sublist-AreKeyed keep next (row ∷ rows) (small, id, key, h) = elim (Bool-cases (keep row)) [
  | inl e ↦ rw e (
    small,
    id_free-sublist keep row.id rows id,
    key_free-sublist keep row.user_id row.endpoint rows key,
    sublist-AreKeyed keep next rows h,
  )
  | inr e ↦ rw e (sublist-AreKeyed keep next rows h)
]

delete_ids-sublist :
    (ids : List ℕ) (rows : List Subscription)
    → delete_ids ids rows ≡ sublist (λ row. not (has_id row.id ids)) rows
unfolding sublist delete_ids
delete_ids-sublist ids [] = refl
delete_ids-sublist ids (row ∷ rows) = ground (arith, delete_ids-sublist ids rows)

delete_endpoint-sublist :
    (who : ℕ) (endpoint : Text) (rows : List Subscription)
    → delete_endpoint who endpoint rows
      ≡ sublist (λ row. not (who == row.user_id && same endpoint row.endpoint)) rows
unfolding sublist delete_endpoint
delete_endpoint-sublist who endpoint [] = refl
delete_endpoint-sublist who endpoint (row ∷ rows) =
    ground (arith, delete_endpoint-sublist who endpoint rows)

later-AreKeyed :
    (next : ℕ) (rows : List Subscription) → AreKeyed next rows → AreKeyed (suc next) rows
unfolding AreKeyed
later-AreKeyed next [] h = tt
later-AreKeyed next (row ∷ rows) (small, id, key, h) =
    (omega (arith, small), id, key, later-AreKeyed next rows h)

id_free-upsert :
    (i : ℕ) (new : Subscription) (rows : List Subscription)
    → i == new.id ≡ false
    → id_free i rows ≡ true
    → id_free i (upsert_subscription new rows) ≡ true
unfolding id_free upsert_subscription
id_free-upsert i new [] h k = ground arith
id_free-upsert i new (row ∷ rows) h k = ground (arith, h, k, id_free-upsert i new rows h)

key_free-upsert :
    (u : ℕ) (e : Text) (new : Subscription) (rows : List Subscription)
    → (u == new.user_id && same e new.endpoint) ≡ false
    → key_free u e rows ≡ true
    → key_free u e (upsert_subscription new rows) ≡ true
unfolding key_free upsert_subscription
key_free-upsert u e new [] h k = ground arith
key_free-upsert u e new (row ∷ rows) h k = ground (arith, h, k, key_free-upsert u e new rows h)

-- A new row has the next id, and takes the place of the row with its key.
upsert-AreKeyed :
    (new : Subscription) (rows : List Subscription)
    → AreKeyed new.id rows
    → AreKeyed (suc new.id) (upsert_subscription new rows)
unfolding AreKeyed upsert_subscription id_free key_free
upsert-AreKeyed new [] h = (omega arith, refl, refl, tt)
upsert-AreKeyed new (row ∷ rows) (small, id, key, h) =
    elim (Bool-cases (new.user_id == row.user_id && same new.endpoint row.endpoint)) [
      | inl e ↦ rw e (omega (arith, small), id, moved e, later-AreKeyed new.id rows h)
      | inr e ↦ rw e (
        omega (arith, small),
        id_free-upsert row.id new rows (ground (arith, small)) id,
        key_free-upsert row.user_id row.endpoint new rows
            (ground
              (arith, e, same_iff row.endpoint new.endpoint, same_iff new.endpoint row.endpoint))
            key,
        upsert-AreKeyed new rows h,
      )
    ]
  where
    moved :
        (new.user_id == row.user_id && same new.endpoint row.endpoint) ≡ true
        → key_free new.user_id new.endpoint rows ≡ true
    moved e =
        let u : new.user_id ≡ row.user_id = ground (arith, e) in
        let t : new.endpoint ≡ row.endpoint =
          (same_iff new.endpoint row.endpoint).0 (ground (arith, e)) in
        rw (u, t) key

subscribe-IsKeyed :
    (who : ℕ) (body : SubscribeRequest) (s : Subscriptions)
    → IsKeyed s
    → IsKeyed (subscribe who body s).1
unfolding subscribe
subscribe-IsKeyed who body s h = elim (Bool-cases (is_valid body)) [
  | inl e ↦ rw e (upsert-AreKeyed _ s.rows h)
  | inr e ↦ rw e h
]

unsubscribe-IsKeyed :
    (who : ℕ) (body : SubscribeRequest) (s : Subscriptions)
    → IsKeyed s
    → IsKeyed (unsubscribe who body s).1
unfolding unsubscribe
unsubscribe-IsKeyed who body s h = elim (Bool-cases (is_valid body)) [
  | inl e ↦ rw e (
      rw (delete_endpoint-sublist who body.endpoint s.rows) (sublist-AreKeyed _ s.next_id s.rows h))
  | inr e ↦ rw e h
]

pub send_to_user-IsKeyed :
    (lib : PushLib) (available : Bool) (who : ℕ) (m : Message) (s : Subscriptions)
    → IsKeyed s
    → IsKeyed (send_to_user lib available who m s).1
unfolding send_to_user
send_to_user-IsKeyed lib true who m s h =
    rw (delete_ids-sublist (send_all lib (payload_of lib m) (subs_of who s.rows)).1 s.rows)
      (sublist-AreKeyed _ s.next_id s.rows h)
send_to_user-IsKeyed lib false who m s h = h

-- After any subscriptions, ends of them and messages, from an empty table: the ids are below the next
-- one, no two rows share an id, and a user has one row for an endpoint.
handle_all-IsKeyed : (lib : PushLib) (trace : List (ℕ × Request)) → IsKeyed (handle_all lib trace)
unfolding handle_all AreKeyed
handle_all-IsKeyed lib [] = tt
handle_all-IsKeyed lib ((who, joins body) ∷ earlier) =
    subscribe-IsKeyed who body _ (handle_all-IsKeyed lib earlier)
handle_all-IsKeyed lib ((who, leaves body) ∷ earlier) =
    unsubscribe-IsKeyed who body _ (handle_all-IsKeyed lib earlier)
handle_all-IsKeyed lib ((who, notified available m) ∷ earlier) =
    send_to_user-IsKeyed lib available who m _ (handle_all-IsKeyed lib earlier)
