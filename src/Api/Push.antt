-- ===== src/Api/Push.antt =====
-- api/push.py and api/routers/push.py: the subscriptions to push messages, and the sends to a user.
-- `webpush` and `json.dumps` are parameters; `last_seen_at` is left out, and the statements on
-- `push_subscriptions` succeed.
pub mod Pruned
pub mod Keyed
mod Tests
use scamlens.Base.{
  ℕ, zero, suc, ◌+◌, Bool, true, false, not, ◌==◌, ◌&&◌, ◌||◌, Text, List, [], ◌∷◌, ◌++◌, Option,
  none, some, same, codes, length, ltb, if◌then◌else◌,
}

pub record Subscription : Type 0 where
  pub id : ℕ
  pub user_id : ℕ
  pub endpoint : Text
  pub p256dh : Text
  pub auth : Text
  pub user_agent : Option Text

pub record Subscriptions : Type 0 where
  pub next_id : ℕ
  pub rows : List Subscription

pub record SubscribeRequest : Type 0 where
  pub endpoint : Text
  pub p256dh : Text
  pub auth : Text
  pub user_agent : Option Text

-- What `webpush` does: it returns, raises WebPushException with a response or without one, or raises
-- something else.
pub data Delivery (Response : Type 0) : Type 0 where
  delivered : Delivery Response
  push_exception : Option Response → Delivery Response
  crashed : Delivery Response

-- pywebpush, whose responses have a status and a truth value, and `json.dumps` of a message.
pub record PushLib : Type 1 where
  pub Response : Type 0
  pub status_code : Response → ℕ
  pub truth : Response → Bool
  pub webpush : Text → Text → Text → Text → Delivery Response
  pub dumps : Text → Text → Text → Text → Text

pub record Message : Type 0 where
  pub title : Text
  pub body : Text
  pub url : Option Text
  pub tag : Option Text

-- `value or other`
abbrev pub or_text : Option Text → Text → Text
or_text none other = other
or_text (some []) other = other
or_text (some (c ∷ t)) other = c ∷ t

-- DELETE FROM push_subscriptions WHERE id = ANY(...)
unfoldable pub has_id : ℕ → List ℕ → Bool
has_id i [] = false
has_id i (j ∷ js) = i == j || has_id i js

unfoldable pub delete_ids : List ℕ → List Subscription → List Subscription
unfolding has_id
delete_ids ids [] = []
delete_ids ids (row ∷ rows) =
    let rest = delete_ids ids rows in if has_id row.id ids then rest else row ∷ rest

-- SELECT ... FROM push_subscriptions WHERE user_id = $1
unfoldable pub subs_of : ℕ → List Subscription → List Subscription
subs_of user_id [] = []
subs_of user_id (row ∷ rows) =
    let rest = subs_of user_id rows in if user_id == row.user_id then row ∷ rest else rest

-- One turn of the loop: `if ok` and `elif dead`.
abbrev pub tally : ℕ → Bool × Bool → ℕ × List ℕ → ℕ × List ℕ
tally id (true, dead) (sent, dead_ids) = (suc sent, dead_ids)
tally id (false, true) (sent, dead_ids) = (sent, id ∷ dead_ids)
tally id (false, false) (sent, dead_ids) = (sent, dead_ids)

module _ (lib : PushLib) where
  -- `getattr(exc.response, "status_code", 0) if exc.response else 0`
  unfoldable pub status_of : Option lib.Response → ℕ
  status_of none = 0
  status_of (some response) = if lib.truth response then lib.status_code response else 0

  unfoldable pub outcome : Delivery lib.Response → Bool × Bool
  unfolding status_of
  outcome delivered = (true, false)
  outcome (push_exception response) =
      (false, status_of response == 404 || status_of response == 410)
  outcome crashed = (false, false)

  unfoldable pub send_one : Subscription → Text → Bool × Bool
  unfolding outcome
  send_one sub payload = outcome (lib.webpush sub.endpoint sub.p256dh sub.auth payload)

  -- The loop over the subscriptions: the count and the ids of the dead ones.
  unfoldable pub send_all : Text → List Subscription → ℕ × List ℕ
  unfolding send_one
  send_all payload [] = (0, [])
  send_all payload (sub ∷ subs) = tally sub.id (send_one sub payload) (send_all payload subs)

  unfoldable pub payload_of : Message → Text
  payload_of m =
      lib.dumps m.title m.body (or_text m.url (codes "/")) (or_text m.tag (codes "scamlens"))

  unfoldable pub send_to_user : Bool → ℕ → Message → Subscriptions → ℕ × Subscriptions
  unfolding payload_of
  send_to_user available user_id m s =
      if not available
      then (0, s)
      else let (sent, dead_ids) = send_all (payload_of m) (subs_of user_id s.rows) in
        (sent, record s { rows = delete_ids dead_ids s.rows })

abbrev pub too_long : ℕ → Option Text → Bool
too_long limit none = false
too_long limit (some t) = ltb limit (length t)

-- The limits of `SubscribeRequest`.
unfoldable pub is_valid : SubscribeRequest → Bool
is_valid body =
    not (ltb 2048 (length body.endpoint))
    && (not (ltb 512 (length body.p256dh))
        && (not (ltb 512 (length body.auth)) && not (too_long 512 body.user_agent)))

-- INSERT INTO push_subscriptions ... ON CONFLICT (user_id, endpoint) DO UPDATE; the sequence gives an
-- id in both cases.
unfoldable pub upsert_subscription : Subscription → List Subscription → List Subscription
upsert_subscription new [] = new ∷ []
upsert_subscription new (row ∷ rows) =
    let rest = upsert_subscription new rows in
    if new.user_id == row.user_id && same new.endpoint row.endpoint
    then record new { id = row.id } ∷ rows
    else row ∷ rest

-- The answer is whether the request was accepted.
unfoldable pub subscribe : ℕ → SubscribeRequest → Subscriptions → Bool × Subscriptions
unfolding upsert_subscription is_valid
subscribe who body s =
    if not (is_valid body)
    then (false, s)
    else let new : Subscription = record {
      id = s.next_id;
      user_id = who;
      endpoint = body.endpoint;
      p256dh = body.p256dh;
      auth = body.auth;
      user_agent = body.user_agent;
    } in
      (true, record { next_id = suc s.next_id; rows = upsert_subscription new s.rows })

-- DELETE FROM push_subscriptions WHERE user_id = $1 AND endpoint = $2
unfoldable pub delete_endpoint : ℕ → Text → List Subscription → List Subscription
delete_endpoint who endpoint [] = []
delete_endpoint who endpoint (row ∷ rows) =
    let rest = delete_endpoint who endpoint rows in
    if who == row.user_id && same endpoint row.endpoint then rest else row ∷ rest

unfoldable pub unsubscribe : ℕ → SubscribeRequest → Subscriptions → Bool × Subscriptions
unfolding delete_endpoint
unsubscribe who body s =
    if not (is_valid body)
    then (false, s)
    else (true, record s { rows = delete_endpoint who body.endpoint s.rows })

-- A request of a user.
pub data Request : Type 0 where
  joins leaves : SubscribeRequest → Request
  notified : Bool → Message → Request

module _ (lib : PushLib) where
  -- The table after some requests, the latest first; a message may come at any time.
  unfoldable pub handle_all : List (ℕ × Request) → Subscriptions
  unfolding subscribe unsubscribe send_to_user
  handle_all [] = record { next_id = 1; rows = [] }
  handle_all ((who, joins body) ∷ earlier) = (subscribe who body (handle_all earlier)).1
  handle_all ((who, leaves body) ∷ earlier) = (unsubscribe who body (handle_all earlier)).1
  handle_all ((who, notified available m) ∷ earlier) =
      (send_to_user lib available who m (handle_all earlier)).1
