-- ===== src/Api/Events.antt =====
-- api/events.py: the queues of the open event streams, by user. A queue has a number for its identity.
pub mod Bounded
pub mod Notify
pub mod Told
pub mod Sse
pub mod InOrder
pub mod Reached
use scamlens.Base.{
  ℕ, Bool, true, false, not, ◌==◌, Text, List, [], ◌∷◌, ◌++◌, length, drop, leb, if◌then◌else◌,
}

abbrev pub maxsize : ℕ
maxsize = 64

module _ (Event : Type 0) where
  pub record Stream : Type 0 where
    pub id : ℕ
    pub events : List Event

  -- An entry of `_listeners`: a user and the set of its queues.
  pub record Listener : Type 0 where
    pub user_id : ℕ
    pub streams : List Stream

  unfoldable pub subscribe : ℕ → ℕ → List Listener → List Listener
  subscribe user_id q [] =
      record { user_id = user_id; streams = record { id = q; events = [] } ∷ [] } ∷ []
  subscribe user_id q (l ∷ ls) =
      let rest = subscribe user_id q ls in
      if user_id == l.user_id
      then record l { streams = l.streams ++ record { id = q; events = [] } ∷ [] } ∷ ls
      else l ∷ rest

  unfoldable pub discard : ℕ → List Stream → List Stream
  discard q [] = []
  discard q (s ∷ ss) = let rest = discard q ss in if q == s.id then rest else s ∷ rest

  -- An entry whose set is empty goes.
  unfoldable pub kept : Listener → List Listener → List Listener
  kept l ls = elim (l.streams) [ [] ↦ ls | ◌∷◌ s ss ↦ l ∷ ls ]

  unfoldable pub unsubscribe : ℕ → ℕ → List Listener → List Listener
  unfolding discard kept
  unsubscribe user_id q [] = []
  unsubscribe user_id q (l ∷ ls) =
      let rest = unsubscribe user_id q ls in
      if user_id == l.user_id
      then kept (record l { streams = discard q l.streams }) ls
      else l ∷ rest

  -- A full queue drops its oldest event first.
  unfoldable pub put : Event → List Event → List Event
  put event q =
      let room = if leb maxsize (length q) then drop 1 q else q in
      if leb maxsize (length room) then room else room ++ event ∷ []

  unfoldable pub put_all : Event → List Stream → List Stream
  unfolding put
  put_all event [] = []
  put_all event (s ∷ ss) = record s { events = put event s.events } ∷ put_all event ss

  unfoldable pub fanout_user : ℕ → Event → List Listener → List Listener
  unfolding put_all
  fanout_user uid event [] = []
  fanout_user uid event (l ∷ ls) =
      let rest = fanout_user uid event ls in
      if uid == l.user_id then record l { streams = put_all event l.streams } ∷ ls else l ∷ rest

  unfoldable pub fanout : List ℕ → Event → List Listener → List Listener
  unfolding fanout_user
  fanout [] event ls = ls
  fanout (uid ∷ uids) event ls = fanout uids event (fanout_user uid event ls)
