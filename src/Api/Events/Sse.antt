-- ===== src/Api/Events/Sse.antt =====
-- api/routers/events.py: the stream of one client, `sse_blocks`. What happens is a list of turns, the
-- latest first: the bus puts an event into the queue, or the stream waits for the next one, for 30
-- seconds at most.
use scamlens.Base.{List, [], ◌∷◌, ◌++◌}
use scamlens.Api.Events.{put}

module _ (Event : Type 0) where
  pub data Turn : Type 0 where
    puts : Event → Turn
    polls : Turn

  -- What is written: an event, or the comment that keeps the connection open.
  pub data Frame : Type 0 where
    data_frame : Event → Frame
    keepalive : Frame

  pub record Feed : Type 0 where
    pub queue : List Event
    pub sent : List Frame

  abbrev pub poll : List Event → List Frame → Feed
  poll [] sent = record { queue = []; sent = sent ++ keepalive ∷ [] }
  poll (e ∷ q) sent = record { queue = q; sent = sent ++ data_frame e ∷ [] }

  unfoldable pub turn : Turn → Feed → Feed
  turn (puts e) f = record f { queue = put Event e f.queue }
  turn polls f = poll f.queue f.sent

  unfoldable pub feed : List Turn → Feed
  unfolding turn
  feed [] = record { queue = []; sent = [] }
  feed (t ∷ earlier) = turn t (feed earlier)
