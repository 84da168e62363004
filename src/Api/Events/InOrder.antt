-- ===== src/Api/Events/InOrder.antt =====
-- api/routers/events.py with api/events.py: what a client reads, against what the bus put.
use scamlens.Base.{
  Bool, true, false, ◌≡◌, ◌≤◌, ◌&&◌, refl, arith, List, [], ◌∷◌, ◌++◌, append_assoc, length, leb,
  ltb, Bool-cases, inl, inr, ap, ◌∙◌, sym,
}
use mathlib.Core.List.{Sublistᴰ}
use mathlib.Core.List.Sublistᴰ
use scamlens.Api.Events.{put, maxsize}
use scamlens.Api.Events.Bounded.{room, put-last, put-IsBounded}
use scamlens.Api.Events.Sse.{
  Turn, puts, polls, Frame, data_frame, keepalive, Feed, poll, turn, feed,
}

module _ {Event : Type 0} where
  -- The events of what was written.
  unfoldable pub events_of : List (Frame Event) → List Event
  events_of [] = []
  events_of (data_frame e ∷ fs) = e ∷ events_of fs
  events_of (keepalive ∷ fs) = events_of fs

  -- The events that the bus put, the oldest first.
  unfoldable pub history : List (Turn Event) → List Event
  history [] = []
  history (puts e ∷ earlier) = history earlier ++ e ∷ []
  history (polls ∷ earlier) = history earlier

  -- What the client has read, and then what waits for it.
  abbrev pub read_and_waiting : Feed Event → List Event
  read_and_waiting f = events_of f.sent ++ f.queue

  events_of-data :
      (fs : List (Frame Event)) (e : Event)
      → events_of (fs ++ data_frame e ∷ []) ≡ events_of fs ++ e ∷ []
  unfolding events_of
  events_of-data [] e = refl
  events_of-data (data_frame d ∷ fs) e = ap (◌∷◌ d) (events_of-data fs e)
  events_of-data (keepalive ∷ fs) e = events_of-data fs e

  events_of-keepalive : (fs : List (Frame Event)) → events_of (fs ++ keepalive ∷ []) ≡ events_of fs
  unfolding events_of
  events_of-keepalive [] = refl
  events_of-keepalive (data_frame d ∷ fs) = ap (◌∷◌ d) (events_of-keepalive fs)
  events_of-keepalive (keepalive ∷ fs) = events_of-keepalive fs

  -- A poll moves an event from what waits to what was read.
  read_and_waiting-poll :
      (q : List Event) (sent : List (Frame Event))
      → read_and_waiting (poll Event q sent) ≡ events_of sent ++ q
  read_and_waiting-poll [] sent = ap (λ es. es ++ []) (events_of-keepalive sent)
  read_and_waiting-poll (e ∷ q) sent =
      ap (λ es. es ++ q) (events_of-data sent e) ∙ append_assoc (events_of sent) (e ∷ []) q

  Sublist-room : (q : List Event) → Sublistᴰ (room q) q
  Sublist-room [] = Sublistᴰ.slnil
  Sublist-room (e ∷ q) = elim (Bool-cases (leb maxsize (length (e ∷ q)))) [
    | inl k ↦ rw k (Sublistᴰ.cons (Sublistᴰ.refl q))
    | inr k ↦ rw k (Sublistᴰ.refl (e ∷ q))
  ]

  queue-fits : (turns : List (Turn Event)) → length (feed Event turns).queue ≤ maxsize
  unfolding feed turn
  queue-fits [] = omega arith
  queue-fits (puts e ∷ earlier) =
      put-IsBounded Event e (feed Event earlier).queue (queue-fits earlier)
  queue-fits (polls ∷ earlier) =
      poll-fits (feed Event earlier).queue (feed Event earlier).sent (queue-fits earlier)
    where
      poll-fits :
          (q : List Event) (sent : List (Frame Event))
          → length q ≤ maxsize
          → length (poll Event q sent).queue ≤ maxsize
      poll-fits [] sent h = h
      poll-fits (e ∷ q) sent h = omega (arith, h)

  -- No event came while 64 were waiting.
  unfoldable pub keeps_up : List (Turn Event) → Bool
  keeps_up [] = true
  keeps_up (puts e ∷ earlier) = ltb (length (feed Event earlier).queue) maxsize && keeps_up earlier
  keeps_up (polls ∷ earlier) = keeps_up earlier

  put-whole :
      (e : Event) (q : List Event) → ltb (length q) maxsize ≡ true → put Event e q ≡ q ++ e ∷ []
  unfolding put
  put-whole e q h =
      let small : leb maxsize (length q) ≡ false = ground (arith, h) in rw small (rw small refl)

-- Whatever the bus puts and whenever the client is read: what the client has read and what waits for
-- it are events that the bus put, each as often at most, and in the order in which it put them.
pub feed-InOrder :
    {Event : Type 0} (turns : List (Turn Event))
    → Sublistᴰ (read_and_waiting (feed Event turns)) (history turns)
unfolding feed turn history events_of
feed-InOrder [] = Sublistᴰ.slnil
feed-InOrder {Event = Event} (puts e ∷ earlier) =
    let f = feed Event earlier in
    let added : read_and_waiting (record f { queue = put Event e f.queue })
        ≡ (events_of f.sent ++ room f.queue) ++ e ∷ [] =
      ap (λ q. events_of f.sent ++ q) (put-last Event e f.queue (queue-fits earlier))
      ∙ sym (append_assoc (events_of f.sent) (room f.queue) (e ∷ [])) in
    rw added (
      Sublistᴰ.append
        (Sublistᴰ.trans (Sublistᴰ.append (Sublistᴰ.refl (events_of f.sent)) (Sublist-room f.queue))
          (feed-InOrder earlier))
        (Sublistᴰ.refl (e ∷ [])))
feed-InOrder {Event = Event} (polls ∷ earlier) =
    let f = feed Event earlier in rw (read_and_waiting-poll f.queue f.sent) (feed-InOrder earlier)

-- If no event comes while 64 are waiting, nothing is lost: what the client has read and what waits for
-- it are all the events that the bus put, in their order.
pub feed-eq-history :
    {Event : Type 0} (turns : List (Turn Event))
    → keeps_up turns ≡ true
    → read_and_waiting (feed Event turns) ≡ history turns
unfolding feed turn history events_of keeps_up
feed-eq-history [] h = refl
feed-eq-history {Event = Event} (puts e ∷ earlier) h =
    let f = feed Event earlier in
    ap (λ q. events_of f.sent ++ q) (put-whole e f.queue (ground (arith, h)))
    ∙ (sym (append_assoc (events_of f.sent) f.queue (e ∷ []))
        ∙ ap (λ es. es ++ e ∷ []) (feed-eq-history earlier (ground (arith, h))))
feed-eq-history {Event = Event} (polls ∷ earlier) h =
    let f = feed Event earlier in read_and_waiting-poll f.queue f.sent ∙ feed-eq-history earlier h
