-- ===== src/Api/Events/Bounded.antt =====
-- api/events.py: the lengths of the queues.
use scamlens.Base.{
  ℕ, false, ◌==◌, ◌≡◌, ◌≤◌, ◌<◌, refl, arith, List, [], ◌∷◌, ◌++◌, length, length-append, drop, leb,
  if◌then◌else◌, Bool-cases, inl, inr,
}
use scamlens.Api.Events.{
  Stream, Listener, subscribe, discard, unsubscribe, kept, put, put_all, fanout_user, fanout,
  maxsize,
}

abbrev pub room {ℓ} : {A : Type ℓ} → List A → List A
room q = if leb maxsize (length q) then drop 1 q else q

room_fits {ℓ} : {A : Type ℓ} (q : List A) → length q ≤ maxsize → length (room q) < maxsize
room_fits [] h = omega arith
room_fits (x ∷ q) h = elim (Bool-cases (leb maxsize (length (x ∷ q)))) [
  | inl e ↦ rw e (omega (arith, h))
  | inr e ↦ rw e (ground (arith, e))
]

module _ (Event : Type 0) where
  -- A queue of at most `maxsize` events ends with the event that was put last.
  pub put-last :
      (event : Event) (q : List Event)
      → length q ≤ maxsize
      → put Event event q ≡ room q ++ event ∷ []
  unfolding put
  put-last event q h =
      let fits : leb maxsize (length (room q)) ≡ false = ground (arith, room_fits q h) in
      rw fits refl

  -- Every queue holds at most `maxsize` events.
  unfoldable pub AreBounded : List (Stream Event) → Type 0
  AreBounded [] = Unit
  AreBounded (s ∷ ss) = (length s.events ≤ maxsize) × AreBounded ss

  unfoldable pub IsBounded : List (Listener Event) → Type 0
  unfolding AreBounded
  IsBounded [] = Unit
  IsBounded (l ∷ ls) = AreBounded l.streams × IsBounded ls

  pub put-IsBounded :
      (event : Event) (q : List Event) → length q ≤ maxsize → length (put Event event q) ≤ maxsize
  put-IsBounded event q h =
      rw (put-last event q h) (omega (arith, length-append (room q) (event ∷ []), room_fits q h))

  put_all-AreBounded :
      (event : Event) (ss : List (Stream Event))
      → AreBounded ss
      → AreBounded (put_all Event event ss)
  unfolding put_all AreBounded
  put_all-AreBounded event [] h = h
  put_all-AreBounded event (s ∷ ss) h =
      (put-IsBounded event s.events h.0, put_all-AreBounded event ss h.1)

  append-AreBounded :
      (ss : List (Stream Event)) (q : ℕ)
      → AreBounded ss
      → AreBounded (ss ++ record { id = q; events = [] } ∷ [])
  unfolding AreBounded
  append-AreBounded [] q h = (omega arith, tt)
  append-AreBounded (s ∷ ss) q h = (h.0, append-AreBounded ss q h.1)

  discard-AreBounded :
      (q : ℕ) (ss : List (Stream Event)) → AreBounded ss → AreBounded (discard Event q ss)
  unfolding AreBounded discard
  discard-AreBounded q [] h = h
  discard-AreBounded q (s ∷ ss) h = elim (Bool-cases (q == s.id)) [
    | inl e ↦ rw e (discard-AreBounded q ss h.1)
    | inr e ↦ rw e (h.0, discard-AreBounded q ss h.1)
  ]

  subscribe-IsBounded :
      (user_id q : ℕ) (ls : List (Listener Event))
      → IsBounded ls
      → IsBounded (subscribe Event user_id q ls)
  unfolding subscribe IsBounded AreBounded
  subscribe-IsBounded user_id q [] h = ((omega arith, tt), tt)
  subscribe-IsBounded user_id q (l ∷ ls) h = elim (Bool-cases (user_id == l.user_id)) [
    | inl e ↦ rw e (append-AreBounded l.streams q h.0, h.1)
    | inr e ↦ rw e (h.0, subscribe-IsBounded user_id q ls h.1)
  ]

  kept-IsBounded :
      (user_id : ℕ) (ss : List (Stream Event)) (ls : List (Listener Event))
      → AreBounded ss
      → IsBounded ls
      → IsBounded (kept Event (record { user_id = user_id; streams = ss }) ls)
  unfolding kept IsBounded
  kept-IsBounded user_id [] ls h k = k
  kept-IsBounded user_id (s ∷ ss) ls h k = (h, k)

  unsubscribe-IsBounded :
      (user_id q : ℕ) (ls : List (Listener Event))
      → IsBounded ls
      → IsBounded (unsubscribe Event user_id q ls)
  unfolding unsubscribe IsBounded
  unsubscribe-IsBounded user_id q [] h = h
  unsubscribe-IsBounded user_id q (l ∷ ls) h = elim (Bool-cases (user_id == l.user_id)) [
    | inl e ↦ rw e (
        kept-IsBounded l.user_id (discard Event q l.streams) ls (discard-AreBounded q l.streams h.0)
          h.1)
    | inr e ↦ rw e (h.0, unsubscribe-IsBounded user_id q ls h.1)
  ]

  pub fanout_user-IsBounded :
      (uid : ℕ) (event : Event) (ls : List (Listener Event))
      → IsBounded ls
      → IsBounded (fanout_user Event uid event ls)
  unfolding fanout_user IsBounded
  fanout_user-IsBounded uid event [] h = h
  fanout_user-IsBounded uid event (l ∷ ls) h = elim (Bool-cases (uid == l.user_id)) [
    | inl e ↦ rw e (put_all-AreBounded event l.streams h.0, h.1)
    | inr e ↦ rw e (h.0, fanout_user-IsBounded uid event ls h.1)
  ]

  fanout-IsBounded :
      (uids : List ℕ) (event : Event) (ls : List (Listener Event))
      → IsBounded ls
      → IsBounded (fanout Event uids event ls)
  unfolding fanout
  fanout-IsBounded [] event ls h = h
  fanout-IsBounded (uid ∷ uids) event ls h =
      fanout-IsBounded uids event (fanout_user Event uid event ls)
        (fanout_user-IsBounded uid event ls h)

  -- What happens to the bus.
  pub data Step : Type 0 where
    joins : ℕ → ℕ → Step
    leaves : ℕ → ℕ → Step
    happens : List ℕ → Event → Step

  unfoldable pub step : Step → List (Listener Event) → List (Listener Event)
  step (joins user_id q) ls = subscribe Event user_id q ls
  step (leaves user_id q) ls = unsubscribe Event user_id q ls
  step (happens uids event) ls = fanout Event uids event ls

  unfoldable pub steps : List Step → List (Listener Event)
  unfolding step
  steps [] = []
  steps (s ∷ earlier) = step s (steps earlier)

-- After any sequence of subscriptions, ends of them and events, every queue holds at most 64 events.
pub steps-IsBounded :
    (Event : Type 0) (trace : List (Step Event)) → IsBounded Event (steps Event trace)
unfolding steps IsBounded step
steps-IsBounded Event [] = tt
steps-IsBounded Event (joins user_id q ∷ earlier) =
    subscribe-IsBounded Event user_id q (steps Event earlier) (steps-IsBounded Event earlier)
steps-IsBounded Event (leaves user_id q ∷ earlier) =
    unsubscribe-IsBounded Event user_id q (steps Event earlier) (steps-IsBounded Event earlier)
steps-IsBounded Event (happens uids event ∷ earlier) =
    fanout-IsBounded Event uids event (steps Event earlier) (steps-IsBounded Event earlier)
