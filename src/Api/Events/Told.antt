-- ===== src/Api/Events/Told.antt =====
-- api/events.py with api/routers/me.py and api/push.py: who is told of a block.
use scamlens.Base.{
  ℕ, Text, Bool, true, false, ◌==◌, ◌&&◌, ◌||◌, ◌⊎◌, ◌≡◌, refl, arith, List, [], ◌∷◌, ◌++◌,
  if◌then◌else◌, Bool-cases, inl, inr, ◌∙◌, ap, All,
}
use scamlens.Api.Auth.{Account}
use scamlens.Api.Events.{Stream, Listener, put_all, fanout_user, fanout}
use scamlens.Api.Events.Bounded.{
  room, put-last, AreBounded, IsBounded, fanout_user-IsBounded, Step, steps, steps-IsBounded,
}
use scamlens.Api.Events.Notify.{guardians_of, Audience, push_all, message_of, handle_event}
use scamlens.Api.Me.{User, Link, Request, watches, handle_all}
use scamlens.Api.Me.Consent.{agreed, watches-agreed}
use scamlens.Api.Push.{
  Subscription, Subscriptions, PushLib, Message, subs_of, payload_of, send_to_user,
}
use scamlens.Api.Push.Keyed.{IsKeyed, send_to_user-IsKeyed}
use scamlens.Api.Push.Pruned.{is_gone, sending, without_gone, send_to_user_lem}
use scamlens.Dns.Resolver.Tasks.{BlockEvent}

unfoldable has_user : ℕ → List ℕ → Bool
has_user v [] = false
has_user v (u ∷ us) = v == u || has_user v us

has_user-guardians_of :
    (v w : ℕ) (links : List Link) → has_user v (guardians_of w links) ≡ watches v w links
unfolding has_user guardians_of watches
has_user-guardians_of v w [] = refl
has_user-guardians_of v w (l ∷ ls) = ground (arith, has_user-guardians_of v w ls)

module _ (Event : Type 0) where
  -- `_listeners.get(user, ())`
  unfoldable pub streams_of : ℕ → List (Listener Event) → List (Stream Event)
  streams_of v [] = []
  streams_of v (l ∷ ls) = let rest = streams_of v ls in if v == l.user_id then l.streams else rest

  -- The queue ends with the event.
  abbrev pub EndsWith : Event → List Event → Type 0
  EndsWith event q = (before : List Event) × (q ≡ before ++ event ∷ [])

  abbrev pub AllEnd : Event → List (Stream Event) → Type 0
  AllEnd event ss = All (λ (s : Stream Event). EndsWith event s.events) ss

  streams_of-fanout_user :
      (v uid : ℕ) (event : Event) (ls : List (Listener Event))
      → streams_of v (fanout_user Event uid event ls)
        ≡ (if v == uid then put_all Event event (streams_of v ls) else streams_of v ls)
  unfolding streams_of fanout_user put_all
  streams_of-fanout_user v uid event [] = ground arith
  streams_of-fanout_user v uid event (l ∷ ls) =
      ground (arith, streams_of-fanout_user v uid event ls)

  streams_of-AreBounded :
      (v : ℕ) (ls : List (Listener Event)) → IsBounded Event ls → AreBounded Event (streams_of v ls)
  unfolding streams_of IsBounded AreBounded
  streams_of-AreBounded v [] h = tt
  streams_of-AreBounded v (l ∷ ls) h = elim (Bool-cases (v == l.user_id)) [
    | inl e ↦ rw e h.0
    | inr e ↦ rw e (streams_of-AreBounded v ls h.1)
  ]

  put_all-AllEnd :
      (event : Event) (ss : List (Stream Event))
      → AreBounded Event ss
      → AllEnd event (put_all Event event ss)
  unfolding put_all AreBounded
  put_all-AllEnd event [] h = tt
  put_all-AllEnd event (s ∷ ss) h =
      ((room s.events, put-last Event event s.events h.0), put_all-AllEnd event ss h.1)

  fanout-kept :
      (v : ℕ) (uids : List ℕ) (event : Event) (ls : List (Listener Event))
      → has_user v uids ≡ false
      → streams_of v (fanout Event uids event ls) ≡ streams_of v ls
  unfolding fanout has_user
  fanout-kept v [] event ls h = refl
  fanout-kept v (u ∷ us) event ls h =
      fanout-kept v us event (fanout_user Event u event ls) (ground (arith, h))
      ∙ streams_of-fanout_user v u event ls
      ∙ ground (arith, h)

  fanout_user-AllEnd :
      (v uid : ℕ) (event : Event) (ls : List (Listener Event))
      → IsBounded Event ls
      → ((v == uid) ≡ true) ⊎ AllEnd event (streams_of v ls)
      → AllEnd event (streams_of v (fanout_user Event uid event ls))
  fanout_user-AllEnd v uid event ls bounded told = elim (Bool-cases (v == uid)) [
    | inl e ↦
        rw (streams_of-fanout_user v uid event ls)
          (rw e (put_all-AllEnd event (streams_of v ls) (streams_of-AreBounded v ls bounded)))
    | inr e ↦
        rw (streams_of-fanout_user v uid event ls) (rw e (elim told [ inl h ↦ cc | inr k ↦ k ]))
  ]

  fanout-told :
      (v : ℕ) (uids : List ℕ) (event : Event) (ls : List (Listener Event))
      → IsBounded Event ls
      → (has_user v uids ≡ true) ⊎ AllEnd event (streams_of v ls)
      → AllEnd event (streams_of v (fanout Event uids event ls))
  unfolding fanout has_user
  fanout-told v [] event ls bounded (inl e) = cc
  fanout-told v [] event ls bounded (inr e) = e
  fanout-told v (u ∷ us) event ls bounded told =
      fanout-told v us event (fanout_user Event u event ls)
        (fanout_user-IsBounded Event u event ls bounded)
        (elim (Bool-cases (v == u)) [
          | inl e ↦ inr (fanout_user-AllEnd v u event ls bounded (inl e))
          | inr e ↦ elim told [
            | inl h ↦ inl (ground (arith, h, e))
            | inr k ↦ inr (fanout_user-AllEnd v u event ls bounded (inr k))
          ]
        ])

module _ (lib : PushLib) where
  subs_of-without_gone :
      (payload : Text) (v uid : ℕ) (rows : List Subscription)
      → v == uid ≡ false
      → subs_of v (without_gone lib payload uid rows) ≡ subs_of v rows
  unfolding subs_of without_gone
  subs_of-without_gone payload v uid [] h = refl
  subs_of-without_gone payload v uid (row ∷ rows) h =
      let ih = subs_of-without_gone payload v uid rows h in
      elim (Bool-cases (uid == row.user_id && is_gone lib (sending lib payload row))) [
        | inl e ↦ rw e (ih ∙ ground (arith, e, h))
        | inr e ↦ rw e (ground (arith, ih))
      ]

  push_all-kept :
      (available : Bool) (m : Message) (v : ℕ) (uids : List ℕ) (s : Subscriptions)
      → IsKeyed s
      → has_user v uids ≡ false
      → subs_of v (push_all lib available m uids s).rows ≡ subs_of v s.rows
  unfolding push_all has_user send_to_user
  push_all-kept available m v [] s keyed h = refl
  push_all-kept false m v (u ∷ us) s keyed h =
      push_all-kept false m v us s keyed (ground (arith, h))
  push_all-kept true m v (u ∷ us) s keyed h =
      push_all-kept true m v us (send_to_user lib true u m s).1
        (send_to_user-IsKeyed lib true u m s keyed) (ground (arith, h))
      ∙ (ap (λ (t : Subscriptions). subs_of v t.rows) (send_to_user_lem lib u m s keyed).1
          ∙ subs_of-without_gone (payload_of lib m) v u s.rows (ground (arith, h)))

-- After any use of the event streams: every queue of the user whose query was blocked, and of each
-- guardian that watches the user, ends with the event.
pub handle_event-told :
    (lib : PushLib) (available : Bool) (accounts : List Account) (links : List Link)
    (event : BlockEvent) (trace : List (Step BlockEvent)) (subs : Subscriptions) (v : ℕ)
    → (v == event.user_id || watches v event.user_id links) ≡ true
    → let before : Audience = record { listeners = steps BlockEvent trace; subs = subs } in
      AllEnd BlockEvent event
        (streams_of BlockEvent v (handle_event lib available accounts links event before).listeners)
unfolding handle_event has_user
handle_event-told lib available accounts links event trace subs v told =
    fanout-told BlockEvent v (event.user_id ∷ guardians_of event.user_id links) event
      (steps BlockEvent trace) (steps-IsBounded BlockEvent trace)
      (inl (ground (arith, told, has_user-guardians_of v event.user_id links)))

-- Whatever requests about guardians were handled: of a block of one user, another who has no invite
-- that the user accepted is told nothing: the queues of its streams are as they were, and so are its
-- subscriptions, where the ids of the table are distinct.
pub handle_event-private :
    (lib : PushLib) (available : Bool) (accounts : List Account) (users : List User)
    (requests : List (User × Request)) (event : BlockEvent) (a : Audience) (v : ℕ)
    → IsKeyed a.subs
    → v == event.user_id ≡ false
    → agreed users v event.user_id requests ≡ false
    → let after = handle_event lib available accounts (handle_all users requests).rows event a in
      (streams_of BlockEvent v after.listeners ≡ streams_of BlockEvent v a.listeners)
      × (subs_of v after.subs.rows ≡ subs_of v a.subs.rows)
unfolding handle_event has_user
handle_event-private lib available accounts users requests event a v keyed other refused =
    let links = (handle_all users requests).rows in
    let unwatched : watches v event.user_id links ≡ false =
      elim (Bool-cases (watches v event.user_id links)) [
        | inl e ↦ cc (watches-agreed users v event.user_id requests e, refused)
        | inr e ↦ e
      ] in
    let out : has_user v (event.user_id ∷ guardians_of event.user_id links) ≡ false =
      ground (arith, other, unwatched, has_user-guardians_of v event.user_id links) in
    (
      fanout-kept BlockEvent v (event.user_id ∷ guardians_of event.user_id links) event a.listeners
          out,
      push_all-kept lib available (message_of accounts event) v
          (event.user_id ∷ guardians_of event.user_id links) a.subs keyed out,
    )
