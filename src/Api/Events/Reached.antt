-- ===== src/Api/Events/Reached.antt =====
-- From dns_server/resolver.py to api/events.py: a blocked query, and who is told.
use scamlens.Base.{ℕ, Bool, true, ◌==◌, ◌||◌, ◌≡◌, Text, List, [], ◌∷◌, Option, some, sym, subst}
use scamlens.Api.Auth.{Account}
use scamlens.Api.Events.Bounded.{Step, steps}
use scamlens.Api.Events.Notify.{Audience, handle_event}
use scamlens.Api.Events.Told.{streams_of, AllEnd, handle_event-told}
use scamlens.Api.Me.{Link, watches}
use scamlens.Api.Push.{Subscriptions, PushLib}
use scamlens.Dns.Cache.{Redis, CacheState}
use scamlens.Dns.Resolver.{DnsLib, Request, Resolver, resolve}
use scamlens.Dns.Resolver.Decision.{query_name}
use scamlens.Dns.Resolver.Published.{resolve-published}
use scamlens.Dns.Resolver.Tasks.{BlockEvent, World, run_tasks}

module _ (push : PushLib) (available : Bool) (accounts : List Account) (links : List Link) where
  -- Each event of the channel, in its order.
  unfoldable pub handle_events : List BlockEvent → Audience → Audience
  handle_events [] a = a
  handle_events (e ∷ es) a = handle_events es (handle_event push available accounts links e a)

-- A query of a known user that is blocked, whose tasks run with the channel at work and no earlier
-- event on it: one event with the query's name is published, and after it is handled every queue of
-- the user, and of each guardian that watches the user, ends with it.
pub resolve-told :
    (push : PushLib) (available : Bool) (accounts : List Account) (links : List Link)
    (trace : List (Step BlockEvent)) (subs : Subscriptions) (v : ℕ) (lib : DnsLib) (res : Resolver)
    (ask : Text → Option Text) (r : Redis) (s : CacheState r) (wire : Text) (request : Request)
    (ip : Option Text) (user : ℕ) (pool works : Bool) (now : ℕ) (w : World r)
    → lib.parse wire ≡ some request
    → (resolve lib res ask r s wire ip (some user)).0.blocked ≡ true
    → w.events ≡ []
    → (v == user || watches v user links) ≡ true
    → let published =
        (run_tasks lib ask r res.cfg pool works true now
          (resolve lib res ask r s wire ip (some user)).1
          w).events in
      let before : Audience = record { listeners = steps BlockEvent trace; subs = subs } in
      (e : BlockEvent) × (published ≡ e ∷ [])
      × (e.domain ≡ query_name request)
      × AllEnd BlockEvent e (
          streams_of BlockEvent v
            (handle_events push available accounts links published before).listeners)
unfolding handle_events
resolve-told push available accounts links trace subs v lib res ask r s wire request ip user pool
      works now w parsed blocked quiet told =
    let (e, only, name, whose) =
      resolve-published lib res ask r s wire request ip user pool works now w parsed blocked
        quiet in
    let before : Audience = record { listeners = steps BlockEvent trace; subs = subs } in
    let told_e : (v == e.user_id || watches v e.user_id links) ≡ true = rw whose told in
    (
      e,
      only,
      name,
      subst
          (λ es. AllEnd BlockEvent e (
            streams_of BlockEvent v
              (handle_events push available accounts links es before).listeners))
          (sym only) (handle_event-told push available accounts links e trace subs v told_e),
    )
