-- ===== src/Dns/Resolver/Enqueue.antt =====
-- dns_server/resolver.py: `_enqueue_if_new` and the window of the rate limit.
use scamlens.Base.{ℕ, ◌≡◌, ◌<◌, Text, ◌++◌, none, some, codes, Option-cases, inl, inr}
use scamlens.Dns.Cache.{
  Redis, CacheState, Payload, pending_payload, rate_limit_ok, mark_pending, enqueue_scan,
}
use scamlens.Dns.Resolver.{Config}
use scamlens.Dns.Resolver.Tasks.{enqueue_if_new}

module _ (r : Redis) where
  -- That many seconds pass for both key spaces.
  abbrev pub wait : ℕ → CacheState r → CacheState r
  wait t s = record s {
    verdicts = r.verdicts.elapse t s.verdicts;
    limits = r.marks.elapse t s.limits;
  }

  -- The limit key is held: nothing happens.
  limited_lem :
      (cfg : Config) (now : ℕ) (domain w : Text) (s : CacheState r)
      → r.marks.get (codes "rl:" ++ domain) s.limits ≡ some w
      → enqueue_if_new r cfg now domain s ≡ s
  unfolding enqueue_if_new rate_limit_ok
  limited_lem cfg now domain w s h =
      rw (r.marks.set_nx-held (codes "rl:" ++ domain) (codes "1") w 60 s.limits h)

  -- The state after a call for a domain whose limit key is free.
  abbrev limit_set : Text → CacheState r → CacheState r
  limit_set domain s = record s {
    limits = r.marks.set (codes "rl:" ++ domain) (codes "1") 60 s.limits;
  }

  free_known :
      (cfg : Config) (now : ℕ) (domain : Text) (v : Payload) (s : CacheState r)
      → r.marks.get (codes "rl:" ++ domain) s.limits ≡ none
      → r.verdicts.get (codes "verdict:" ++ domain) s.verdicts ≡ some v
      → enqueue_if_new r cfg now domain s ≡ limit_set domain s
  unfolding enqueue_if_new rate_limit_ok mark_pending
  free_known cfg now domain v s h k =
      rw (r.marks.set_nx-free (codes "rl:" ++ domain) (codes "1") 60 s.limits h) (
        rw (
          r.verdicts.set_nx-held (codes "verdict:" ++ domain) (pending_payload now) v
            cfg.unknown_ttl s.verdicts k))

  abbrev enqueued : Config → ℕ → Text → CacheState r → CacheState r
  enqueued cfg now domain s = record {
    verdicts =
        r.verdicts.set (codes "verdict:" ++ domain) (pending_payload now) cfg.unknown_ttl
          s.verdicts;
    limits = r.marks.set (codes "rl:" ++ domain) (codes "1") 60 s.limits;
    queue = r.queue.lpush domain s.queue;
  }

  free_new :
      (cfg : Config) (now : ℕ) (domain : Text) (s : CacheState r)
      → r.marks.get (codes "rl:" ++ domain) s.limits ≡ none
      → r.verdicts.get (codes "verdict:" ++ domain) s.verdicts ≡ none
      → enqueue_if_new r cfg now domain s ≡ enqueued cfg now domain s
  unfolding enqueue_if_new rate_limit_ok mark_pending enqueue_scan
  free_new cfg now domain s h k =
      rw (r.marks.set_nx-free (codes "rl:" ++ domain) (codes "1") 60 s.limits h) (
        rw (
          r.verdicts.set_nx-free (codes "verdict:" ++ domain) (pending_payload now) cfg.unknown_ttl
            s.verdicts k))

  limits-enqueue_if_new :
      (cfg : Config) (now : ℕ) (domain : Text) (s : CacheState r)
      → r.marks.get (codes "rl:" ++ domain) s.limits ≡ none
      → (enqueue_if_new r cfg now domain s).limits ≡ (limit_set domain s).limits
  limits-enqueue_if_new cfg now domain s h =
      elim (Option-cases (r.verdicts.get (codes "verdict:" ++ domain) s.verdicts)) [
        | inl e ↦ rw (free_new cfg now domain s h e)
        | inr (v, e) ↦ rw (free_known cfg now domain v s h e)
      ]

-- For a domain whose rate-limit key is free: `_enqueue_if_new` pushes it on the scan queue and
-- leaves a pending verdict exactly if no verdict is cached for it, and changes neither otherwise;
-- and in the 60 seconds that follow a second call for the domain changes nothing at all.
pub enqueue_if_new_once :
    (r : Redis) (cfg : Config) (now later t : ℕ) (domain : Text) (s : CacheState r)
    → r.marks.get (codes "rl:" ++ domain) s.limits ≡ none
    → t < 60
    → ((enqueue_if_new r cfg now domain s).queue
        ≡ elim (r.verdicts.get (codes "verdict:" ++ domain) s.verdicts) [
          | none ↦ r.queue.lpush domain s.queue
          | some v ↦ s.queue
        ])
      × ((enqueue_if_new r cfg now domain s).verdicts
          ≡ elim (r.verdicts.get (codes "verdict:" ++ domain) s.verdicts) [
            | none ↦
                r.verdicts.set
                  (codes "verdict:" ++ domain)
                  (pending_payload now)
                  cfg.unknown_ttl
                  s.verdicts
            | some v ↦ s.verdicts
          ])
      × (enqueue_if_new r cfg later domain (wait r t (enqueue_if_new r cfg now domain s))
          ≡ wait r t (enqueue_if_new r cfg now domain s))
enqueue_if_new_once r cfg now later t domain s h lt =
    let held : r.marks.get (codes "rl:" ++ domain)
          (r.marks.elapse t (enqueue_if_new r cfg now domain s).limits)
        ≡ some (codes "1") =
      rw (limits-enqueue_if_new r cfg now domain s h)
        (r.marks.get-elapse_kept (codes "rl:" ++ domain) (codes "1") 60 t s.limits lt) in
    let still =
      limited_lem r cfg later domain (codes "1") (wait r t (enqueue_if_new r cfg now domain s))
        held in
    elim (Option-cases (r.verdicts.get (codes "verdict:" ++ domain) s.verdicts)) [
      | inl e ↦
          (rw (e, free_new r cfg now domain s h e), rw (e, free_new r cfg now domain s h e), still)
      | inr (v, e) ↦ (
        rw (e, free_known r cfg now domain v s h e),
        rw (e, free_known r cfg now domain v s h e),
        still,
      )
    ]
