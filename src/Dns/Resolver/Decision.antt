-- ===== src/Dns/Resolver/Decision.antt =====
-- Which queries are blocked, and what is left behind.
use scamlens.Base.{
  ℕ, suc, Bool, true, false, not, ◌&&◌, ◌||◌, ◌≡◌, ◌↔◌, ◌⊎◌, inl, inr, refl, arith, Text, List, [],
  ◌∷◌, Option, none, some, codes, is_some, if◌then◌else◌, Bool-cases, rstrip, lower,
}
use scamlens.Dns.Cache.{Redis, CacheState, Verdict, is_blocking}
use scamlens.Dns.Typosquat.Detector.{check}
use scamlens.Dns.Resolver.{
  DnsLib, Request, Resolver, Task, log, enqueue, is_bypass, looks_scannable, match_chain, block,
  block_with_brand, forward, cache_lookup, undecided, by_cache, is_nil, is_safe, resolve_request,
  resolve, blocklist_verdict, block_reply, Outcome,
}

abbrev pub query_name : Request → Text
query_name request = lower (rstrip (codes ".") request.qname)

abbrev pub logs : List Task → ℕ
logs [] = 0
logs (log b ∷ ts) = suc (logs ts)
logs (t ∷ ts) = logs ts

abbrev pub enqueues : List Task → List Text
enqueues [] = []
enqueues (enqueue d ∷ ts) = d ∷ enqueues ts
enqueues (t ∷ ts) = enqueues ts

-- The cache has no verdict that ends the search.
abbrev pub is_open : Option Verdict → Bool
is_open none = true
is_open (some v) = not (is_blocking v) && not (is_safe v.verdict)

abbrev pub blocks : Option Verdict → Bool
blocks none = false
blocks (some v) = is_blocking v

module _ (lib : DnsLib) (res : Resolver) (ask : Text → Option Text) (r : Redis)
    (s : CacheState r) where
  abbrev pub is_typosquat : Text → Bool
  is_typosquat q = is_some (check res.raw_first res.raw_first_token res.brands q)

  -- The scan queue gets the name if nothing is known of it and it can be scanned.
  abbrev pub wants_scan : Request → Text → Bool → Bool
  wants_scan request q uncached =
      not (is_typosquat q) && (uncached && looks_scannable q request.qtype)

  -- What a blocked query and any other leave.
  record IsRight (o : Outcome) (request : Request) (wire q : Text) (blocked : Bool) (scan : Bool)
      : Type 0 where
    reply : o.0.wire ≡ (
        if blocked
        then lib.pack request (block_reply res.cfg request.qtype)
        else (forward lib res ask request wire q).wire)
    decision : o.0.blocked ≡ blocked
    name : o.0.domain ≡ q
    logged : logs o.1 ≡ (if blocked then 1 else 0)
    queued : enqueues o.1 ≡ (if scan then q ∷ [] else [])

  forward-name :
      (request : Request) (wire q : Text) → (forward lib res ask request wire q).domain ≡ q
  unfolding forward
  forward-name request wire q = ground arith

  pub forward-blocked :
      (request : Request) (wire q : Text) → (forward lib res ask request wire q).blocked ≡ false
  unfolding forward
  forward-blocked request wire q = ground arith

  forward-IsRight :
      (request : Request) (wire q : Text)
      → IsRight (forward lib res ask request wire q, []) request wire q false false
  forward-IsRight request wire q = record {
    reply = refl;
    decision = forward-blocked request wire q;
    name = forward-name request wire q;
    logged = refl;
    queued = refl;
  }

  block-IsRight :
      (request : Request) (wire q : Text) (v : Verdict) (ip : Option Text) (user : Option ℕ)
      → IsRight (block lib res ask request q v ip user) request wire q true false
  unfolding block
  block-IsRight request wire q v ip user = ground arith

  undecided-IsRight :
      (request : Request) (wire q : Text) (uncached : Bool) (ip : Option Text) (user : Option ℕ)
      → IsRight
          (undecided lib res ask r s request wire q uncached ip user)
          request
          wire
          q
          (is_typosquat q)
          (wants_scan request q uncached)
  unfolding undecided block_with_brand
  undecided-IsRight request wire q uncached ip user =
      ground (arith, forward-blocked request wire q, forward-name request wire q)

  by_cache-IsRight :
      (request : Request) (wire q : Text) (o : Option Verdict) (ip : Option Text) (user : Option ℕ)
      → IsRight
          (by_cache lib res ask r s request wire q o ip user)
          request
          wire
          q
          (blocks o || (is_open o && is_typosquat q))
          (is_open o && wants_scan request q (not (is_some o)))
  unfolding by_cache
  by_cache-IsRight request wire q none ip user = undecided-IsRight request wire q true ip user
  by_cache-IsRight request wire q (some v) ip user = elim (Bool-cases (is_blocking v)) [
    | inl e ↦ rw e (block-IsRight request wire q v ip user)
    | inr e ↦ rw e (elim (Bool-cases (is_safe v.verdict)) [
      | inl f ↦ rw f (forward-IsRight request wire q)
      | inr f ↦ rw f (undecided-IsRight request wire q false ip user)
    ])
  ]

  -- The name can be blocked: it is there, needs no bypass and is not on the whitelist.
  abbrev pub may_block : Text → Bool
  may_block q = not (is_nil q || is_bypass q) && not (match_chain q res.whitelist)

  abbrev pub should_block : Text → Bool
  should_block q =
      may_block q
      && (match_chain q res.blocklist
          || (blocks (cache_lookup lib res ask r s q)
              || (is_open (cache_lookup lib res ask r s q) && is_typosquat q)))

  abbrev pub should_scan : Request → Text → Bool
  should_scan request q =
      may_block q
      && (not (match_chain q res.blocklist)
          && (is_open (cache_lookup lib res ask r s q)
              && wants_scan request q (not (is_some (cache_lookup lib res ask r s q)))))

  resolve_request-IsRight :
      (request : Request) (wire : Text) (ip : Option Text) (user : Option ℕ)
      → IsRight
          (resolve_request lib res ask r s request wire ip user)
          request
          wire
          (query_name request)
          (should_block (query_name request))
          (should_scan request (query_name request))
  unfolding resolve_request
  resolve_request-IsRight request wire ip user =
      let q = query_name request in
      elim (Bool-cases (is_nil q || is_bypass q)) [
        | inl e ↦ rw e (forward-IsRight request wire q)
        | inr e ↦ rw e (elim (Bool-cases (match_chain q res.whitelist)) [
          | inl f ↦ rw f (forward-IsRight request wire q)
          | inr f ↦ rw f (elim (Bool-cases (match_chain q res.blocklist)) [
            | inl g ↦ rw g (block-IsRight request wire q blocklist_verdict ip user)
            | inr g ↦
                rw g (by_cache-IsRight request wire q (cache_lookup lib res ask r s q) ip user)
          ])
        ])
      ]

-- What makes a name blocked: the blocklist has it or a parent of it; or the nearest cached verdict
-- is scam or suspicious; or that verdict is missing or pending and the typosquat detector
-- reports the name.
abbrev pub Reason :
    DnsLib → (res : Resolver) → (Text → Option Text) → (r : Redis) → CacheState r → Text → Type 0
Reason lib res ask r s q =
    (match_chain q res.blocklist ≡ true)
    ⊎ (blocks (cache_lookup lib res ask r s q) ≡ true)
    ⊎ ((is_open (cache_lookup lib res ask r s q) ≡ true) × (is_typosquat lib res ask r s q ≡ true))

-- For every request that parses, every resolver, cache and upstream: `resolve` blocks the query
-- exactly when its name is not empty, is no bypass name, neither it nor a parent is on the
-- whitelist, and there is a reason: it or a parent is on the blocklist; or the nearest cached
-- verdict is scam or suspicious; or there is no such verdict or it is pending, and the typosquat
-- detector reports the name.
pub resolve-blocked_iff :
    (lib : DnsLib) (res : Resolver) (ask : Text → Option Text) (r : Redis) (s : CacheState r)
    (wire : Text) (request : Request) (ip : Option Text) (user : Option ℕ)
    → lib.parse wire ≡ some request
    → ((resolve lib res ask r s wire ip user).0.blocked ≡ true) ↔ (
        (is_nil (query_name request) ≡ false)
        × (is_bypass (query_name request) ≡ false)
        × (match_chain (query_name request) res.whitelist ≡ false)
        × Reason lib res ask r s (query_name request))
unfolding resolve
resolve-blocked_iff lib res ask r s wire request ip user e =
    rw (e, resolve)
      (rw ((resolve_request-IsRight lib res ask r s request wire ip user).decision) (ground arith))

-- For every request that parses: a blocked query is answered with the block page's address, an
-- empty answer or NXDOMAIN by its type, whatever the upstream says; it leaves one log task and
-- puts nothing on the scan queue. A query that is not blocked is answered by the upstream, or by
-- SERVFAIL, and leaves no log task; it puts its name on the scan queue, once, exactly when the
-- name may be blocked and is not on the blocklist, nothing is cached for it or a parent, the
-- detector does not report it, and its type and name can be scanned.
pub resolve-effects :
    (lib : DnsLib) (res : Resolver) (ask : Text → Option Text) (r : Redis) (s : CacheState r)
    (wire : Text) (request : Request) (ip : Option Text) (user : Option ℕ)
    → lib.parse wire ≡ some request
    → ((resolve lib res ask r s wire ip user).0.wire ≡ (
        if (resolve lib res ask r s wire ip user).0.blocked
        then lib.pack request (block_reply res.cfg request.qtype)
        else (forward lib res ask request wire (query_name request)).wire))
      × (logs (resolve lib res ask r s wire ip user).1
          ≡ (if (resolve lib res ask r s wire ip user).0.blocked then 1 else 0))
      × (enqueues (resolve lib res ask r s wire ip user).1 ≡ (
          if should_scan lib res ask r s request (query_name request)
          then query_name request ∷ []
          else []))
unfolding resolve
resolve-effects lib res ask r s wire request ip user e =
    let right = resolve_request-IsRight lib res ask r s request wire ip user in
    rw (e, resolve) (rw (right.decision) (right.reply, right.logged, right.queued))
