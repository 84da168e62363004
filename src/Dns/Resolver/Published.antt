-- ===== src/Dns/Resolver/Published.antt =====
-- dns_server/resolver.py: the events that the tasks of a query publish.
use scamlens.Base.{
  ℕ, Bool, true, false, ◌||◌, ◌&&◌, ◌≡◌, refl, Text, List, [], ◌∷◌, ◌++◌, append-nil, append_assoc,
  Option, none, some, same, codes, if◌then◌else◌, Bool-cases, Option-cases, inl, inr, ap, ◌∙◌, sym,
}
use scamlens.Dns.Cache.{Redis, CacheState, Verdict}
use scamlens.Dns.Resolver.{
  DnsLib, Resolver, Request, Config, Task, save, log, promote, enqueue, Outcome, block,
  block_with_brand, forward, undecided, by_cache, is_safe, resolve_request, resolve, is_nil,
  is_bypass, match_chain, cache_lookup, blocklist_verdict, looks_scannable,
}
use scamlens.Dns.Cache.{is_blocking}
use scamlens.Dns.Resolver.Decision.{query_name, forward-blocked}
use scamlens.Dns.Resolver.Tasks.{BlockEvent, World, publish, resolve_then_log, run_task, run_tasks}
use scamlens.Dns.Typosquat.Detector.{check}

-- The names and users of the log tasks.
abbrev pub logged : List Task → List (Text × Option ℕ)
logged [] = []
logged (log b ∷ ts) = (b.domain, b.user_id) ∷ logged ts
logged (t ∷ ts) = logged ts

-- Those with a user are published.
abbrev pub known : List (Text × Option ℕ) → List (Text × ℕ)
known [] = []
known ((d, none) ∷ xs) = known xs
known ((d, some u) ∷ xs) = (d, u) ∷ known xs

abbrev pub heard : List BlockEvent → List (Text × ℕ)
heard [] = []
heard (e ∷ es) = (e.domain, e.user_id) ∷ heard es

heard-append :
    (es : List BlockEvent) (e : BlockEvent)
    → heard (es ++ e ∷ []) ≡ heard es ++ (e.domain, e.user_id) ∷ []
heard-append [] e = refl
heard-append (f ∷ es) e = ap (◌∷◌ (f.domain, f.user_id)) (heard-append es e)

module _ (lib : DnsLib) (res : Resolver) (ask : Text → Option Text) (r : Redis)
    (s : CacheState r) where
  abbrev IsLogged : Outcome → Text → Option ℕ → Type 0
  IsLogged o q user = logged o.1 ≡ (if o.0.blocked then (q, user) ∷ [] else [])

  block-IsLogged :
      (request : Request) (q : Text) (v : Verdict) (ip : Option Text) (user : Option ℕ)
      → IsLogged (block lib res ask request q v ip user) q user
  unfolding block
  block-IsLogged request q v ip user = elim (Bool-cases (same v.source (codes "blocklist"))) [
    | inl e ↦ rw e refl
    | inr e ↦ rw e refl
  ]

  forward-IsLogged :
      (request : Request) (wire q : Text) (user : Option ℕ)
      → IsLogged (forward lib res ask request wire q, []) q user
  forward-IsLogged request wire q user = rw (forward-blocked lib res ask r s request wire q) refl

  undecided-IsLogged :
      (request : Request) (wire q : Text) (uncached : Bool) (ip : Option Text) (user : Option ℕ)
      → IsLogged (undecided lib res ask r s request wire q uncached ip user) q user
  unfolding undecided block_with_brand
  undecided-IsLogged request wire q uncached ip user =
      elim (Option-cases (check res.raw_first res.raw_first_token res.brands q)) [
        | inr (hit, e) ↦ rw (e, undecided) refl
        | inl e ↦
            rw (e, undecided)
              (elim (Bool-cases (uncached && looks_scannable q request.qtype)) [
                | inl f ↦ rw f (rw (forward-blocked lib res ask r s request wire q) refl)
                | inr f ↦ rw f (rw (forward-blocked lib res ask r s request wire q) refl)
              ])
      ]

  by_cache-IsLogged :
      (request : Request) (wire q : Text) (o : Option Verdict) (ip : Option Text) (user : Option ℕ)
      → IsLogged (by_cache lib res ask r s request wire q o ip user) q user
  unfolding by_cache
  by_cache-IsLogged request wire q none ip user = undecided-IsLogged request wire q true ip user
  by_cache-IsLogged request wire q (some v) ip user = elim (Bool-cases (is_blocking v)) [
    | inl e ↦ rw e (block-IsLogged request q v ip user)
    | inr e ↦ rw e (elim (Bool-cases (is_safe v.verdict)) [
      | inl f ↦ rw f (forward-IsLogged request wire q user)
      | inr f ↦ rw f (undecided-IsLogged request wire q false ip user)
    ])
  ]

  resolve_request-IsLogged :
      (request : Request) (wire : Text) (ip : Option Text) (user : Option ℕ)
      → IsLogged (resolve_request lib res ask r s request wire ip user) (query_name request) user
  unfolding resolve_request
  resolve_request-IsLogged request wire ip user =
      let q = query_name request in
      elim (Bool-cases (is_nil q || is_bypass q)) [
        | inl e ↦ rw e (forward-IsLogged request wire q user)
        | inr e ↦ rw e (elim (Bool-cases (match_chain q res.whitelist)) [
          | inl f ↦ rw f (forward-IsLogged request wire q user)
          | inr f ↦ rw f (elim (Bool-cases (match_chain q res.blocklist)) [
            | inl g ↦ rw g (block-IsLogged request q blocklist_verdict ip user)
            | inr g ↦
                rw g (by_cache-IsLogged request wire q (cache_lookup lib res ask r s q) ip user)
          ])
        ])
      ]

module _ (lib : DnsLib) (ask : Text → Option Text) (r : Redis) (cfg : Config) (pool works : Bool)
    (now : ℕ) where
  heard-run_task :
      (t : Task) (ts : List Task) (w : World r)
      → heard (run_task lib ask r cfg pool works true now t w).events ++ known (logged ts)
        ≡ heard w.events ++ known (logged (t ∷ ts))
  unfolding run_task resolve_then_log publish
  heard-run_task (save d v ttl) ts w = refl
  heard-run_task (promote d c) ts w = refl
  heard-run_task (enqueue d) ts w = refl
  heard-run_task (log b) ts w = elim (Option-cases b.user_id) [
    | inl e ↦ rw (e, publish) refl
    | inr (u, e) ↦
        rw (e, publish)
          (ap (λ xs. xs ++ known (logged ts)) (heard-append w.events _)
            ∙ append_assoc (heard w.events) ((b.domain, u) ∷ []) (known (logged ts)))
  ]

  heard-run_tasks :
      (ts : List Task) (w : World r)
      → heard (run_tasks lib ask r cfg pool works true now ts w).events
        ≡ heard w.events ++ known (logged ts)
  unfolding run_tasks
  heard-run_tasks [] w = sym (append-nil (heard w.events))
  heard-run_tasks (t ∷ ts) w =
      heard-run_tasks ts (run_task lib ask r cfg pool works true now t w) ∙ heard-run_task t ts w

resolve-logged :
    (lib : DnsLib) (res : Resolver) (ask : Text → Option Text) (r : Redis) (s : CacheState r)
    (wire : Text) (request : Request) (ip : Option Text) (user : Option ℕ)
    → lib.parse wire ≡ some request
    → (resolve lib res ask r s wire ip user).0.blocked ≡ true
    → logged (resolve lib res ask r s wire ip user).1 ≡ (query_name request, user) ∷ []
unfolding resolve
resolve-logged lib res ask r s wire request ip user parsed blocked =
    rw (parsed, resolve)
      (resolve_request-IsLogged lib res ask r s request wire ip user
        ∙ (let b : (resolve_request lib res ask r s request wire ip user).0.blocked ≡ true =
              rw (parsed, resolve) at blocked in
            rw b refl))

heard-one :
    (es : List BlockEvent) (q : Text) (u : ℕ)
    → heard es ≡ (q, u) ∷ []
    → (e : BlockEvent) × (es ≡ e ∷ []) × (e.domain ≡ q) × (e.user_id ≡ u)
heard-one [] q u h = cc
heard-one (e ∷ []) q u h = (e, refl, cc, cc)
heard-one (e ∷ f ∷ es) q u h = cc

-- The tasks of a blocked query of a known user publish one event, with its name and the user.
pub resolve-published :
    (lib : DnsLib) (res : Resolver) (ask : Text → Option Text) (r : Redis) (s : CacheState r)
    (wire : Text) (request : Request) (ip : Option Text) (user : ℕ) (pool works : Bool) (now : ℕ)
    (w : World r)
    → lib.parse wire ≡ some request
    → (resolve lib res ask r s wire ip (some user)).0.blocked ≡ true
    → w.events ≡ []
    → let after =
        run_tasks lib ask r res.cfg pool works true now
          (resolve lib res ask r s wire ip (some user)).1
          w in
      (e : BlockEvent) × (after.events ≡ e ∷ [])
      × (e.domain ≡ query_name request)
      × (e.user_id ≡ user)
resolve-published lib res ask r s wire request ip user pool works now w parsed blocked quiet =
    heard-one _ (query_name request) user (
      heard-run_tasks lib ask r res.cfg pool works now
        (resolve lib res ask r s wire ip (some user)).1 w
      ∙ rw (quiet, resolve-logged lib res ask r s wire request ip (some user) parsed blocked) refl)
