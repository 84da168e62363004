-- ===== src/Dns/Resolver.antt =====
-- dns_server/resolver.py: `Resolver.resolve` and what it calls. A call returns its result and the
-- background tasks that it creates, in order; Resolver/Tasks.antt runs them.
pub mod Tasks
pub mod Published
pub mod Decision
pub mod Enqueue
pub mod Ancestors
use scamlens.Base.{
  ℕ, Bool, true, false, not, ◌&&◌, ◌||◌, ◌==◌, Text, List, [], ◌∷◌, ◌++◌, map, Option, none, some,
  same, elem, has_char, ends_with, split, join, rstrip, lower, codes, if◌then◌else◌,
}
use scamlens.Dns.Cache
use scamlens.Dns.Cache.{
  Label, safe, suspicious, scam, pending, Verdict, Redis, CacheState, is_blocking,
}
use scamlens.Dns.Typosquat.Detector.{TyposquatHit, Anchor, check}

-- dnslib, which is not in the repository: the parts of a request, of a reply and of an answer.
pub record Request : Type 0 where
  pub qname : Text
  pub qtype : Text

pub data Reply : Type 0 where
  address : Text → ℕ → Reply
  empty nxdomain servfail : Reply

pub record Rr : Type 0 where
  pub is_a : Bool
  pub rdata : Text

pub record DnsLib : Type 0 where
  pub parse : Text → Option Request
  pub pack : Request → Reply → Text
  pub question_a : Text → Text
  pub answers : Text → Option (List Rr)

pub record Config : Type 0 where
  pub block_ip : Text
  pub block_ttl : ℕ
  pub scam_ttl : ℕ
  pub unknown_ttl : ℕ

-- The fields of a `Resolver`; `raw_first` and `raw_first_token` are the walks of the detector's sets.
pub record Resolver : Type 0 where
  pub cfg : Config
  pub blocklist : List Text
  pub whitelist : List Text
  pub brands : List Anchor
  pub raw_first : Bool
  pub raw_first_token : Bool

pub record ResolveResult : Type 0 where
  pub wire : Text
  pub blocked : Bool
  pub domain : Text
  pub verdict : Option Verdict

-- The arguments of `_resolve_then_log`.
pub record BlockInfo : Type 0 where
  pub domain : Text
  pub reason : Text
  pub verdict : Label
  pub risk_score : ℕ
  pub confidence : ℕ
  pub mimics_brand : Option Text
  pub client_ip : Option Text
  pub user_id : Option ℕ

pub data Task : Type 0 where
  save : Text → Verdict → ℕ → Task
  log : BlockInfo → Task
  promote : Text → Text → Task
  enqueue : Text → Task

abbrev pub bypass_suffixes : List Text
bypass_suffixes =
    codes "in-addr.arpa" ∷ codes "ip6.arpa" ∷ codes "local" ∷ codes "localhost" ∷ codes "arpa" ∷ []

unfoldable pub any_suffix : Text → List Text → Bool
any_suffix domain [] = false
any_suffix domain (s ∷ ss) = same domain s || ends_with (b'.' ∷ s) domain || any_suffix domain ss

unfoldable pub is_bypass : Text → Bool
is_bypass domain = any_suffix domain bypass_suffixes

unfoldable pub looks_scannable : Text → Text → Bool
looks_scannable domain qtype =
    if elem qtype (codes "A" ∷ codes "AAAA" ∷ codes "HTTPS" ∷ [])
    then has_char b'.' domain
    else false

unfoldable pub chain_of : List Text → List Text
chain_of [] = []
chain_of (p ∷ []) = []
chain_of (p ∷ q ∷ ps) = join (codes ".") (p ∷ q ∷ ps) ∷ chain_of (q ∷ ps)

unfoldable pub parent_chain : Text → List Text
parent_chain domain = chain_of (split b'.' domain)

unfoldable pub any_in : List Text → List Text → Bool
any_in [] s = false
any_in (c ∷ cs) s = if elem c s then true else any_in cs s

unfoldable pub match_chain : Text → List Text → Bool
match_chain domain s = any_in (parent_chain domain) s

-- `src or "auto"`
unfoldable pub or_text : Text → Text → Text
or_text [] d = d
or_text (c ∷ s) d = c ∷ s

abbrev pub label_text : Label → Text
label_text safe = codes "safe"
label_text suspicious = codes "suspicious"
label_text scam = codes "scam"
label_text pending = codes "pending"

unfoldable pub category_for : Verdict → Text
category_for v =
    let src = lower v.source in
    if same src (codes "ai")
    then codes "ai-confirmed"
    else if same src (codes "scan_error")
    then codes "ai-scan-error"
    else if same src (codes "typosquat")
    then codes "typosquat"
    else if same src (codes "cache")
    then codes "cache-" ++ label_text v.verdict
    else if same src (codes "user_report")
    then codes "user-report"
    else or_text src (codes "auto")

-- The reply to a blocked query, by its type.
unfoldable pub block_reply : Config → Text → Reply
block_reply cfg qtype =
    if same qtype (codes "A")
    then Reply.address cfg.block_ip cfg.block_ttl
    else if same qtype (codes "AAAA")
    then empty
    else nxdomain

abbrev pub Outcome : Type 0
Outcome = ResolveResult × List Task

unfoldable pub servfail_wire : DnsLib → Text → Text
servfail_wire lib wire = elim (lib.parse wire) [ none ↦ [] | some r ↦ lib.pack r servfail ]

unfoldable pub typosquat_verdict : TyposquatHit → Verdict
typosquat_verdict hit = record {
  verdict = scam;
  risk_score = if hit.distance == 0 then 90 else 75;
  confidence = if hit.distance == 0 then 85 else 70;
  reason = hit.reason;
  source = codes "typosquat";
}

abbrev pub blocklist_verdict : Verdict
blocklist_verdict = record {
  verdict = scam;
  risk_score = 0;
  confidence = 0;
  reason = codes "blocklist";
  source = codes "blocklist";
}

abbrev pub is_safe : Label → Bool
is_safe safe = true
is_safe _ = false

abbrev pub is_nil : Text → Bool
is_nil [] = true
is_nil (c ∷ t) = false

module _ (lib : DnsLib) (res : Resolver) (ask : Text → Option Text) where
  unfoldable pub block : Request → Text → Verdict → Option Text → Option ℕ → Outcome
  block request domain verdict client_ip user_id = (
    record {
      wire = lib.pack request (block_reply res.cfg request.qtype);
      blocked = true;
      domain = domain;
      verdict = some verdict;
    },
    log (record {
      domain = domain;
      reason = or_text verdict.reason verdict.source;
      verdict = verdict.verdict;
      risk_score = verdict.risk_score;
      confidence = verdict.confidence;
      mimics_brand = none;
      client_ip = client_ip;
      user_id = user_id;
    })
        ∷ (if same verdict.source (codes "blocklist")
            then []
            else promote domain (category_for verdict) ∷ []),
  )

  unfoldable pub block_with_brand :
      Request → Text → Verdict → TyposquatHit → Option Text → Option ℕ → Outcome
  block_with_brand request domain verdict hit client_ip user_id = (
    record {
      wire = lib.pack request (block_reply res.cfg request.qtype);
      blocked = true;
      domain = domain;
      verdict = some verdict;
    },
    log (record {
      domain = domain;
      reason = verdict.reason;
      verdict = verdict.verdict;
      risk_score = verdict.risk_score;
      confidence = verdict.confidence;
      mimics_brand = some hit.brand;
      client_ip = client_ip;
      user_id = user_id;
    })
        ∷ promote domain (codes "typosquat-" ++ hit.brand)
        ∷ [],
  )

  unfoldable pub forward : Request → Text → Text → ResolveResult
  forward request wire domain = elim (ask wire) [
    | none ↦ record {
      wire = lib.pack request servfail;
      blocked = false;
      domain = domain;
      verdict = none;
    }
    | some answer ↦ record { wire = answer; blocked = false; domain = domain; verdict = none }
  ]

  module _ (r : Redis) (s : CacheState r) where
    unfoldable pub first_cached : List Text → Option Verdict
    first_cached [] = none
    first_cached (c ∷ cs) = elim (Cache.get r c s) [ none ↦ first_cached cs | some v ↦ some v ]

    unfoldable pub cache_lookup : Text → Option Verdict
    cache_lookup domain = first_cached (parent_chain domain)

    -- Steps 4 and 5, when the cache has not decided.
    unfoldable pub undecided : Request → Text → Text → Bool → Option Text → Option ℕ → Outcome
    undecided request wire qname uncached client_ip user_id =
        elim (check res.raw_first res.raw_first_token res.brands qname) [
          | some hit ↦
              let verdict = typosquat_verdict hit in
              let (result, tasks) = block_with_brand request qname verdict hit client_ip user_id in
              (result, save qname verdict res.cfg.scam_ttl ∷ tasks)
          | none ↦ (
            forward request wire qname,
            if uncached && looks_scannable qname request.qtype then enqueue qname ∷ [] else [],
          )
        ]

    -- Step 3.
    unfoldable pub by_cache :
        Request → Text → Text → Option Verdict → Option Text → Option ℕ → Outcome
    by_cache request wire qname none client_ip user_id =
        undecided request wire qname true client_ip user_id
    by_cache request wire qname (some v) client_ip user_id =
        if is_blocking v
        then block request qname v client_ip user_id
        else if is_safe v.verdict
        then (forward request wire qname, [])
        else undecided request wire qname false client_ip user_id

    unfoldable pub resolve_request : Request → Text → Option Text → Option ℕ → Outcome
    resolve_request request wire client_ip user_id =
        let qname = lower (rstrip (codes ".") request.qname) in
        if is_nil qname || is_bypass qname
        then (forward request wire qname, [])
        else if match_chain qname res.whitelist
        then (forward request wire qname, [])
        else if match_chain qname res.blocklist
        then block request qname blocklist_verdict client_ip user_id
        else by_cache request wire qname (cache_lookup qname) client_ip user_id

    unfoldable pub resolve : Text → Option Text → Option ℕ → Outcome
    resolve wire client_ip user_id = elim (lib.parse wire) [
      | none ↦ (
        record { wire = servfail_wire lib wire; blocked = false; domain = []; verdict = none },
        [],
      )
      | some request ↦ resolve_request request wire client_ip user_id
    ]
