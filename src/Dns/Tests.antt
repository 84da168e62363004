-- ===== src/Dns/Tests.antt =====
-- dns_server/: runs of the cache, the upstream resolver and the resolver.
use scamlens.Base.{
  split, join, elem, suc, rstrip, strip, lower, same, ℕ, true, false, ◌≡◌, ◌↔◌, ◌++◌, refl, arith,
  Text, List, [], ◌∷◌, Option, none, some, codes, if◌then◌else◌,
}
use scamlens.Dns.Cache.{Verdict, scam}
use scamlens.Dns.Cache.Concrete.{memory, fresh}
use scamlens.Dns.Upstream
use scamlens.Dns.Upstream.{query, query_servers, after_udp, after_tcp}
use scamlens.Redis.Memory.{get-no_entries}
use scamlens.Dns.Resolver.{Request, DnsLib, Config, Resolver}
use scamlens.Dns.Refresh.{Round, Shared}
use scamlens.Dns.Servers.{next_query, readexactly}
use scamlens.Dns.Servers.Doh.{HttpRequest}
use scamlens.Dns.Db.{load_blocklist, seed_domains, blocking_domains, confirmed_domains}
use scamlens.Dns.Resolver.{is_bypass, any_suffix, match_chain, parent_chain, chain_of, any_in}
use scamlens.Dns.Resolver.Decision.{query_name}
use scamlens.Base.{ends_with}
use scamlens.Postgres.{Db}
use scamlens.Dns.Cache.{get, set, pending_payload}
use scamlens.Dns.Cache.Keyed.{get-set}
use scamlens.Dns.Refresh.{refresh_lists}
use scamlens.Dns.Refresh.Kept.{refresh_lists-forgets_whitelist}
use scamlens.Dns.Resolver.{resolve, is_bypass, is_nil, match_chain, forward, block_reply}
use scamlens.Dns.Resolver.Decision.{
  resolve-blocked_iff, Reason, query_name, resolve-effects, should_scan, enqueues, logs,
}
use scamlens.Dns.Resolver.Enqueue.{enqueue_if_new_once, wait}
use scamlens.Dns.Resolver.Tasks.{enqueue_if_new}
use scamlens.Dns.Servers.{handle_tcp}
use scamlens.Dns.Servers.Stream.{handle_tcp-frames, exchange, frames}

abbrev scam_verdict : Verdict
scam_verdict = record {
  verdict = scam;
  risk_score = 95;
  confidence = 90;
  reason = codes "asks for a seed phrase";
  source = codes "ai";
}

-- The first server times out over UDP, and the second answers.
abbrev udp_example : Text → Text → Upstream.Attempt
udp_example server wire =
    if same server (codes "1.1.1.1")
    then Upstream.timed_out
    else Upstream.answer (0 ∷ 1 ∷ 128 ∷ 0 ∷ [])

abbrev tcp_example : Text → Text → Upstream.Attempt
tcp_example server wire = Upstream.failed

query_example :
    query udp_example tcp_example (codes "1.1.1.1") (codes "9.9.9.9") (codes "wire")
    ≡ some (0 ∷ 1 ∷ 128 ∷ 0 ∷ [])
unfolding query same Upstream.is_truncated
query_example = refl

abbrev request_example : Request
request_example = record { qname = codes "login.evil.com."; qtype = codes "A" }

abbrev lib_example : DnsLib
lib_example = record {
  parse = λ wire. some request_example;
  pack = λ request reply. codes "reply";
  question_a = λ domain. domain;
  answers = λ wire. none;
}

abbrev config_example : Config
config_example = record {
  block_ip = codes "10.9.9.9";
  block_ttl = 60;
  scam_ttl = 600;
  unknown_ttl = 300;
}

abbrev resolver_example : Resolver
resolver_example = record {
  cfg = config_example;
  blocklist = codes "evil.com" ∷ [];
  whitelist = codes "good.com" ∷ [];
  brands = [];
  raw_first = true;
  raw_first_token = true;
}

abbrev ask_example : Text → Option Text
ask_example wire = some (codes "upstream")

-- The whitelist is not read in this round.
abbrev round_example : Round
round_example = record { blocklist = true; whitelist = false; brands = true; tokens = true }

abbrev db_example : Db
db_example = record {
  blocklist_seed =
      record {
        domain = codes "evil.com";
        category = codes "manual";
        source_post = none;
        source_platform = none;
      }
      ∷ [];
  whitelist =
      record { domain = codes "login.evil.com"; reason = none; added_by = codes "admin@x.com" }
      ∷ [];
  domain_verdicts = [];
  user_reports = [];
  brand_domains = [];
  blocked_attempts = [];
  users = [];
}

abbrev shared_example : Shared
shared_example = record { resolver = resolver_example; doh_tokens = [] }

names_example : Unit {0}
unfolding is_bypass any_suffix ends_with match_chain parent_chain chain_of any_in rstrip lower strip
    split join elem same load_blocklist seed_domains blocking_domains confirmed_domains
names_example = tt

not_bypassed : is_bypass (query_name request_example) ≡ false
unfolding names_example
not_bypassed = refl

name_listed : match_chain (query_name request_example) (load_blocklist true db_example) ≡ true
unfolding names_example
name_listed = refl

-- The reply repeats the query, and the state counts the queries.
abbrev echo : Text → ℕ → Option Text × ℕ
echo query n = (some query, suc n)

abbrev queries_example : List Text
queries_example = (1 ∷ 2 ∷ []) ∷ (3 ∷ []) ∷ []

half_frame : next_query (0 ∷ []) ≡ none
unfolding next_query readexactly
half_frame = refl

abbrev echo_http : Text → Option Text → Option ℕ → ℕ → Option Text × ℕ
echo_http query ip user n = (some query, suc n)

abbrev request_http : HttpRequest
request_http = record {
  is_post = false;
  content_type = none;
  body = [];
  dns = none;
  real_ip = some (codes "10.0.0.1");
  forwarded_for = none;
  remote = none;
}

abbrev decode_example : Text → Option Text
decode_example t = some (1 ∷ 2 ∷ [])

refresh_lists-forgets_whitelist_example :
    (resolve lib_example
      (refresh_lists round_example db_example shared_example).resolver
      ask_example
      memory
      fresh
      (codes "wire")
      (some (codes "10.0.0.1"))
      (some 7)).0.blocked
    ≡ true
refresh_lists-forgets_whitelist_example =
    refresh_lists-forgets_whitelist lib_example ask_example memory fresh (codes "wire")
      request_example (some (codes "10.0.0.1")) (some 7) round_example db_example shared_example
      refl refl refl not_bypassed name_listed

handle_tcp-frames_example :
    handle_tcp echo (frames queries_example ++ (0 ∷ [])) 0 ≡ exchange echo queries_example 0
handle_tcp-frames_example =
    handle_tcp-frames echo queries_example (0 ∷ []) 0 (omega arith, (omega arith, tt)) half_frame

get-set_example :
    get memory (codes "good.com") (set memory (codes "evil.com") scam_verdict 60 0 fresh) ≡ (
      if same (codes "evil.com") (codes "good.com")
      then some scam_verdict
      else get memory (codes "good.com") fresh)
get-set_example =
    get-set memory (codes "evil.com") (codes "good.com") scam_verdict 60 0 fresh (omega arith)

resolve-blocked_iff_example :
    ((resolve lib_example resolver_example ask_example memory fresh
        (codes "wire")
        (some (codes "10.0.0.1"))
        (some 7)).0.blocked
      ≡ true)
    ↔ ((is_nil (query_name request_example) ≡ false)
        × (is_bypass (query_name request_example) ≡ false)
        × (match_chain (query_name request_example) resolver_example.whitelist ≡ false)
        × Reason lib_example resolver_example ask_example memory fresh (query_name request_example))
resolve-blocked_iff_example =
    resolve-blocked_iff lib_example resolver_example ask_example memory fresh (codes "wire")
      request_example (some (codes "10.0.0.1")) (some 7) refl

resolve-effects_example :
    ((resolve lib_example resolver_example ask_example memory fresh
        (codes "wire")
        (some (codes "10.0.0.1"))
        (some 7)).0.wire
      ≡ (if (resolve lib_example resolver_example ask_example memory fresh
            (codes "wire")
            (some (codes "10.0.0.1"))
            (some 7)).0.blocked
          then lib_example.pack request_example
              (block_reply resolver_example.cfg request_example.qtype)
          else (forward lib_example resolver_example ask_example request_example
              (codes "wire")
              (query_name request_example)).wire))
    × (logs
          (resolve lib_example resolver_example ask_example memory fresh
            (codes "wire")
            (some (codes "10.0.0.1"))
            (some 7)).1
        ≡ (if (resolve lib_example resolver_example ask_example memory fresh
              (codes "wire")
              (some (codes "10.0.0.1"))
              (some 7)).0.blocked
            then 1
            else 0))
    × (enqueues
          (resolve lib_example resolver_example ask_example memory fresh
            (codes "wire")
            (some (codes "10.0.0.1"))
            (some 7)).1
        ≡ (if should_scan lib_example resolver_example ask_example memory fresh request_example
              (query_name request_example)
            then query_name request_example ∷ []
            else []))
resolve-effects_example =
    resolve-effects lib_example resolver_example ask_example memory fresh (codes "wire")
      request_example (some (codes "10.0.0.1")) (some 7) refl

enqueue_if_new_once_example :
    ((enqueue_if_new memory config_example 100 (codes "new.com") fresh).queue
      ≡ elim (memory.verdicts.get (codes "verdict:" ++ (codes "new.com")) fresh.verdicts) [
        | none ↦ memory.queue.lpush (codes "new.com") fresh.queue
        | some v ↦ fresh.queue
      ])
    × ((enqueue_if_new memory config_example 100 (codes "new.com") fresh).verdicts
        ≡ elim (memory.verdicts.get (codes "verdict:" ++ (codes "new.com")) fresh.verdicts) [
          | none ↦
              memory.verdicts.set
                (codes "verdict:" ++ (codes "new.com"))
                (pending_payload 100)
                config_example.unknown_ttl
                fresh.verdicts
          | some v ↦ fresh.verdicts
        ])
    × (enqueue_if_new memory config_example 130
          (codes "new.com")
          (wait memory 30 (enqueue_if_new memory config_example 100 (codes "new.com") fresh))
        ≡ wait memory 30 (enqueue_if_new memory config_example 100 (codes "new.com") fresh))
enqueue_if_new_once_example =
    enqueue_if_new_once memory config_example 100 130 30 (codes "new.com") fresh
      (get-no_entries Text (codes "rl:new.com")) (omega arith)
