-- ===== src/Dns/Resolver/Tasks.antt =====
-- dns_server/resolver.py: the background tasks. `works` says whether a database statement
-- succeeds and `sent` whether the publication does.
use scamlens.Base.{ℕ, Bool, Text, List, [], ◌∷◌, ◌++◌, Option, none, some, if◌then◌else◌}
use scamlens.Dns.Cache
use scamlens.Dns.Cache.{Label, Redis, CacheState}
use scamlens.Dns.Db.{promote_to_blocklist, log_block}
use scamlens.Dns.Resolver.{DnsLib, Rr, Config, BlockInfo, Task, save, log, promote, enqueue}
use scamlens.Postgres.{Db, AttemptRow}

-- The payload of a message on `scamlens:block_events`.
pub record BlockEvent : Type 0 where
  pub user_id : ℕ
  pub domain : Text
  pub reason : Text
  pub verdict : Label
  pub risk_score : ℕ
  pub confidence : ℕ
  pub mimics_brand : Option Text
  pub resolved_ip : Option Text

-- What the tasks change: the cache, the tables and the messages that were published.
pub record World (r : Redis) : Type 0 where
  pub cache : CacheState r
  pub db : Db
  pub events : List BlockEvent

unfoldable pub first_a : List Rr → Option Text
first_a [] = none
first_a (rr ∷ rrs) = if rr.is_a then some rr.rdata else first_a rrs

abbrev a_of : Option (List Rr) → Option Text
a_of none = none
a_of (some rrs) = first_a rrs

abbrev pub nonempty : Option Text → Option Text
nonempty none = none
nonempty (some []) = none
nonempty (some (c ∷ w)) = some (c ∷ w)

abbrev pub decode : DnsLib → Option Text → Option Text
decode lib none = none
decode lib (some w) = a_of (lib.answers w)

module _ (lib : DnsLib) (ask : Text → Option Text) where
  unfoldable pub resolve_scam_ip : Text → Option Text
  unfolding first_a
  resolve_scam_ip domain = decode lib (nonempty (ask (lib.question_a domain)))

abbrev pub attempt_row : BlockInfo → Option Text → AttemptRow
attempt_row b ip = record {
  domain = b.domain;
  reason = b.reason;
  verdict = b.verdict;
  risk_score = b.risk_score;
  confidence = b.confidence;
  mimics_brand = b.mimics_brand;
  client_ip = b.client_ip;
  resolved_ip = ip;
  user_id = b.user_id;
}

unfoldable pub publish : Bool → BlockInfo → Option Text → List BlockEvent → List BlockEvent
publish sent b ip events = elim (b.user_id) [
  | none ↦ events
  | some user ↦
      if sent
      then events
        ++ record {
          user_id = user;
          domain = b.domain;
          reason = b.reason;
          verdict = b.verdict;
          risk_score = b.risk_score;
          confidence = b.confidence;
          mimics_brand = b.mimics_brand;
          resolved_ip = ip;
        }
          ∷ []
      else events
]

module _ (lib : DnsLib) (ask : Text → Option Text) (r : Redis) where
  unfoldable pub resolve_then_log : Bool → Bool → Bool → BlockInfo → World r → World r
  resolve_then_log pool works sent b w =
      let ip = resolve_scam_ip lib ask b.domain in
      record w {
        db = log_block pool works (attempt_row b ip) w.db;
        events = publish sent b ip w.events;
      }

-- `_enqueue_if_new`
module _ (r : Redis) where
  unfoldable pub enqueue_if_new : Config → ℕ → Text → CacheState r → CacheState r
  enqueue_if_new cfg now domain s =
      let (ok, limited) = Cache.rate_limit_ok r domain s in
      let (claimed, marked) = Cache.mark_pending r domain cfg.unknown_ttl now limited in
      if ok then (if claimed then Cache.enqueue_scan r domain marked else marked) else limited

module _ (lib : DnsLib) (ask : Text → Option Text) (r : Redis) where
  unfoldable pub run_task : Config → Bool → Bool → Bool → ℕ → Task → World r → World r
  run_task cfg pool works sent now (save d v ttl) w = record w {
    cache = Cache.set r d v ttl now w.cache;
  }
  run_task cfg pool works sent now (log b) w = resolve_then_log lib ask r pool works sent b w
  run_task cfg pool works sent now (promote d c) w = record w {
    db = promote_to_blocklist pool works d c w.db;
  }
  run_task cfg pool works sent now (enqueue d) w = record w {
    cache = enqueue_if_new r cfg now d w.cache;
  }

  unfoldable pub run_tasks : Config → Bool → Bool → Bool → ℕ → List Task → World r → World r
  run_tasks cfg pool works sent now [] w = w
  run_tasks cfg pool works sent now (t ∷ ts) w =
      run_tasks cfg pool works sent now ts (run_task cfg pool works sent now t w)
