-- ===== src/Dns/Cache.antt =====
-- dns_server/cache.py: verdicts, scan queue and rate limit in Redis. A payload is the dict that is
-- dumped to JSON.
pub mod Keyed
pub mod Concrete
use scamlens.Base.{
  ℕ, Bool, true, false, ◌≡◌, ◌||◌, Text, List, [], ◌∷◌, ◌++◌, Option, none, some, same, codes,
  if◌then◌else◌,
}
use scamlens.Redis.{Keys, Queue}

-- The values of the `verdict` field that the program writes.
pub data Label : Type 0 where
  safe suspicious scam pending : Label

pub record Verdict : Type 0 where
  pub verdict : Label
  pub risk_score : ℕ
  pub confidence : ℕ
  pub reason : Text
  pub source : Text

abbrev pub blocking : Label → Bool
blocking scam = true
blocking suspicious = true
blocking _ = false

unfoldable pub is_blocking : Verdict → Bool
is_blocking v = blocking v.verdict

-- The JSON object under `verdict:<domain>`; `none` is a field that is absent.
pub record Payload : Type 0 where
  pub verdict : Label
  pub risk_score : Option ℕ
  pub confidence : Option ℕ
  pub reason : Option Text
  pub mimics_brand : Option Text
  pub source : Option Text
  pub model : Option Text
  pub ts : ℕ

-- The key spaces of the program: `verdict:` and the markers, and the scan queue.
pub record Redis : Type 1 where
  pub verdicts : Keys Payload
  pub marks : Keys Text
  pub queue : Queue

pub record CacheState (r : Redis) : Type 0 where
  pub verdicts : r.verdicts.State
  pub limits : r.marks.State
  pub queue : r.queue.State

unfoldable pub get_or {ℓ} : {A : Type ℓ} → Option A → A → A
get_or none d = d
get_or (some a) d = a

unfoldable pub of_payload : Payload → Verdict
unfolding get_or
of_payload p = record {
  verdict = p.verdict;
  risk_score = get_or p.risk_score 0;
  confidence = get_or p.confidence 0;
  reason = get_or p.reason [];
  source = get_or p.source (codes "cache");
}

unfoldable pub to_payload : Verdict → ℕ → Payload
to_payload v now = record {
  verdict = v.verdict;
  risk_score = some v.risk_score;
  confidence = some v.confidence;
  reason = some v.reason;
  mimics_brand = none;
  source = some v.source;
  model = none;
  ts = now;
}

unfoldable pub pending_payload : ℕ → Payload
pending_payload now = record {
  verdict = pending;
  risk_score = none;
  confidence = none;
  reason = none;
  mimics_brand = none;
  source = some (codes "scan_queue");
  model = none;
  ts = now;
}

abbrev pub verdict? : Option Payload → Option Verdict
verdict? none = none
verdict? (some p) = some (of_payload p)

-- The methods of `VerdictCache`; `now` is `time.time()`.
module _ (r : Redis) where
  unfoldable pub get : Text → CacheState r → Option Verdict
  unfolding of_payload
  get domain s = verdict? (r.verdicts.get (codes "verdict:" ++ domain) s.verdicts)

  unfoldable pub set : Text → Verdict → ℕ → ℕ → CacheState r → CacheState r
  unfolding to_payload
  set domain verdict ttl now s = record s {
    verdicts = r.verdicts.set (codes "verdict:" ++ domain) (to_payload verdict now) ttl s.verdicts;
  }

  unfoldable pub mark_pending : Text → ℕ → ℕ → CacheState r → Bool × CacheState r
  unfolding pending_payload
  mark_pending domain ttl now s =
      let (claimed, verdicts) =
        r.verdicts.set_nx (codes "verdict:" ++ domain) (pending_payload now) ttl s.verdicts in
      (claimed, record s { verdicts = verdicts })

  unfoldable pub enqueue_scan : Text → CacheState r → CacheState r
  enqueue_scan domain s = record s { queue = r.queue.lpush domain s.queue }

  -- with the default window of 60 seconds
  unfoldable pub rate_limit_ok : Text → CacheState r → Bool × CacheState r
  rate_limit_ok domain s =
      let (ok, limits) = r.marks.set_nx (codes "rl:" ++ domain) (codes "1") 60 s.limits in
      (ok, record s { limits = limits })
