-- ===== src/Scanner/Store.antt =====
-- ai_scanner/store.py: verdicts in Redis and in Postgres. `pg` and `seed` say whether the two
-- statements succeed: a failure is logged and dropped.
pub mod Saved
use scamlens.Base.{
  ℕ, Bool, true, false, ◌&&◌, Text, List, [], ◌∷◌, ◌++◌, Option, none, some, leb, same, codes,
  if◌then◌else◌,
}
use scamlens.Dns.Cache
use scamlens.Dns.Cache.{Redis, CacheState, Payload}
use scamlens.Postgres.{Db, VerdictRow, insert_seed}
use scamlens.Scanner.Heuristics.{Severity, safe, suspicious, scam}
use scamlens.Scanner.Ai.{ScanVerdict, primary_reason}

abbrev pub to_label : Severity → Cache.Label
to_label safe = Cache.safe
to_label suspicious = Cache.suspicious
to_label scam = Cache.scam

pub record Ttls : Type 0 where
  pub safe_ttl : ℕ
  pub scam_ttl : ℕ
  pub unknown_ttl : ℕ

unfoldable pub pick_ttl : Severity → Ttls → ℕ
pick_ttl safe t = t.safe_ttl
pick_ttl scam t = t.scam_ttl
pick_ttl suspicious t = t.unknown_ttl

pub record ScanState (r : Redis) : Type 0 where
  pub cache : CacheState r
  pub db : Db

-- INSERT INTO domain_verdicts ... ON CONFLICT (domain) DO UPDATE
unfoldable pub upsert_verdict : VerdictRow → List VerdictRow → List VerdictRow
upsert_verdict row [] = row ∷ []
upsert_verdict row (old ∷ rows) =
    let rest = upsert_verdict row rows in
    if same row.domain old.domain then row ∷ rows else old ∷ rest

unfoldable pub verdict_payload : ScanVerdict → ℕ → Payload
verdict_payload v now = record {
  verdict = to_label v.verdict;
  risk_score = some v.risk_score;
  confidence = some v.confidence;
  reason = some (primary_reason v);
  mimics_brand = v.mimics_brand;
  source = some (codes "ai");
  model = some v.model;
  ts = now;
}

unfoldable pub verdict_row : Text → ScanVerdict → VerdictRow
verdict_row domain v = record {
  domain = domain;
  verdict = to_label v.verdict;
  risk_score = v.risk_score;
  confidence = v.confidence;
  reasons = v.reasons;
  mimics_brand = v.mimics_brand;
  source = codes "ai";
}

unfoldable pub error_payload : Text → ℕ → Payload
error_payload reason now = record {
  verdict = Cache.suspicious;
  risk_score = some 30;
  confidence = some 5;
  reason = some reason;
  mimics_brand = none;
  source = some (codes "scan_error");
  model = none;
  ts = now;
}

abbrev pub is_scam : Severity → Bool
is_scam scam = true
is_scam _ = false

-- The statements on Postgres that follow the write to Redis.
unfoldable pub save_rows : Bool → Bool → Text → ScanVerdict → Db → Db
save_rows pg seed domain v db =
    let written =
      if pg
      then record db { domain_verdicts = upsert_verdict (verdict_row domain v) db.domain_verdicts }
      else db in
    if is_scam v.verdict && leb 70 v.confidence && seed
    then record written {
      blocklist_seed = insert_seed domain (codes "ai-confirmed") written.blocklist_seed;
    }
    else written

module _ (r : Redis) where
  unfoldable pub put_payload : Text → Payload → ℕ → ScanState r → ScanState r
  put_payload domain p ttl s = record s {
    cache = record (s.cache) {
      verdicts = r.verdicts.set (codes "verdict:" ++ domain) p ttl s.cache.verdicts;
    };
  }

  unfoldable pub save : Ttls → Bool → Bool → ℕ → Text → ScanVerdict → ScanState r → ScanState r
  save ttls pg seed now domain v s =
      let written = put_payload domain (verdict_payload v now) (pick_ttl v.verdict ttls) s in
      record written { db = save_rows pg seed domain v written.db }

  unfoldable pub save_error : Ttls → ℕ → Text → Text → ScanState r → ScanState r
  save_error ttls now domain reason s =
      put_payload domain (error_payload reason now) ttls.unknown_ttl s
