-- ===== src/Api/Check.antt =====
-- api/routers/check.py: the lookup of one domain. DOMAIN_RE is `valid`, a function of the caller;
-- `ip` is the answer of `_latest_resolved_ip`.
pub mod Order
use scamlens.Base.{
  ℕ, Bool, true, false, not, ◌&&◌, ◌||◌, Text, List, [], ◌∷◌, ◌++◌, Option, none, some, same, elem,
  lower, strip, rstrip, white, split, join, length, leb, codes, if◌then◌else◌,
}
use scamlens.Dns.Cache.{Redis, CacheState, Payload, get_or}
use scamlens.Dns.Resolver.{label_text}
use scamlens.Postgres.{SeedRow, VerdictRow, Db}

pub record CheckResponse : Type 0 where
  pub domain : Text
  pub verdict : Text
  pub risk_score : Option ℕ
  pub confidence : Option ℕ
  pub reason : Option Text
  pub mimics_brand : Option Text
  pub resolved_ip : Option Text
  pub source : Text
  pub cached : Bool

-- `[".".join(parts[i:]) for i in range(len(parts) - 1)]`
unfoldable pub suffixes : List Text → List Text
suffixes [] = []
suffixes (p ∷ []) = []
suffixes (p ∷ q ∷ ps) = join (codes ".") (p ∷ q ∷ ps) ∷ suffixes (q ∷ ps)

-- SELECT category FROM blocklist_seed WHERE domain = ANY($1) ORDER BY length(domain) DESC LIMIT 1
unfoldable pub longest : List Text → List SeedRow → Option SeedRow
longest candidates [] = none
longest candidates (row ∷ rows) =
    let rest = longest candidates rows in
    if elem row.domain candidates
    then elim rest [
      | none ↦ some row
      | some other ↦ if leb (length other.domain) (length row.domain) then some row else some other
    ]
    else rest

unfoldable pub blocklist_match : Text → List SeedRow → Option Text
unfolding suffixes longest
blocklist_match domain rows = elim (longest (suffixes (split b'.' domain)) rows) [
  | none ↦ none
  | some row ↦ some row.category
]

-- `if bl`: a category that is empty, or null in the table, counts as no match.
unfoldable pub truthy : Option Text → Option Text
truthy none = none
truthy (some []) = none
truthy (some (c ∷ category)) = some (c ∷ category)

-- SELECT ... FROM domain_verdicts WHERE domain = $1
unfoldable pub pg_verdict : Text → List VerdictRow → Option VerdictRow
pg_verdict domain [] = none
pg_verdict domain (row ∷ rows) =
    let rest = pg_verdict domain rows in if same domain row.domain then some row else rest

unfoldable pub first_reason : List Text → Option Text
first_reason [] = none
first_reason (r ∷ rs) = some r

unfoldable pub blocklist_response : Text → Option Text → Text → CheckResponse
blocklist_response domain ip category = record {
  domain = domain;
  verdict = codes "scam";
  risk_score = some 100;
  confidence = some 100;
  reason = some (codes "on blocklist (" ++ category ++ codes ")");
  mimics_brand = none;
  resolved_ip = ip;
  source = codes "blocklist";
  cached = false;
}

unfoldable pub cache_response : Text → Option Text → Payload → CheckResponse
unfolding get_or
cache_response domain ip stored = record {
  domain = domain;
  verdict = label_text stored.verdict;
  risk_score = stored.risk_score;
  confidence = stored.confidence;
  reason = stored.reason;
  mimics_brand = stored.mimics_brand;
  resolved_ip = ip;
  source = get_or stored.source (codes "cache");
  cached = true;
}

unfoldable pub row_response : Text → Option Text → VerdictRow → CheckResponse
unfolding first_reason
row_response domain ip row = record {
  domain = domain;
  verdict = label_text row.verdict;
  risk_score = some row.risk_score;
  confidence = some row.confidence;
  reason = first_reason row.reasons;
  mimics_brand = row.mimics_brand;
  resolved_ip = ip;
  source = row.source;
  cached = false;
}

unfoldable pub pending_response : Text → CheckResponse
pending_response domain = record {
  domain = domain;
  verdict = codes "pending";
  risk_score = none;
  confidence = none;
  reason = none;
  mimics_brand = none;
  resolved_ip = none;
  source = codes "scan_enqueued";
  cached = false;
}

module _ (r : Redis) (ip : Text → Option Text) where
  -- The answer from what each lookup finds, in the order of the lookups.
  unfoldable pub answer :
      Text
      → Option Text
      → Option Payload
      → Option VerdictRow
      → CacheState r
      → CheckResponse × CacheState r
  answer d (some category) stored row s = (blocklist_response d (ip d) category, s)
  answer d none (some stored) row s = (cache_response d (ip d) stored, s)
  answer d none none (some row) s = (row_response d (ip d) row, s)
  answer d none none none s = (pending_response d, record s { queue = r.queue.lpush d s.queue })

  -- The lookups after the guards; the name is normalised.
  unfoldable pub look_up : Text → Db → CacheState r → CheckResponse × CacheState r
  unfolding answer
  look_up d db s =
      answer d (truthy (blocklist_match d db.blocklist_seed))
        (r.verdicts.get (codes "verdict:" ++ d) s.verdicts) (pg_verdict d db.domain_verdicts) s

  -- `none` is the 400.
  unfoldable pub check :
      (Text → Bool) → Text → Db → CacheState r → Option CheckResponse × CacheState r
  check valid domain db s =
      let d = rstrip (codes ".") (lower (strip white domain)) in
      if not (valid d)
      then (none, s)
      else (let (response, s') = look_up d db s in (some response, s'))
