-- ===== src/Dns/Db.antt =====
-- dns_server/db.py. `pool` says whether the pool is there, and `works` whether the statement
-- succeeds: a failure is logged and dropped.
use scamlens.Base.{ℕ, Bool, true, false, not, Text, List, [], ◌∷◌, ◌++◌, map, if◌then◌else◌}
use scamlens.Dns.Cache.{blocking}
use scamlens.Postgres.{
  SeedRow, WhiteRow, VerdictRow, ReportRow, Status, confirmed, AttemptRow, Db, insert_seed,
}

unfoldable pub seed_domains : List SeedRow → List Text
seed_domains rows = map (λ row. row.domain) rows

-- SELECT domain FROM domain_verdicts WHERE verdict IN ('scam', 'suspicious')
unfoldable pub blocking_domains : List VerdictRow → List Text
blocking_domains [] = []
blocking_domains (row ∷ rows) =
    let rest = blocking_domains rows in if blocking row.verdict then row.domain ∷ rest else rest

abbrev pub is_confirmed : Status → Bool
is_confirmed confirmed = true
is_confirmed _ = false

-- SELECT domain FROM user_reports WHERE status = 'confirmed'
unfoldable pub confirmed_domains : List ReportRow → List Text
confirmed_domains [] = []
confirmed_domains (row ∷ rows) =
    let rest = confirmed_domains rows in if is_confirmed row.status then row.domain ∷ rest else rest

-- The caller makes a set of the list.
unfoldable pub load_blocklist : Bool → Db → List Text
unfolding seed_domains blocking_domains confirmed_domains
load_blocklist pool db =
    if not pool
    then []
    else seed_domains db.blocklist_seed
      ++ (blocking_domains db.domain_verdicts ++ confirmed_domains db.user_reports)

unfoldable pub load_whitelist : Bool → Bool → Db → List Text
load_whitelist pool works db =
    if not pool then [] else if works then map (λ (row : WhiteRow). row.domain) db.whitelist else []

unfoldable pub load_brand_domains : Bool → Bool → Db → List (Text × Text)
load_brand_domains pool works db = if not pool then [] else if works then db.brand_domains else []

unfoldable pub load_doh_tokens : Bool → Bool → Db → List (Text × ℕ)
load_doh_tokens pool works db = if not pool then [] else if works then db.users else []

unfoldable pub promote_to_blocklist : Bool → Bool → Text → Text → Db → Db
unfolding insert_seed
promote_to_blocklist pool works domain category db =
    if not pool
    then db
    else if works
    then record db { blocklist_seed = insert_seed domain category db.blocklist_seed }
    else db

unfoldable pub log_block : Bool → Bool → AttemptRow → Db → Db
log_block pool works row db =
    if not pool
    then db
    else if works
    then record db { blocked_attempts = db.blocked_attempts ++ row ∷ [] }
    else db
