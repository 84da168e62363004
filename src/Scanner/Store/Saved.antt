-- ===== src/Scanner/Store/Saved.antt =====
-- What is found after a verdict is saved.
use scamlens.Base.{
  ℕ, Bool, false, ◌&&◌, ◌||◌, ◌≡◌, ◌≤◌, ◌<◌, refl, arith, Text, List, [], ◌∷◌, ◌++◌, Option, none,
  some, leb, same, same_iff, codes, if◌then◌else◌, ◌∙◌,
}
use scamlens.Dns.Cache.Keyed.{same-prefix}
use scamlens.Dns.Cache.{Redis, Payload}
use scamlens.Postgres.{Db, VerdictRow, has_seed}
use scamlens.Postgres.Seeds.{has_seed-insert_seed}
use scamlens.Scanner.Heuristics.{Severity, safe, suspicious, scam}
use scamlens.Scanner.Ai.{ScanVerdict}
use scamlens.Scanner.Store.{
  Ttls, pick_ttl, ScanState, upsert_verdict, verdict_payload, verdict_row, is_scam, save_rows,
  put_payload, save,
}

pub record IsPositive (t : Ttls) : Type 0 where
  pub safe_pos : 0 < t.safe_ttl
  pub scam_pos : 0 < t.scam_ttl
  pub unknown_pos : 0 < t.unknown_ttl

pub pick_ttl-pos : (v : Severity) (t : Ttls) → IsPositive t → 0 < pick_ttl v t
unfolding pick_ttl
pick_ttl-pos safe t p = p.safe_pos
pick_ttl-pos suspicious t p = p.unknown_pos
pick_ttl-pos scam t p = p.scam_pos

abbrev pub cached : (r : Redis) → Text → ScanState r → Option Payload
cached r domain s = r.verdicts.get (codes "verdict:" ++ domain) s.cache.verdicts

pub cached-put_payload :
    (r : Redis) (k j : Text) (p : Payload) (ttl : ℕ) (s : ScanState r)
    → 0 < ttl
    → cached r j (put_payload r k p ttl s) ≡ (if same k j then some p else cached r j s)
unfolding put_payload
cached-put_payload r k j p ttl s h =
    r.verdicts.get-set (codes "verdict:" ++ k) (codes "verdict:" ++ j) p ttl s.cache.verdicts h
    ∙ rw (same-prefix (codes "verdict:") k j)

-- Every verdict lives for at least that many seconds.
pub record LastsFor (life : ℕ) (t : Ttls) : Type 0 where
  pub safe_long : life ≤ t.safe_ttl
  pub scam_long : life ≤ t.scam_ttl
  pub unknown_long : life ≤ t.unknown_ttl

pub pick_ttl-long : (v : Severity) (life : ℕ) (t : Ttls) → LastsFor life t → life ≤ pick_ttl v t
unfolding pick_ttl
pick_ttl-long safe life t p = p.safe_long
pick_ttl-long suspicious life t p = p.unknown_long
pick_ttl-long scam life t p = p.scam_long

-- What is cached that many seconds later, if nothing is written.
abbrev pub cached_later : (r : Redis) → ℕ → Text → ScanState r → Option Payload
cached_later r t domain s =
    r.verdicts.get (codes "verdict:" ++ domain) (r.verdicts.elapse t s.cache.verdicts)

pub cached_later-put_payload :
    (r : Redis) (t : ℕ) (k : Text) (p : Payload) (ttl : ℕ) (s : ScanState r)
    → t < ttl
    → cached_later r t k (put_payload r k p ttl s) ≡ some p
unfolding put_payload
cached_later-put_payload r t k p ttl s h =
    r.verdicts.get-elapse_kept (codes "verdict:" ++ k) p ttl t s.cache.verdicts h

pub cached_later-put_other :
    (r : Redis) (t : ℕ) (k j : Text) (p : Payload) (ttl : ℕ) (s : ScanState r)
    → same k j ≡ false
    → cached_later r t j (put_payload r k p ttl s) ≡ cached_later r t j s
unfolding put_payload
cached_later-put_other r t k j p ttl s h =
    r.verdicts.get-elapse_other (codes "verdict:" ++ k) (codes "verdict:" ++ j) p ttl t
      s.cache.verdicts (same-prefix (codes "verdict:") k j ∙ h)

unfoldable pub find_row : Text → List VerdictRow → Option VerdictRow
find_row d [] = none
find_row d (row ∷ rows) = if same d row.domain then some row else find_row d rows

find_row-upsert :
    (d : Text) (row : VerdictRow) (rows : List VerdictRow)
    → find_row d (upsert_verdict row rows)
      ≡ (if same d row.domain then some row else find_row d rows)
unfolding find_row upsert_verdict
find_row-upsert d row [] = refl
find_row-upsert d row (old ∷ rows) = ground (
  arith,
  same_iff d row.domain,
  same_iff row.domain old.domain,
  same_iff d old.domain,
  find_row-upsert d row rows,
)

seeded-save_rows :
    (seed pg : Bool) (d : Text) (v : ScanVerdict) (j : Text) (db : Db)
    → has_seed j (save_rows pg seed d v db).blocklist_seed ≡ (
        ((is_scam v.verdict && leb 70 v.confidence && seed) && same j d)
        || has_seed j db.blocklist_seed)
unfolding save_rows
seeded-save_rows seed pg d v j db =
    ground (arith, has_seed-insert_seed j d (codes "ai-confirmed") db.blocklist_seed)

rows-save_rows :
    (seed pg : Bool) (d : Text) (v : ScanVerdict) (j : Text) (db : Db)
    → find_row j (save_rows pg seed d v db).domain_verdicts
      ≡ (if pg && same j d then some (verdict_row d v) else find_row j db.domain_verdicts)
unfolding save_rows verdict_row
rows-save_rows seed pg d v j db =
    ground (arith, find_row-upsert j (verdict_row d v) db.domain_verdicts)

-- For times to live above 0 and every domain `j`, after `save` of a verdict for `d`: the cache
-- holds the saved payload under `d` and what it held under any other domain; so does the table
-- domain_verdicts, if its statement succeeds, and it is unchanged if not; and the blocklist has
-- gained `d` exactly if the verdict is scam with a confidence of 70 or more and that statement
-- succeeds.
pub save_lem :
    (r : Redis) (t : Ttls) (pg seed : Bool) (now : ℕ) (d j : Text) (v : ScanVerdict)
    (s : ScanState r)
    → IsPositive t
    → (cached r j (save r t pg seed now d v s)
        ≡ (if same d j then some (verdict_payload v now) else cached r j s))
      × (find_row j (save r t pg seed now d v s).db.domain_verdicts
          ≡ (if pg && same j d then some (verdict_row d v) else find_row j s.db.domain_verdicts))
      × (has_seed j (save r t pg seed now d v s).db.blocklist_seed ≡ (
          ((is_scam v.verdict && leb 70 v.confidence && seed) && same j d)
          || has_seed j s.db.blocklist_seed))
unfolding save put_payload
save_lem r t pg seed now d j v s p = (
  cached-put_payload r d j (verdict_payload v now) (pick_ttl v.verdict t) s
      (pick_ttl-pos v.verdict t p),
  rows-save_rows seed pg d v j s.db,
  seeded-save_rows seed pg d v j s.db,
)
