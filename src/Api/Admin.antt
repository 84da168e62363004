-- ===== src/Api/Admin.antt =====
-- api/routers/admin.py: the handlers that change the blocklist, the whitelist, the reports and the
-- brand table. An absent `report_id` is a 404; the administrator's e-mail is an argument.
pub mod Lists
pub mod Entries
pub mod Reach
use scamlens.Base.{
  ℕ, Bool, true, false, not, ◌==◌, ◌&&◌, ◌||◌, Text, List, [], ◌∷◌, ◌++◌, Option, none, some, same,
  has_char, lower, strip, rstrip, white, starts_with, drop, length, split, ltb, codes,
  if◌then◌else◌,
}
use scamlens.Dns.Cache.{Payload, Label, safe, blocking}
use scamlens.Postgres.{
  SeedRow, WhiteRow, VerdictRow, ReportRow, Status, waiting, confirmed, rejected, Db, insert_seed,
  delete_seed, has_white, delete_white,
}
use scamlens.Redis.{Keys}

-- `v.split(c)[0]`
unfoldable pub before : ℕ → Text → Text
before c [] = []
before c (x ∷ s) = let rest = before c s in if x == c then [] else x ∷ rest

unfoldable pub drop_prefix : Text → Text → Text
drop_prefix p v = if starts_with p v then drop (length p) v else v

-- `DomainEntry`, its length limits and `_norm`: `none` is a validation error.
unfoldable pub norm : Text → Option Text
unfolding drop_prefix before
norm v =
    if ltb (length v) 3 || ltb 253 (length v)
    then none
    else (let d = before 63 (
          before 47 (
            drop_prefix (codes "http://")
              (drop_prefix (codes "https://") (rstrip (codes ".") (lower (strip white v)))))) in
        if not (has_char 46 d) || has_char 32 d then none else some d)

-- The path parameter of the DELETE routes.
unfoldable pub path_domain : Text → Text
path_domain v = rstrip (codes ".") (lower (strip white v))

-- UPDATE domain_verdicts SET verdict='safe' WHERE domain=$1 AND verdict IN ('scam','suspicious')
unfoldable pub declassify : Text → List VerdictRow → List VerdictRow
declassify d [] = []
declassify d (row ∷ rows) =
    let rest = declassify d rows in
    if same d row.domain && blocking row.verdict
    then record row { verdict = safe } ∷ rest
    else row ∷ rest

-- INSERT INTO whitelist ... ON CONFLICT (domain) DO UPDATE SET reason, added_by
unfoldable pub upsert_white : WhiteRow → List WhiteRow → List WhiteRow
upsert_white row [] = row ∷ []
upsert_white row (r ∷ rows) =
    let rest = upsert_white row rows in if same row.domain r.domain then row ∷ rows else r ∷ rest

-- UPDATE user_reports SET status=... WHERE id=$1 RETURNING domain
unfoldable pub update_report : ℕ → Status → List ReportRow → Option Text × List ReportRow
update_report id status [] = (none, [])
update_report id status (row ∷ rows) =
    let (found, rest) = update_report id status rows in
    if id == row.id
    then (some row.domain, record row { status = status } ∷ rows)
    else (found, row ∷ rest)

unfoldable pub reason_or_manual : Option Text → Text
reason_or_manual none = codes "manual"
reason_or_manual (some []) = codes "manual"
reason_or_manual (some (c ∷ s)) = c ∷ s

-- `none` is the 404.
unfoldable pub confirm_report : ℕ → Db → Option Text × Db
unfolding update_report insert_seed
confirm_report id db =
    let (found, rows) = update_report id confirmed db.user_reports in
    elim found [
      | none ↦ (none, db)
      | some d ↦ (
        some d,
        record db {
          user_reports = rows;
          blocklist_seed = insert_seed d (codes "user-report") db.blocklist_seed;
        },
      )
    ]

unfoldable pub reject_report : ℕ → Db → Option Text × Db
unfolding update_report
reject_report id db =
    let (found, rows) = update_report id rejected db.user_reports in
    elim found [ none ↦ (none, db) | some d ↦ (some d, record db { user_reports = rows }) ]

-- INSERT INTO brand_domains ... ON CONFLICT (domain) DO UPDATE SET brand
unfoldable pub upsert_brand : Text → Text → List (Text × Text) → List (Text × Text)
upsert_brand d brand [] = (d, brand) ∷ []
upsert_brand d brand ((j, old) ∷ rows) =
    let rest = upsert_brand d brand rows in if same d j then (j, brand) ∷ rows else (j, old) ∷ rest

-- `BrandEntry._norm` and the handler; the category is left out.
unfoldable pub add_brand : Text → Text → Db → Db
unfolding path_domain upsert_brand
add_brand domain brand db = record db {
  brand_domains = upsert_brand (path_domain domain) brand db.brand_domains;
}

unfoldable pub delete_brand : Text → List (Text × Text) → List (Text × Text)
delete_brand d [] = []
delete_brand d ((j, brand) ∷ rows) =
    let rest = delete_brand d rows in if same d j then rest else (j, brand) ∷ rest

unfoldable pub remove_brand : Text → Db → Db
unfolding path_domain delete_brand
remove_brand domain db = record db {
  brand_domains = delete_brand (path_domain domain) db.brand_domains;
}

module _ (verdicts : Keys Payload) (deep : Keys Text) where
  -- The state that a handler on a domain changes: the tables, `verdict:` and `deep:`.
  pub record Admin : Type 0 where
    pub db : Db
    pub verdicts_state : verdicts.State
    pub deep_state : deep.State

  -- `redis.delete(f"verdict:{domain}", f"deep:{domain}")`
  abbrev clear : Text → Db → Admin → Admin
  clear d db a = record {
    db = db;
    verdicts_state = verdicts.delete (codes "verdict:" ++ d) a.verdicts_state;
    deep_state = deep.delete (codes "deep:" ++ d) a.deep_state;
  }

  unfoldable pub add_blocklist : Text → Option Text → Admin → Admin
  unfolding insert_seed delete_white reason_or_manual
  add_blocklist d reason a =
      clear d
        (record (a.db) {
          blocklist_seed = insert_seed d (reason_or_manual reason) a.db.blocklist_seed;
          whitelist = delete_white d a.db.whitelist;
        })
        a

  unfoldable pub remove_blocklist : Text → Admin → Admin
  unfolding path_domain delete_seed declassify
  remove_blocklist domain a =
      let d = path_domain domain in
      clear d
        (record (a.db) {
          blocklist_seed = delete_seed d a.db.blocklist_seed;
          domain_verdicts = declassify d a.db.domain_verdicts;
        })
        a

  unfoldable pub add_whitelist : Text → Option Text → Text → Admin → Admin
  unfolding upsert_white delete_seed declassify
  add_whitelist d reason email a =
      clear d
        (record (a.db) {
          whitelist =
              upsert_white (record { domain = d; reason = reason; added_by = email })
                a.db.whitelist;
          blocklist_seed = delete_seed d a.db.blocklist_seed;
          domain_verdicts = declassify d a.db.domain_verdicts;
        })
        a

  unfoldable pub remove_whitelist : Text → Admin → Admin
  unfolding path_domain delete_white
  remove_whitelist domain a =
      let d = path_domain domain in
      clear d (record (a.db) { whitelist = delete_white d a.db.whitelist }) a
