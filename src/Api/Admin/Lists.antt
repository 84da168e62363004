-- ===== src/Api/Admin/Lists.antt =====
-- api/routers/admin.py against dns_server/db.py: what the next refresh of the blocklist loads after
-- a change, and which caches are gone.
use scamlens.Base.{
  true, false, ◌≡◌, ◌||◌, refl, arith, Text, List, [], ◌∷◌, ◌++◌, Option, none, same, same_iff,
  same_refl, elem, codes, if◌then◌else◌, Bool-cases, inl, inr,
}
use scamlens.Api.Admin.{
  Admin, path_domain, declassify, upsert_white, reason_or_manual, add_blocklist, remove_blocklist,
  add_whitelist,
}
use scamlens.Dns.Cache.{Payload, blocking}
use scamlens.Dns.Db.{load_blocklist, seed_domains, blocking_domains, confirmed_domains}
use scamlens.Postgres.{SeedRow, WhiteRow, VerdictRow, Db, has_seed, has_white}
use scamlens.Postgres.Seeds.{has_seed-insert_seed, has_seed-delete_seed, has_white-delete_white}
use scamlens.Redis.{Keys, get-delete_same}

elem-append : (j : Text) (xs ys : List Text) → elem j (xs ++ ys) ≡ (elem j xs || elem j ys)
unfolding elem
elem-append j [] ys = refl
elem-append j (x ∷ xs) ys = ground (arith, elem-append j xs ys)

elem-seed_domains : (j : Text) (rows : List SeedRow) → elem j (seed_domains rows) ≡ has_seed j rows
unfolding elem seed_domains has_seed
elem-seed_domains j [] = refl
elem-seed_domains j (row ∷ rows) = ground (arith, elem-seed_domains j rows)

pub elem-load_blocklist :
    (j : Text) (db : Db)
    → elem j (load_blocklist true db) ≡ (
        has_seed j db.blocklist_seed
        || (elem j (blocking_domains db.domain_verdicts)
            || elem j (confirmed_domains db.user_reports)))
unfolding load_blocklist
elem-load_blocklist j db = ground (
  arith,
  elem-append j (seed_domains db.blocklist_seed)
      (blocking_domains db.domain_verdicts ++ confirmed_domains db.user_reports),
  elem-append j (blocking_domains db.domain_verdicts) (confirmed_domains db.user_reports),
  elem-seed_domains j db.blocklist_seed,
)

elem-blocking_domains-declassify :
    (j d : Text) (rows : List VerdictRow)
    → elem j (blocking_domains (declassify d rows))
      ≡ (if same j d then false else elem j (blocking_domains rows))
unfolding elem declassify blocking_domains
elem-blocking_domains-declassify j d [] = ground arith
elem-blocking_domains-declassify j d (row ∷ rows) = elim (Bool-cases (same d row.domain)) [
  | inl e ↦ elim (Bool-cases (blocking row.verdict)) [
    | inl f ↦ ground (
      arith,
      e,
      f,
      same_iff d row.domain,
      same_iff j row.domain,
      same_iff d j,
      elem-blocking_domains-declassify j d rows,
    )
    | inr f ↦ ground (arith, e, f, elem-blocking_domains-declassify j d rows)
  ]
  | inr e ↦ ground (
    arith,
    e,
    same_iff d row.domain,
    same_iff j row.domain,
    same_iff j d,
    elem-blocking_domains-declassify j d rows,
  )
]

has_white-upsert_white :
    (j : Text) (row : WhiteRow) (rows : List WhiteRow)
    → has_white j (upsert_white row rows) ≡ (same j row.domain || has_white j rows)
unfolding has_white upsert_white
has_white-upsert_white j row [] = ground arith
has_white-upsert_white j row (r ∷ rows) =
    ground (arith, same_iff row.domain r.domain, has_white-upsert_white j row rows)

-- After the administrator removes a domain, the next load of the blocklist has it exactly if a
-- confirmed user report names it; every other domain is in the load exactly if it was before, and
-- neither cache has the removed domain.
pub remove_blocklist_loads :
    (verdicts : Keys Payload) (deep : Keys Text) (domain j : Text) (a : Admin verdicts deep)
    → let after = remove_blocklist verdicts deep domain a in
      (elem j (load_blocklist true after.db) ≡ (
        if same j (path_domain domain)
        then elem j (confirmed_domains a.db.user_reports)
        else elem j (load_blocklist true a.db)))
      × ((verdicts.get (codes "verdict:" ++ path_domain domain) after.verdicts_state ≡ none)
          × (deep.get (codes "deep:" ++ path_domain domain) after.deep_state ≡ none))
unfolding remove_blocklist
remove_blocklist_loads verdicts deep domain j a = (
  ground (
    arith,
    elem-load_blocklist j a.db,
    elem-load_blocklist j (remove_blocklist verdicts deep domain a).db,
    has_seed-delete_seed j (path_domain domain) a.db.blocklist_seed,
    elem-blocking_domains-declassify j (path_domain domain) a.db.domain_verdicts,
    same_iff j (path_domain domain),
    same_iff (path_domain domain) j,
    same_refl j,
  ),
  (
    get-delete_same verdicts (codes "verdict:" ++ path_domain domain) a.verdicts_state,
    get-delete_same deep (codes "deep:" ++ path_domain domain) a.deep_state,
  ),
)

-- After the administrator blocks a domain, exactly that domain is new to the blocklist, it is on the
-- whitelist no longer while every other domain stays there, and neither cache has it.
pub add_blocklist_wins :
    (verdicts : Keys Payload) (deep : Keys Text) (d : Text) (reason : Option Text) (j : Text)
    (a : Admin verdicts deep)
    → let after = add_blocklist verdicts deep d reason a in
      (elem j (load_blocklist true after.db) ≡ (same j d || elem j (load_blocklist true a.db)))
      × ((has_white j after.db.whitelist ≡ (if same d j then false else has_white j a.db.whitelist))
          × ((verdicts.get (codes "verdict:" ++ d) after.verdicts_state ≡ none)
              × (deep.get (codes "deep:" ++ d) after.deep_state ≡ none)))
unfolding add_blocklist
add_blocklist_wins verdicts deep d reason j a = (
  ground (
    arith,
    elem-load_blocklist j a.db,
    elem-load_blocklist j (add_blocklist verdicts deep d reason a).db,
    has_seed-insert_seed j d (reason_or_manual reason) a.db.blocklist_seed,
  ),
  (
    has_white-delete_white j d a.db.whitelist,
    (
      get-delete_same verdicts (codes "verdict:" ++ d) a.verdicts_state,
      get-delete_same deep (codes "deep:" ++ d) a.deep_state,
    ),
  ),
)

-- After the administrator whitelists a domain, it is on the whitelist and every other domain is there
-- exactly if it was before; the table of seeds has the domain no longer, and neither cache has it.
add_whitelist_wins :
    (verdicts : Keys Payload) (deep : Keys Text) (d : Text) (reason : Option Text) (email j : Text)
    (a : Admin verdicts deep)
    → let after = add_whitelist verdicts deep d reason email a in
      (has_white j after.db.whitelist ≡ (same j d || has_white j a.db.whitelist))
      × ((has_seed j after.db.blocklist_seed
            ≡ (if same d j then false else has_seed j a.db.blocklist_seed))
          × ((verdicts.get (codes "verdict:" ++ d) after.verdicts_state ≡ none)
              × (deep.get (codes "deep:" ++ d) after.deep_state ≡ none)))
unfolding add_whitelist
add_whitelist_wins verdicts deep d reason email j a = (
  has_white-upsert_white j (record { domain = d; reason = reason; added_by = email })
      a.db.whitelist,
  (
    has_seed-delete_seed j d a.db.blocklist_seed,
    (
      get-delete_same verdicts (codes "verdict:" ++ d) a.verdicts_state,
      get-delete_same deep (codes "deep:" ++ d) a.deep_state,
    ),
  ),
)
