-- ===== src/Api/Admin/Reach.antt =====
-- api/routers/admin.py with dns_server/main.py and resolver.py: what an administrator's block means for
-- the queries after the next refresh.
use scamlens.Base.{
  ℕ, Bool, true, false, ◌≡◌, arith, Text, List, [], ◌∷◌, map, Option, some, same, same_refl, elem,
  Bool-cases, inl, inr, ◌∙◌,
}
use scamlens.Api.Admin.{Admin, add_blocklist}
use scamlens.Api.Admin.Lists.{add_blocklist_wins}
use scamlens.Dns.Cache.{Redis, CacheState, Payload}
use scamlens.Dns.Db.{load_blocklist, load_whitelist}
use scamlens.Dns.Refresh.{Round, Shared, refresh_lists}
use scamlens.Dns.Refresh.Kept.{listed-blocked}
use scamlens.Dns.Resolver.{DnsLib, Request, is_bypass, match_chain, resolve}
use scamlens.Dns.Resolver.Ancestors.{IsAncestor, match_chain_iff}
use scamlens.Dns.Resolver.Decision.{query_name}
use scamlens.Postgres.{WhiteRow, Db, has_white}
use scamlens.Redis.{Keys}

elem-load_whitelist :
    (j : Text) (works : Bool) (db : Db)
    → elem j (load_whitelist true works db) ≡ true
    → has_white j db.whitelist ≡ true
unfolding load_whitelist elem has_white
elem-load_whitelist j false db h = cc
elem-load_whitelist j true db h = go db.whitelist h
  where
    go :
        (rows : List WhiteRow)
        → elem j (map (λ (row : WhiteRow). row.domain) rows) ≡ true
        → has_white j rows ≡ true
    go [] k = k
    go (row ∷ rows) k = ground (arith, k, go rows)

-- The block of `d` takes `d` off the whitelist, and nothing else may be there for the name.
module _ (verdicts : Keys Payload) (deep : Keys Text) (d : Text) (reason : Option Text)
    (a : Admin verdicts deep) (name : Text) (works : Bool)
    (only : (j : Text)
      → IsAncestor j name
      → same d j ≡ false
      → has_white j a.db.whitelist ≡ false) where
  not_whitelisted :
      match_chain name (load_whitelist true works (add_blocklist verdicts deep d reason a).db)
      ≡ false
  not_whitelisted =
      let list = load_whitelist true works (add_blocklist verdicts deep d reason a).db in
      elim (Bool-cases (match_chain name list)) [
        | inr e ↦ e
        | inl e ↦
            let (j, m, above) = (match_chain_iff name list).0 e in
            let there = elem-load_whitelist j works (add_blocklist verdicts deep d reason a).db m in
            let gone = (add_blocklist_wins verdicts deep d reason j a).1.0 in
            elim (Bool-cases (same d j)) [
              | inl k ↦ cc (there, rw k at gone)
              | inr k ↦ cc (there, rw k at gone, only j above k)
            ]
      ]

-- After the administrator blocks a domain and a round reads the blocklist: every query for the domain
-- or for a name below it is blocked, whatever the other lists of the round give, unless its suffix is
-- one that is never blocked or another of its ancestors was whitelisted.
pub add_blocklist-blocked :
    (lib : DnsLib) (ask : Text → Option Text) (r : Redis) (s : CacheState r) (wire : Text)
    (request : Request) (ip : Option Text) (user : Option ℕ) (verdicts : Keys Payload)
    (deep : Keys Text) (d : Text) (reason : Option Text) (a : Admin verdicts deep) (round : Round)
    (shared : Shared)
    → lib.parse wire ≡ some request
    → round.blocklist ≡ true
    → is_bypass (query_name request) ≡ false
    → IsAncestor d (query_name request)
    → ((j : Text)
        → IsAncestor j (query_name request)
        → same d j ≡ false
        → has_white j a.db.whitelist ≡ false)
    → (resolve lib
        (refresh_lists round (add_blocklist verdicts deep d reason a).db shared).resolver
        ask
        r
        s
        wire
        ip
        user).0.blocked
      ≡ true
unfolding refresh_lists
add_blocklist-blocked lib ask r s wire request ip user verdicts deep d reason a round shared parsed
      read b above only =
    let after = (add_blocklist verdicts deep d reason a).db in
    let listed : elem d (load_blocklist true after) ≡ true =
      (add_blocklist_wins verdicts deep d reason d a).0 ∙ ground (arith, same_refl d) in
    listed-blocked lib ask r s wire request ip user parsed
      (refresh_lists round after shared).resolver b
      (rw (read, refresh_lists)
        (not_whitelisted verdicts deep d reason a (query_name request) round.whitelist only))
      (rw (read, refresh_lists)
        ((match_chain_iff (query_name request) (load_blocklist true after)).1 (d, listed, above)))
