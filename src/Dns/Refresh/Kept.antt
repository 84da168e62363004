-- ===== src/Dns/Refresh/Kept.antt =====
-- dns_server/main.py: what a refresh means for the queries that follow.
use scamlens.Base.{
  ℕ, true, false, ◌≡◌, refl, Text, List, [], ◌∷◌, Option, some, elem, split, Bool-cases, inl, inr,
}
use scamlens.Dns.Cache.{Redis, CacheState}
use scamlens.Dns.Db.{load_blocklist, load_whitelist}
use scamlens.Dns.Refresh.{Round, Shared, refresh_lists}
use scamlens.Dns.Resolver.{
  DnsLib, Request, Resolver, is_bypass, is_nil, match_chain, parent_chain, chain_of, any_in,
  resolve,
}
use scamlens.Dns.Resolver.Ancestors.{match_chain_iff}
use scamlens.Dns.Resolver.Decision.{query_name, resolve-blocked_iff}
use scamlens.Postgres.{Db}

match_chain-nil : (x : Text) → match_chain x [] ≡ false
match_chain-nil x = elim (Bool-cases (match_chain x [])) [
  | inr e ↦ e
  | inl e ↦ let (d, m, a) = (match_chain_iff x []).0 e in unfold elem in cc m
]

listed-not_nil : (q : Text) (list : List Text) → match_chain q list ≡ true → is_nil q ≡ false
unfolding match_chain parent_chain chain_of split any_in
listed-not_nil [] list h = cc
listed-not_nil (c ∷ q) list h = refl

module _ (lib : DnsLib) (ask : Text → Option Text) (r : Redis) (s : CacheState r) (wire : Text)
    (request : Request) (ip : Option Text) (user : Option ℕ)
    (parsed : lib.parse wire ≡ some request) where
  pub listed-blocked :
      (res : Resolver)
      → is_bypass (query_name request) ≡ false
      → match_chain (query_name request) res.whitelist ≡ false
      → match_chain (query_name request) res.blocklist ≡ true
      → (resolve lib res ask r s wire ip user).0.blocked ≡ true
  listed-blocked res b w l =
      (resolve-blocked_iff lib res ask r s wire request ip user parsed).1
        (listed-not_nil (query_name request) res.blocklist l, b, w, inl l)

-- A round in which the blocklist is read but the whitelist is not: every query for a listed name, or
-- for a name below one, is blocked from then on, the whitelist notwithstanding, unless its suffix is
-- one that is never blocked.
pub refresh_lists-forgets_whitelist :
    (lib : DnsLib) (ask : Text → Option Text) (r : Redis) (s : CacheState r) (wire : Text)
    (request : Request) (ip : Option Text) (user : Option ℕ) (round : Round) (db : Db)
    (shared : Shared)
    → lib.parse wire ≡ some request
    → round.blocklist ≡ true
    → round.whitelist ≡ false
    → is_bypass (query_name request) ≡ false
    → match_chain (query_name request) (load_blocklist true db) ≡ true
    → (resolve lib (refresh_lists round db shared).resolver ask r s wire ip user).0.blocked ≡ true
unfolding refresh_lists load_whitelist
refresh_lists-forgets_whitelist lib ask r s wire request ip user round db shared parsed read lost b
      l =
    listed-blocked lib ask r s wire request ip user parsed (refresh_lists round db shared).resolver
      b (rw (read, lost, refresh_lists, load_whitelist) (match_chain-nil (query_name request)))
      (rw (read, refresh_lists) l)

-- A round in which the blocklist is not read changes nothing.
refresh_lists-unread :
    (round : Round) (db : Db) (shared : Shared)
    → round.blocklist ≡ false
    → refresh_lists round db shared ≡ shared
unfolding refresh_lists
refresh_lists-unread round db shared h = rw h refl
