-- ===== src/Scripts/Tranco/Import.antt =====
-- scripts/import_tranco.py: the whitelist after an import, and what it means for the resolver.
use scamlens.Base.{
  ℕ, Bool, true, false, ◌||◌, ◌≡◌, refl, arith, Text, List, [], ◌∷◌, ◌++◌, map, Option, some, same,
  same_iff, elem, codes, starts_with, strip, white, length, leb, Bool-cases, Option-cases, inl, inr,
  ap, ◌∙◌, sym, All, All-append, some_inj, subst,
}
use scamlens.Api.Admin.{Admin, add_blocklist}
use scamlens.Dns.Cache.{Redis, CacheState, Payload}
use scamlens.Dns.Db.{load_whitelist}
use scamlens.Dns.Refresh.{Round, Shared, refresh_lists}
use scamlens.Dns.Resolver.{DnsLib, Request, match_chain, resolve}
use scamlens.Dns.Resolver.Ancestors.{IsAncestor, match_chain_iff}
use scamlens.Dns.Resolver.Decision.{query_name, resolve-blocked_iff}
use scamlens.Postgres.{WhiteRow, Db, has_white}
use scamlens.Redis.{Keys}
use scamlens.Scripts.Tranco.{
  split_once, row_of, read_rows, is_popular, delete_popular, insert_popular, import_tranco,
}

-- The domain of one of the rows.
unfoldable pub names : Text → List (Text × Text) → Bool
names j [] = false
names j ((d, reason) ∷ rows) = same j d || names j rows

abbrev pub IsRanked : Text × Text → Type 0
IsRanked row = is_popular (some row.1) ≡ true

starts_with-prefix : (p s : Text) → starts_with p (p ++ s) ≡ true
unfolding starts_with
starts_with-prefix [] s = refl
starts_with-prefix (c ∷ p) s = ground (arith, starts_with-prefix p s)

read_rows-IsRanked :
    (top : ℕ) (lines : List Text) (rows out : List (Text × Text))
    → All IsRanked rows
    → read_rows top lines rows ≡ some out
    → All IsRanked out
unfolding read_rows is_popular
read_rows-IsRanked top [] rows out h e = subst (All IsRanked) (some_inj e) h
read_rows-IsRanked top (line ∷ lines) rows out h e =
    elim (Option-cases (split_once b',' (strip white line))) [
      | inl k ↦ cc (rw (k, read_rows) at e)
      | inr ((rank, domain), k) ↦
          let next = rows ++ row_of (rank, domain) ∷ [] in
          let ranked : All IsRanked next =
            All-append IsRanked rows (row_of (rank, domain) ∷ []) h
              (starts_with-prefix (codes "tranco-rank-") rank, tt) in
          elim (Bool-cases (leb top (length next))) [
            | inl f ↦ subst (All IsRanked) (some_inj (rw (k, read_rows, f) at e)) ranked
            | inr f ↦ read_rows-IsRanked top lines next out ranked (rw (k, read_rows, f) at e)
          ]
    ]

delete_popular-append :
    (list : List WhiteRow) (row : WhiteRow)
    → is_popular row.reason ≡ true
    → delete_popular (list ++ row ∷ []) ≡ delete_popular list
unfolding delete_popular
delete_popular-append [] row h = ground (arith, h)
delete_popular-append (r ∷ list) row h = elim (Bool-cases (is_popular r.reason)) [
  | inl e ↦ rw e (delete_popular-append list row h)
  | inr e ↦ rw e (ap (◌∷◌ r) (delete_popular-append list row h))
]

delete_popular-twice :
    (list : List WhiteRow) → delete_popular (delete_popular list) ≡ delete_popular list
unfolding delete_popular
delete_popular-twice [] = refl
delete_popular-twice (r ∷ list) = elim (Bool-cases (is_popular r.reason)) [
  | inl e ↦ rw e (delete_popular-twice list)
  | inr e ↦ rw e (rw e (ap (◌∷◌ r) (delete_popular-twice list)))
]

delete_popular-insert_popular :
    (rows : List (Text × Text)) (list : List WhiteRow)
    → All IsRanked rows
    → delete_popular (insert_popular rows list) ≡ delete_popular list
unfolding insert_popular
delete_popular-insert_popular [] list h = refl
delete_popular-insert_popular ((d, reason) ∷ rows) list (ranked, h) =
    elim (Bool-cases (has_white d list)) [
      | inl e ↦ rw e (delete_popular-insert_popular rows list h)
      | inr e ↦ rw e (delete_popular-insert_popular rows _ h ∙ delete_popular-append list _ ranked)
    ]

has_white-append :
    (j : Text) (list : List WhiteRow) (row : WhiteRow)
    → has_white j (list ++ row ∷ []) ≡ (has_white j list || same j row.domain)
unfolding has_white
has_white-append j [] row = ground arith
has_white-append j (r ∷ list) row = ground (arith, has_white-append j list row)

has_white-insert_popular :
    (j : Text) (rows : List (Text × Text)) (list : List WhiteRow)
    → has_white j (insert_popular rows list) ≡ (has_white j list || names j rows)
unfolding insert_popular names
has_white-insert_popular j [] list = ground arith
has_white-insert_popular j ((d, reason) ∷ rows) list = elim (Bool-cases (has_white d list)) [
  | inl e ↦ rw e (has_white-insert_popular j rows list ∙ ground (arith, e, same_iff j d))
  | inr e ↦ rw e (
      has_white-insert_popular j rows _
      ∙ ground (
        arith,
        has_white-append j list
            (record { domain = d; reason = some reason; added_by = codes "tranco" }),
      ))
]

import_tranco-some :
    (top : ℕ) (lines : List Text) (rows : List (Text × Text)) (db : Db)
    → read_rows top lines [] ≡ some rows
    → import_tranco top lines db
      ≡ some (record db { whitelist = insert_popular rows (delete_popular db.whitelist) })
unfolding import_tranco
import_tranco-some top lines rows db e = rw (e, import_tranco) refl

-- For every file whose lines are read: the import leaves the entries of the whitelist that do not come
-- from an import as they were, in their order; and a domain is on the whitelist exactly if such an
-- entry, or a row that was read, has it.
import_tranco_lem :
    (top : ℕ) (lines : List Text) (rows : List (Text × Text)) (db db' : Db) (j : Text)
    → read_rows top lines [] ≡ some rows
    → import_tranco top lines db ≡ some db'
    → (delete_popular db'.whitelist ≡ delete_popular db.whitelist)
      × (has_white j db'.whitelist ≡ (has_white j (delete_popular db.whitelist) || names j rows))
import_tranco_lem top lines rows db db' j e h =
    let k : record db { whitelist = insert_popular rows (delete_popular db.whitelist) } ≡ db' =
      some_inj (sym (import_tranco-some top lines rows db e) ∙ h) in
    let ranked = read_rows-IsRanked top lines [] rows tt e in
    rw (← k) (
      delete_popular-insert_popular rows (delete_popular db.whitelist) ranked
          ∙ delete_popular-twice db.whitelist,
      has_white-insert_popular j rows (delete_popular db.whitelist),
    )

elem-whitelist :
    (j : Text) (list : List WhiteRow)
    → elem j (map (λ (row : WhiteRow). row.domain) list) ≡ has_white j list
unfolding elem has_white
elem-whitelist j [] = refl
elem-whitelist j (row ∷ list) = ground (arith, elem-whitelist j list)

-- An import that reads a domain puts it, and every name below it, out of reach of the blocklist: after
-- the next round, which reads both lists, no query for them is blocked, also where an administrator
-- had blocked the domain before the import.
pub import_tranco-unblocks :
    (lib : DnsLib) (ask : Text → Option Text) (r : Redis) (s : CacheState r) (wire : Text)
    (request : Request) (ip : Option Text) (user : Option ℕ) (verdicts : Keys Payload)
    (deep : Keys Text) (d : Text) (reason : Option Text) (a : Admin verdicts deep) (top : ℕ)
    (lines : List Text) (rows : List (Text × Text)) (db' : Db) (round : Round) (shared : Shared)
    → lib.parse wire ≡ some request
    → round.blocklist ≡ true
    → round.whitelist ≡ true
    → read_rows top lines [] ≡ some rows
    → names d rows ≡ true
    → import_tranco top lines (add_blocklist verdicts deep d reason a).db ≡ some db'
    → IsAncestor d (query_name request)
    → (resolve lib (refresh_lists round db' shared).resolver ask r s wire ip user).0.blocked ≡ false
unfolding refresh_lists load_whitelist
import_tranco-unblocks lib ask r s wire request ip user verdicts deep d reason a top lines rows db'
      round shared parsed read white_read e listed h below =
    let res = (refresh_lists round db' shared).resolver in
    let there : has_white d db'.whitelist ≡ true =
      (import_tranco_lem top lines rows (add_blocklist verdicts deep d reason a).db db' d e h).1
      ∙ ground (arith, listed) in
    let held : match_chain (query_name request) (map (λ (row : WhiteRow). row.domain) db'.whitelist)
        ≡ true =
      (match_chain_iff (query_name request) _).1
        (d, elem-whitelist d db'.whitelist ∙ there, below) in
    let held_by_res : match_chain (query_name request) res.whitelist ≡ true =
      rw (read, refresh_lists, white_read, load_whitelist) held in
    elim (Bool-cases (resolve lib res ask r s wire ip user).0.blocked) [
      | inr k ↦ k
      | inl k ↦
          let (name, bypass, free, why) =
            (resolve-blocked_iff lib res ask r s wire request ip user parsed).0 k in
          cc (held_by_res, free)
    ]
