-- ===== src/Api/Check/Order.antt =====
-- api/routers/check.py against dns_server/resolver.py: the two walks of the blocklist, and
-- the order of the lookups.
use scamlens.Base.{
  Bool, true, false, ◌≡◌, ◌||◌, ◌&&◌, refl, arith, Text, List, [], ◌∷◌, ◌++◌, Option, none, some,
  same_iff, elem, is_some, codes, split, if◌then◌else◌, Bool-cases, Option-cases, inl, inr, ap, ◌∙◌,
  lower, strip, rstrip, white, leb, length,
}
use scamlens.Api.Check.{
  truthy, CheckResponse, answer, suffixes, longest, blocklist_match, pg_verdict, look_up, check,
  blocklist_response,
}
use scamlens.Dns.Cache.{Redis, CacheState, Payload}
use scamlens.Dns.Db.{seed_domains}
use scamlens.Dns.Resolver.{chain_of, parent_chain, any_in, match_chain}
use scamlens.Postgres.{SeedRow, VerdictRow, Db}

suffixes-chain_of : (ps : List Text) → suffixes ps ≡ chain_of ps
unfolding suffixes chain_of
suffixes-chain_of [] = refl
suffixes-chain_of (p ∷ []) = refl
suffixes-chain_of (p ∷ q ∷ ps) = rw (suffixes-chain_of (q ∷ ps)) refl

any_in-cons :
    (cs : List Text) (d : Text) (ds : List Text) → any_in cs (d ∷ ds) ≡ (elem d cs || any_in cs ds)
unfolding any_in elem
any_in-cons [] d ds = refl
any_in-cons (c ∷ cs) d ds = ground (arith, any_in-cons cs d ds, same_iff c d, same_iff d c)

any_in-nil : (cs : List Text) → any_in cs [] ≡ false
unfolding any_in elem
any_in-nil [] = refl
any_in-nil (c ∷ cs) = any_in-nil cs

longest-any_in :
    (cs : List Text) (rows : List SeedRow)
    → is_some (longest cs rows) ≡ any_in cs (seed_domains rows)
unfolding longest seed_domains
longest-any_in cs [] = rw (any_in-nil cs) refl
longest-any_in cs (row ∷ rows) = elim (Bool-cases (elem row.domain cs)) [
  | inr other ↦
      rw other (
        ground
          (arith, other, any_in-cons cs row.domain (seed_domains rows), longest-any_in cs rows))
  | inl here ↦ rw here (elim (Option-cases (longest cs rows)) [
    | inl e ↦ rw e (ground (arith, here, any_in-cons cs row.domain (seed_domains rows)))
    | inr (found, e) ↦ rw e (elim (Bool-cases (leb (length found.domain) (length row.domain))) [
      | inl f ↦ rw f (ground (arith, here, any_in-cons cs row.domain (seed_domains rows)))
      | inr f ↦ rw f (ground (arith, here, any_in-cons cs row.domain (seed_domains rows)))
    ])
  ])
]

abbrev pub named : Text → Bool
named [] = false
named (c ∷ s) = true

-- Every row of the blocklist table has a category.
unfoldable pub all_named : List SeedRow → Bool
all_named [] = true
all_named (row ∷ rows) = named row.category && all_named rows

abbrev good : Option SeedRow → Bool
good none = true
good (some row) = named row.category

longest-good :
    (cs : List Text) (rows : List SeedRow) → all_named rows ≡ true → good (longest cs rows) ≡ true
unfolding longest all_named
longest-good cs [] h = refl
longest-good cs (row ∷ rows) h =
    let rest : good (longest cs rows) ≡ true = longest-good cs rows (ground (arith, h)) in
    elim (Bool-cases (elem row.domain cs)) [
      | inr other ↦ rw other rest
      | inl here ↦ rw here (elim (Option-cases (longest cs rows)) [
        | inl e ↦ rw e (ground (arith, h))
        | inr (best, e) ↦ rw e (elim (Bool-cases (leb (length best.domain) (length row.domain))) [
          | inl g ↦ rw g (ground (arith, h))
          | inr g ↦ rw g (rw e at rest)
        ])
      ])
    ]

truthy-good :
    (found : Option SeedRow)
    → good found ≡ true
    → is_some (truthy (elim found [ none ↦ none | some row ↦ some row.category ])) ≡ is_some found
truthy-good none h = unfold truthy in refl
truthy-good (some row) h = go row.category h
  where
    go : (t : Text) → named t ≡ true → is_some (truthy (some t)) ≡ true
    go [] h = cc
    go (c ∷ s) h = unfold truthy in refl

blocklist_match-match_chain :
    (x : Text) (rows : List SeedRow)
    → all_named rows ≡ true
    → is_some (truthy (blocklist_match x rows)) ≡ match_chain x (seed_domains rows)
unfolding blocklist_match match_chain parent_chain
blocklist_match-match_chain x rows h =
    truthy-good (longest (suffixes (split b'.' x)) rows)
      (longest-good (suffixes (split b'.' x)) rows h)
    ∙ longest-any_in (suffixes (split b'.' x)) rows
    ∙ ap (λ cs. any_in cs (seed_domains rows)) (suffixes-chain_of (split b'.' x))

module _ (r : Redis) (ip : Text → Option Text) where
  answer_queues :
      (d : Text) (b : Option Text) (c : Option Payload) (p : Option VerdictRow) (s : CacheState r)
      → r.queue.items (answer r ip d b c p s).1.queue ≡ (
          if is_some b || (is_some c || is_some p)
          then r.queue.items s.queue
          else d ∷ r.queue.items s.queue)
  unfolding answer
  answer_queues d (some category) c p s = refl
  answer_queues d none (some stored) p s = refl
  answer_queues d none none (some row) s = refl
  answer_queues d none none none s = r.queue.items-lpush d s.queue

  answer_blocked :
      (d : Text) (b : Option Text) (c : Option Payload) (p : Option VerdictRow) (s : CacheState r)
      → is_some b ≡ true
      → ((answer r ip d b c p s).0.verdict ≡ codes "scam") × ((answer r ip d b c p s).1 ≡ s)
  unfolding answer blocklist_response
  answer_blocked d (some category) c p s h = (refl, refl)
  answer_blocked d none c p s h = cc

-- For every valid name and blocklist table whose rows have a category: the lookup queues one scan of
-- the normalised name exactly when the resolver's walk of the blocklist table, the cache and the
-- table of verdicts all miss it, and else nothing.
check_queues :
    (r : Redis) (ip : Text → Option Text) (valid : Text → Bool) (domain : Text) (db : Db)
    (s : CacheState r)
    → valid (rstrip (codes ".") (lower (strip white domain))) ≡ true
    → all_named db.blocklist_seed ≡ true
    → let d = rstrip (codes ".") (lower (strip white domain)) in
      r.queue.items (check r ip valid domain db s).1.queue ≡ (
        if match_chain d (seed_domains db.blocklist_seed)
          || (is_some (r.verdicts.get (codes "verdict:" ++ d) s.verdicts)
              || is_some (pg_verdict d db.domain_verdicts))
        then r.queue.items s.queue
        else d ∷ r.queue.items s.queue)
unfolding check look_up
check_queues r ip valid domain db s h full =
    let d = rstrip (codes ".") (lower (strip white domain)) in
    rw (h, ← blocklist_match-match_chain d db.blocklist_seed full)
      (answer_queues r ip d (truthy (blocklist_match d db.blocklist_seed))
        (r.verdicts.get (codes "verdict:" ++ d) s.verdicts) (pg_verdict d db.domain_verdicts) s)

-- When the name is valid, the rows of the blocklist table have a category, and the resolver's walk
-- finds the name in that table, the answer is scam and no state changes, whatever the cache and the
-- table of verdicts say.
pub check_blocked :
    (r : Redis) (ip : Text → Option Text) (valid : Text → Bool) (domain : Text) (db : Db)
    (s : CacheState r)
    → valid (rstrip (codes ".") (lower (strip white domain))) ≡ true
    → all_named db.blocklist_seed ≡ true
    → match_chain (rstrip (codes ".") (lower (strip white domain))) (seed_domains db.blocklist_seed)
      ≡ true
    → ((response : CheckResponse) × ((check r ip valid domain db s).0 ≡ some response)
        × (response.verdict ≡ codes "scam"))
      × ((check r ip valid domain db s).1 ≡ s)
unfolding check look_up
check_blocked r ip valid domain db s h full listed =
    let d = rstrip (codes ".") (lower (strip white domain)) in
    let b = truthy (blocklist_match d db.blocklist_seed) in
    let c = r.verdicts.get (codes "verdict:" ++ d) s.verdicts in
    let p = pg_verdict d db.domain_verdicts in
    let (scam, kept) =
      answer_blocked r ip d b c p s
        (blocklist_match-match_chain d db.blocklist_seed full ∙ listed) in
    rw h (((answer r ip d b c p s).0, refl, scam), kept)
