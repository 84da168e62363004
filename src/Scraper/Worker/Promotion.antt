-- ===== src/Scraper/Worker/Promotion.antt =====
-- social_scraper/worker.py: which domains a handler puts on the blocklist.
use scamlens.Base.{
  true, false, not, ◌&&◌, ◌||◌, ◌≡◌, ◌≤◌, refl, arith, Text, List, [], ◌∷◌, ◌++◌, same, same_iff,
  has_char, codes, Bool-cases, Option-cases, inl, inr, ◌∙◌,
}
use scamlens.Dns.Cache.{Redis}
use scamlens.Postgres.{SeedRow, Db, has_seed, has_white}
use scamlens.Scraper.Extract.{url_to_domain}
use scamlens.Scraper.Worker.{
  ScrapeState, World, ThreadsPost, RedditPost, FeedEntry, upsert_seed, convicts,
  promote_to_blocklist, already_known, count_url, count_new, count_blocked, block_domain, judge,
  judge_new, handle_url, handle_urls, handle_post, handle_reddit_post, handle_entry, handle_entries,
  is_blank,
}

pub has_seed-upsert_seed :
    (j d c s p : Text) (rows : List SeedRow)
    → has_seed j (upsert_seed d c s p rows) ≡ (same j d || has_seed j rows)
unfolding has_seed upsert_seed
has_seed-upsert_seed j d c s p [] = refl
has_seed-upsert_seed j d c s p (row ∷ rows) = ground (
  arith,
  same_iff j d,
  same_iff d row.domain,
  same_iff j row.domain,
  has_seed-upsert_seed j d c s p rows,
)

-- What a step may do: the whitelist stays, the blocklist keeps what it has and gains no domain of
-- the whitelist, and the counters stay in order.
pub record IsStep (s s' : ScrapeState) : Type 0 where
  pub white : s'.db.whitelist ≡ s.db.whitelist
  pub keeps :
      (j : Text) → has_seed j s.db.blocklist_seed ≡ true → has_seed j s'.db.blocklist_seed ≡ true
  pub spares :
      (j : Text)
      → has_white j s.db.whitelist ≡ true
      → has_seed j s.db.blocklist_seed ≡ false
      → has_seed j s'.db.blocklist_seed ≡ false
  pub ordered :
      (s.stats.domains_blocked ≤ s.stats.domains_new) × (s.stats.domains_new ≤ s.stats.urls_seen)
      → (s'.stats.domains_blocked ≤ s'.stats.domains_new)
        × (s'.stats.domains_new ≤ s'.stats.urls_seen)

pub IsStep-refl : (s : ScrapeState) → IsStep s s
IsStep-refl s = record { white = refl; keeps = λ j h. h; spares = λ j h k. k; ordered = λ h. h }

pub IsStep-trans : (s t u : ScrapeState) → IsStep s t → IsStep t u → IsStep s u
IsStep-trans s t u p q = record {
  white = q.white ∙ p.white;
  keeps = λ j h. q.keeps j (p.keeps j h);
  spares = λ j h k. q.spares j (rw p.white h) (p.spares j h k);
  ordered = λ h. q.ordered (p.ordered h);
}

module _ (r : Redis) (w : World r) where
  promote-seed :
      (j d source platform : Text) (db : Db)
      → has_seed j (promote_to_blocklist r w d source platform db).blocklist_seed
        ≡ ((w.pg d && same j d) || has_seed j db.blocklist_seed)
  unfolding promote_to_blocklist
  promote-seed j d source platform db = ground (
    arith,
    has_seed-upsert_seed j d (codes "scraped-" ++ platform) source platform db.blocklist_seed,
  )

  promote-white :
      (d source platform : Text) (db : Db)
      → (promote_to_blocklist r w d source platform db).whitelist ≡ db.whitelist
  unfolding promote_to_blocklist
  promote-white d source platform db = ground arith

  known-white :
      (d : Text) (db : Db) → already_known r w d db ≡ false → has_white d db.whitelist ≡ false
  unfolding already_known
  known-white d db h = ground arith

  -- A new domain is put on the blocklist.
  block_new-IsStep :
      (platform source d : Text) (s : ScrapeState)
      → already_known r w d s.db ≡ false
      → IsStep s (
          block_domain r w platform source d
            (record { db = s.db; stats = count_new r w (count_url r w s.stats) }))
  unfolding block_domain count_new count_url count_blocked
  block_new-IsStep platform source d s new = record {
    white = promote-white d source platform s.db;
    keeps = λ j h. rw (promote-seed j d source platform s.db) (ground (arith, h));
    spares = λ j h k.
        rw (promote-seed j d source platform s.db)
          (ground (arith, k, h, same_iff j d, known-white d s.db new));
    ordered = λ h. omega (arith, h.0, h.1);
  }

  counted-IsStep : (s : ScrapeState) → IsStep s (record s { stats = count_url r w s.stats })
  unfolding count_url
  counted-IsStep s = record {
    white = refl;
    keeps = λ j h. h;
    spares = λ j h k. k;
    ordered = λ h. omega (arith, h.0, h.1);
  }

  new-IsStep :
      (s : ScrapeState) → IsStep s (record s { stats = count_new r w (count_url r w s.stats) })
  unfolding count_url count_new
  new-IsStep s = record {
    white = refl;
    keeps = λ j h. h;
    spares = λ j h k. k;
    ordered = λ h. omega (arith, h.0, h.1);
  }

  judge_new-IsStep :
      (platform source d url : Text) (s : ScrapeState)
      → already_known r w d s.db ≡ false
      → IsStep s (judge_new r w platform source d url (record s { stats = count_url r w s.stats }))
  unfolding judge_new judge
  judge_new-IsStep platform source d url s new = elim (Option-cases (w.classify url)) [
    | inl e ↦ rw (e, judge) (new-IsStep s)
    | inr (v, e) ↦
        rw (e, judge)
          (elim (Bool-cases (convicts w.confidence_threshold v)) [
            | inl bad ↦ rw bad (block_new-IsStep platform source d s new)
            | inr good ↦ rw good (new-IsStep s)
          ])
  ]

  handle_url-IsStep :
      (platform source url : Text) (s : ScrapeState)
      → IsStep s (handle_url r w platform source url s)
  unfolding handle_url
  handle_url-IsStep platform source url s =
      let d = url_to_domain w.hostname url in
      elim (Bool-cases (is_blank d || not (has_char b'.' d))) [
        | inl e ↦ rw e (counted-IsStep s)
        | inr e ↦ rw e (elim (Bool-cases (already_known r w d s.db)) [
          | inl known ↦ rw known (counted-IsStep s)
          | inr new ↦ rw new (judge_new-IsStep platform source d url s new)
        ])
      ]

  handle_urls-IsStep :
      (platform source : Text) (urls : List Text) (s : ScrapeState)
      → IsStep s (handle_urls r w platform source urls s)
  unfolding handle_urls
  handle_urls-IsStep platform source [] s = IsStep-refl s
  handle_urls-IsStep platform source (url ∷ urls) s =
      IsStep-trans s _ _ (handle_url-IsStep platform source url s)
        (handle_urls-IsStep platform source urls (handle_url r w platform source url s))

  pub handle_post-IsStep :
      (post : ThreadsPost) (s : ScrapeState) → IsStep s (handle_post r w post s)
  unfolding handle_post
  handle_post-IsStep post s = elim (Bool-cases (post.is_reply || post.is_quote_post)) [
    | inl e ↦ rw e (IsStep-refl s)
    | inr e ↦ rw e (handle_urls-IsStep (codes "threads") post.permalink _ s)
  ]

  pub handle_reddit_post-IsStep :
      (post : RedditPost) (s : ScrapeState) → IsStep s (handle_reddit_post r w post s)
  unfolding handle_reddit_post
  handle_reddit_post-IsStep post s = handle_urls-IsStep (codes "reddit") post.permalink _ s

  handle_entry-IsStep : (entry : FeedEntry) (s : ScrapeState) → IsStep s (handle_entry r w entry s)
  unfolding handle_entry
  handle_entry-IsStep entry s =
      let d = url_to_domain w.hostname entry.url in
      elim (Bool-cases (is_blank d || not (has_char b'.' d))) [
        | inl e ↦ rw e (counted-IsStep s)
        | inr e ↦ rw e (elim (Bool-cases (already_known r w d s.db)) [
          | inl known ↦ rw known (counted-IsStep s)
          | inr new ↦ rw new (block_new-IsStep (codes "urlhaus") _ d s new)
        ])
      ]

  pub handle_entries-IsStep :
      (es : List FeedEntry) (s : ScrapeState) → IsStep s (handle_entries r w es s)
  unfolding handle_entries
  handle_entries-IsStep [] s = IsStep-refl s
  handle_entries-IsStep (e ∷ es) s =
      IsStep-trans s _ _ (handle_entry-IsStep e s) (handle_entries-IsStep es (handle_entry r w e s))
