-- ===== src/Scraper/Worker/Runs.antt =====
-- social_scraper/worker.py: whole runs, and the exact gain of one URL.
use scamlens.Base.{
  ℕ, ◌+◌, ◌*◌, Bool, true, false, not, ◌&&◌, ◌||◌, ◌≡◌, ◌≤◌, refl, arith, Text, List, [], ◌∷◌, ◌++◌,
  Option, none, some, leb, same, has_char, codes, Bool-cases, inl, inr,
}
use scamlens.Dns.Cache.{Redis}
use scamlens.Postgres.{Db, has_seed, has_white}
use scamlens.Scraper.Extract.{url_to_domain}
use scamlens.Scraper.Worker.{
  no_stats, ScrapeState, World, ThreadsPost, RedditPost, FeedEntry, Search, Judgement, convicts,
  already_known, block_domain, promote_to_blocklist, judge, judge_new, handle_url, handle_post,
  handle_reddit_post, handle_entries, is_blank, count_post, count_error, run_posts, run_searches,
  run_threads, run_reddit, run_urlhaus,
}
use scamlens.Scraper.Worker.Promotion.{
  IsStep, IsStep-refl, IsStep-trans, has_seed-upsert_seed, handle_post-IsStep,
  handle_reddit_post-IsStep, handle_entries-IsStep,
}

module _ {P : Type 0} (handle : P → ScrapeState → ScrapeState) (deadline : ℕ)
    (step : (p : P) (s : ScrapeState) → IsStep s (handle p s)) where
  counted-IsStep :
      (s : ScrapeState) → IsStep s (record s { stats = count_post handle deadline s.stats })
  unfolding count_post
  counted-IsStep s = record {
    white = refl;
    keeps = λ j h. h;
    spares = λ j h k. k;
    ordered = λ h. h;
  }

  error-IsStep :
      (s : ScrapeState) → IsStep s (record s { stats = count_error handle deadline s.stats })
  unfolding count_error
  error-IsStep s = record { white = refl; keeps = λ j h. h; spares = λ j h k. k; ordered = λ h. h }

  run_posts-IsStep :
      (raises : Bool) (posts : List (P × ℕ)) (s : ScrapeState)
      → IsStep s (run_posts handle deadline raises posts s)
  unfolding run_posts
  run_posts-IsStep true [] s = error-IsStep s
  run_posts-IsStep false [] s = IsStep-refl s
  run_posts-IsStep raises ((post, time) ∷ posts) s = elim (Bool-cases (leb deadline time)) [
    | inl e ↦ rw e (IsStep-refl s)
    | inr e ↦
        let counted = record s { stats = count_post handle deadline s.stats } in
        rw e (
          IsStep-trans s _ _ (IsStep-trans s counted _ (counted-IsStep s) (step post counted))
            (run_posts-IsStep raises posts (handle post counted)))
  ]

  run_searches-IsStep :
      (ks : List (Search P)) (s : ScrapeState) → IsStep s (run_searches handle deadline ks s)
  unfolding run_searches
  run_searches-IsStep [] s = IsStep-refl s
  run_searches-IsStep (k ∷ ks) s = elim (Bool-cases (leb deadline k.started)) [
    | inl e ↦ rw e (IsStep-refl s)
    | inr e ↦ rw e (
        IsStep-trans s _ _ (run_posts-IsStep k.raises k.posts s)
          (run_searches-IsStep ks (run_posts handle deadline k.raises k.posts s)))
  ]

-- What a run leaves of the tables that it began with.
pub record IsRun (db : Db) (s : ScrapeState) : Type 0 where
  pub white : s.db.whitelist ≡ db.whitelist
  pub keeps :
      (j : Text) → has_seed j db.blocklist_seed ≡ true → has_seed j s.db.blocklist_seed ≡ true
  pub spares :
      (j : Text)
      → has_white j db.whitelist ≡ true
      → has_seed j db.blocklist_seed ≡ false
      → has_seed j s.db.blocklist_seed ≡ false
  pub blocked : s.stats.domains_blocked ≤ s.stats.domains_new
  pub new : s.stats.domains_new ≤ s.stats.urls_seen

IsRun-of_step :
    (db : Db) (s : ScrapeState) → IsStep (record { db = db; stats = no_stats }) s → IsRun db s
IsRun-of_step db s p = record {
  white = p.white;
  keeps = p.keeps;
  spares = p.spares;
  blocked = (p.ordered (omega arith, omega arith)).0;
  new = (p.ordered (omega arith, omega arith)).1;
}

-- For every world, time, budget and list of searches, failing ones included: a Threads run, a
-- Reddit run and a URLhaus run leave the whitelist as it is, keep every domain of the blocklist,
-- add no domain of the whitelist to it, and count at most as many blocked domains as new ones and
-- at most as many new ones as URLs.
pub runs-IsRun :
    (r : Redis) (w : World r) (now budget : ℕ) (threads : List (Search ThreadsPost))
    (reddit : List (Search RedditPost)) (raises : Bool) (entries : List FeedEntry) (db : Db)
    → IsRun db (run_threads r w now budget threads db)
      × IsRun db (run_reddit r w now budget reddit db)
      × IsRun db (run_urlhaus r w raises entries db)
unfolding run_threads run_reddit
runs-IsRun r w now budget threads reddit raises entries db = (
  IsRun-of_step db _ (
      run_searches-IsStep (handle_post r w) (now + budget * 60) (handle_post-IsStep r w) threads _),
  IsRun-of_step db _ (
      run_searches-IsStep (handle_reddit_post r w) (now + budget * 60)
        (handle_reddit_post-IsStep r w) reddit _),
  IsRun-of_step db _ (feed raises),
)
  where
    start : ScrapeState
    start = record { db = db; stats = no_stats }

    fed : IsStep start (handle_entries r w entries start)
    fed = handle_entries-IsStep r w entries start

    feed : (b : Bool) → IsStep start (run_urlhaus r w b entries db)
    feed true =
        unfold run_urlhaus in
        record { white = fed.white; keeps = fed.keeps; spares = fed.spares; ordered = fed.ordered }
    feed false = unfold run_urlhaus in fed

-- The scanner's reply convicts.
abbrev pub convicted : ℕ → Option (Option Judgement) → Bool
convicted threshold none = false
convicted threshold (some v) = convicts threshold v

-- For every URL, platform, source and state: handling the URL adds its domain to the blocklist
-- exactly if the domain has a dot, is neither cached nor on the blocklist nor on the whitelist, the
-- scanner's report says scam with the configured confidence or more, and the INSERT succeeds; no
-- other domain is added or lost.
handle_url_gains :
    (r : Redis) (w : World r) (platform source url j : Text) (s : ScrapeState)
    → has_seed j (handle_url r w platform source url s).db.blocklist_seed ≡ (
        (not (
            is_blank (url_to_domain w.hostname url)
            || not (has_char b'.' (url_to_domain w.hostname url)))
          && (not (already_known r w (url_to_domain w.hostname url) s.db)
              && (convicted w.confidence_threshold (w.classify url)
                  && (w.pg (url_to_domain w.hostname url)
                      && same j (url_to_domain w.hostname url)))))
        || has_seed j s.db.blocklist_seed)
unfolding handle_url judge_new judge block_domain promote_to_blocklist
handle_url_gains r w platform source url j s =
    let d = url_to_domain w.hostname url in
    ground (
      arith,
      has_seed-upsert_seed j d (codes "scraped-" ++ platform) source platform s.db.blocklist_seed,
    )
