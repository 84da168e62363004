-- ===== src/Scraper/Worker.antt =====
-- social_scraper/worker.py: what becomes of a post, a feed entry and a run. Redis is only read.
-- `classify` is the reply of the scanner's /scan, and `pg d` says whether the INSERT for `d`
-- succeeds.
pub mod Promotion
pub mod Runs
use scamlens.Base.{
  ℕ, zero, suc, ◌+◌, ◌*◌, Bool, true, false, not, ◌&&◌, ◌||◌, Text, List, [], ◌∷◌, ◌++◌, Option,
  none, some, leb, same, elem, has_char, contains, codes, is_some, if◌then◌else◌,
}
use scamlens.Dns.Cache.{Redis}
use scamlens.Postgres.{SeedRow, Db, has_seed, has_white}
use scamlens.Scraper.Extract.{extract_urls, url_to_domain}

pub record RunStats : Type 0 where
  pub posts_seen : ℕ
  pub urls_seen : ℕ
  pub domains_new : ℕ
  pub domains_blocked : ℕ
  pub errors : ℕ

abbrev pub no_stats : RunStats
no_stats = record {
  posts_seen = 0;
  urls_seen = 0;
  domains_new = 0;
  domains_blocked = 0;
  errors = 0;
}

-- The `verdict` object of a scan report: absent fields are `none`.
pub record Judgement : Type 0 where
  pub verdict : Option Text
  pub confidence : Option ℕ
  pub reasons : List Text

pub record ScrapeState : Type 0 where
  pub db : Db
  pub stats : RunStats

pub record ThreadsPost : Type 0 where
  pub text : Text
  pub permalink : Text
  pub is_reply : Bool
  pub is_quote_post : Bool

pub record RedditPost : Type 0 where
  pub url : Text
  pub title : Text
  pub selftext : Text
  pub permalink : Text

pub record FeedEntry : Type 0 where
  pub url : Text
  pub threat : Text
  pub reference : Text

-- What the handlers use of the rest: the regular expression, `urlparse`, the scanner, the cache and
-- the database. `classify` is `none` for a status that is not 200, an exception or an empty report,
-- and `some none` for a report with no verdict.
pub record World (r : Redis) : Type 0 where
  pub find_urls : Text → List Text
  pub hostname : Text → Option Text
  pub classify : Text → Option (Option Judgement)
  pub verdicts : r.verdicts.State
  pub pg : Text → Bool
  pub confidence_threshold : ℕ

abbrev pub or_old : Option Text → Text → Option Text
or_old none new = some new
or_old (some old) new = some old

-- INSERT INTO blocklist_seed ... ON CONFLICT (domain) DO UPDATE with COALESCE
unfoldable pub upsert_seed : Text → Text → Text → Text → List SeedRow → List SeedRow
upsert_seed domain category source platform [] =
    record {
      domain = domain;
      category = category;
      source_post = some source;
      source_platform = some platform;
    }
    ∷ []
upsert_seed domain category source platform (row ∷ rows) =
    let rest = upsert_seed domain category source platform rows in
    if same domain row.domain
    then record row {
      source_post = or_old row.source_post source;
      source_platform = or_old row.source_platform platform;
    }
      ∷ rows
    else row ∷ rest

abbrev pub matches : Option Text → Text → Bool
matches none t = false
matches (some s) t = same s t

abbrev pub or_zero : Option ℕ → ℕ
or_zero none = 0
or_zero (some n) = n

-- `v.get("verdict") == "scam" and (v.get("confidence") or 0) >= threshold`
abbrev pub convicts : ℕ → Option Judgement → Bool
convicts threshold none = false
convicts threshold (some j) =
    matches j.verdict (codes "scam") && leb threshold (or_zero j.confidence)

abbrev pub is_blank : Text → Bool
is_blank [] = true
is_blank (c ∷ t) = false

module _ (r : Redis) (w : World r) where
  unfoldable pub promote_to_blocklist : Text → Text → Text → Db → Db
  promote_to_blocklist domain source_post platform db =
      if w.pg domain
      then record db {
        blocklist_seed =
            upsert_seed domain (codes "scraped-" ++ platform) source_post platform
              db.blocklist_seed;
      }
      else db

  unfoldable pub already_known : Text → Db → Bool
  already_known domain db =
      is_some (r.verdicts.get (codes "verdict:" ++ domain) w.verdicts)
      || (has_seed domain db.blocklist_seed || has_white domain db.whitelist)

  unfoldable pub count_url : RunStats → RunStats
  count_url s = record s { urls_seen = s.urls_seen + 1 }

  unfoldable pub count_new : RunStats → RunStats
  count_new s = record s { domains_new = s.domains_new + 1 }

  unfoldable pub count_blocked : RunStats → RunStats
  count_blocked s = record s { domains_blocked = s.domains_blocked + 1 }

  unfoldable pub block_domain : Text → Text → Text → ScrapeState → ScrapeState
  block_domain platform source domain s = record {
    db = promote_to_blocklist domain source platform s.db;
    stats = count_blocked s.stats;
  }

  -- The part of both loops from the classification on.
  unfoldable pub judge : Text → Text → Text → Text → ScrapeState → ScrapeState
  judge platform source domain url s = elim (w.classify url) [
    | none ↦ s
    | some v ↦
        if convicts w.confidence_threshold v then block_domain platform source domain s else s
  ]

  unfoldable pub judge_new : Text → Text → Text → Text → ScrapeState → ScrapeState
  judge_new platform source domain url s =
      judge platform source domain url (record s { stats = count_new s.stats })

  -- The body of both loops.
  unfoldable pub handle_url : Text → Text → Text → ScrapeState → ScrapeState
  handle_url platform source url s =
      let counted = record s { stats = count_url s.stats } in
      let domain = url_to_domain w.hostname url in
      if is_blank domain || not (has_char b'.' domain)
      then counted
      else if already_known domain s.db
      then counted
      else judge_new platform source domain url counted

  unfoldable pub handle_urls : Text → Text → List Text → ScrapeState → ScrapeState
  handle_urls platform source [] s = s
  handle_urls platform source (url ∷ urls) s =
      handle_urls platform source urls (handle_url platform source url s)

  -- `_handle_post`
  unfoldable pub handle_post : ThreadsPost → ScrapeState → ScrapeState
  handle_post post s =
      if post.is_reply || post.is_quote_post
      then s
      else handle_urls (codes "threads") post.permalink
          (extract_urls w.find_urls w.hostname post.text) s

  -- The dedupe of `_handle_reddit_post`: the candidates that are not in `seen`.
  unfoldable pub unseen : List Text → List Text → List Text
  unseen seen [] = []
  unseen seen (url ∷ urls) =
      let skip = unseen seen urls in
      let on = url ∷ unseen (url ∷ seen) urls in if elem url seen then skip else on

  unfoldable pub reddit_candidates : RedditPost → List Text
  reddit_candidates post =
      (if not (is_blank post.url) && not (contains (codes "reddit.com") post.url)
        then post.url ∷ []
        else [])
      ++ (extract_urls w.find_urls w.hostname post.title
          ++ extract_urls w.find_urls w.hostname post.selftext)

  -- `_handle_reddit_post`
  unfoldable pub handle_reddit_post : RedditPost → ScrapeState → ScrapeState
  handle_reddit_post post s =
      handle_urls (codes "reddit") post.permalink (unseen [] (reddit_candidates post)) s

  abbrev or_text : Text → Text → Text
  or_text [] d = d
  or_text (c ∷ t) d = c ∷ t

  -- One entry of `_run_urlhaus`.
  unfoldable pub handle_entry : FeedEntry → ScrapeState → ScrapeState
  handle_entry entry s =
      let counted = record s { stats = count_url s.stats } in
      let domain = url_to_domain w.hostname entry.url in
      if is_blank domain || not (has_char b'.' domain)
      then counted
      else if already_known domain s.db
      then counted
      else block_domain (codes "urlhaus") (or_text entry.reference entry.url) domain
          (record counted { stats = count_new counted.stats })

  unfoldable pub handle_entries : List FeedEntry → ScrapeState → ScrapeState
  handle_entries [] s = s
  handle_entries (e ∷ es) s = handle_entries es (handle_entry e s)

-- A keyword's search: the time when it is taken up, its posts with the time at each, and whether the
-- search raises at the end.
pub record Search (P : Type 0) : Type 0 where
  pub started : ℕ
  pub posts : List (P × ℕ)
  pub raises : Bool

module _ {P : Type 0} (handle : P → ScrapeState → ScrapeState) (deadline : ℕ) where
  unfoldable pub count_post : RunStats → RunStats
  count_post s = record s { posts_seen = s.posts_seen + 1 }

  unfoldable pub count_error : RunStats → RunStats
  count_error s = record s { errors = s.errors + 1 }

  -- The inner loop, which breaks at the deadline.
  unfoldable pub run_posts : Bool → List (P × ℕ) → ScrapeState → ScrapeState
  run_posts raises [] s = if raises then record s { stats = count_error s.stats } else s
  run_posts raises ((post, time) ∷ posts) s =
      let counted = record s { stats = count_post s.stats } in
      let rest = run_posts raises posts (handle post counted) in
      if leb deadline time then s else rest

  -- The loop over the keywords in `_run_threads` and `_run_reddit`.
  unfoldable pub run_searches : List (Search P) → ScrapeState → ScrapeState
  run_searches [] s = s
  run_searches (k ∷ ks) s =
      let rest = run_searches ks (run_posts k.raises k.posts s) in
      if leb deadline k.started then s else rest

module _ (r : Redis) (w : World r) where
  unfoldable pub run_threads : ℕ → ℕ → List (Search ThreadsPost) → Db → ScrapeState
  run_threads now budget_min searches db =
      run_searches (handle_post r w) (now + budget_min * 60) searches
        (record { db = db; stats = no_stats })

  unfoldable pub run_reddit : ℕ → ℕ → List (Search RedditPost) → Db → ScrapeState
  run_reddit now budget_min searches db =
      run_searches (handle_reddit_post r w) (now + budget_min * 60) searches
        (record { db = db; stats = no_stats })

  -- `raises`: the feed or an entry raises at the end of the entries.
  unfoldable pub run_urlhaus : Bool → List FeedEntry → Db → ScrapeState
  run_urlhaus raises entries db =
      let s = handle_entries r w entries (record { db = db; stats = no_stats }) in
      if raises then record s { stats = record (s.stats) { errors = s.stats.errors + 1 } } else s
