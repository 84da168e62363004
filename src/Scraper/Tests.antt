-- ===== src/Scraper/Tests.antt =====
-- social_scraper/: runs of the extraction, the handlers and the lock.
use scamlens.Base.{
  elem, suc, lower, same, ℕ, true, false, ◌≡◌, refl, arith, Text, List, [], ◌∷◌, Option, none, some,
  codes,
}
use scamlens.Dns.Cache.{Payload}
use scamlens.Dns.Cache.Concrete.{memory}
use scamlens.Postgres.{Db}
use scamlens.Redis.Memory.{memory_keys, no_entries, get-no_entries}
use scamlens.Scraper.Worker.{World, FeedEntry, no_stats, ScrapeState}
use scamlens.Scraper.Control.{
  RunRequest, RunTask, Ending, failed, started, claim, run_handler, lock_key, lock_ttl,
}
use scamlens.Scraper.Control.{run_handler, started, run_safely, status_handler}
use scamlens.Scraper.Control.Locks.{run_handler-run_safely}
use scamlens.Scraper.Worker.{run_urlhaus, run_reddit, run_threads}
use scamlens.Scraper.Worker.Runs.{runs-IsRun, IsRun}

abbrev find_example : Text → List Text
find_example text = codes "http://evil.com/x)" ∷ codes "http://evil.com/x" ∷ []

abbrev hostname_example : Text → Option Text
hostname_example url = some (codes "evil.com")

abbrev db_example : Db
db_example = record {
  blocklist_seed = [];
  whitelist = [];
  domain_verdicts = [];
  user_reports = [];
  brand_domains = [];
  blocked_attempts = [];
  users = [];
}

abbrev world_example : World memory
world_example = record {
  find_urls = find_example;
  hostname = hostname_example;
  classify = λ url.
      some (some (record { verdict = some (codes "scam"); confidence = some 90; reasons = [] }));
  verdicts = no_entries Payload;
  pg = λ d. true;
  confidence_threshold = 70;
}

abbrev state_example : ScrapeState
state_example = record { db = db_example; stats = no_stats }

abbrev entry_example : FeedEntry
entry_example = record {
  url = codes "http://evil.com/x";
  threat = codes "malware";
  reference = codes "urlhaus";
}

abbrev body_example : RunRequest
body_example = record {
  source = some (codes "reddit");
  keywords = none;
  subreddits = none;
  duration_minutes = none;
  max_pages = none;
}

abbrev task_example : RunTask
task_example = record {
  source = codes "reddit";
  keywords = none;
  duration_minutes = none;
  max_pages = none;
  subreddits = none;
}

abbrev locked : (memory_keys Text).State
locked = (memory_keys Text).set lock_key (codes "manual") lock_ttl (no_entries Text)

started_example :
    run_handler (memory_keys Text) [] body_example (no_entries Text)
    ≡ (started (codes "reddit"), some task_example, locked)
unfolding run_handler claim elem same lower
started_example =
    rw
      ((memory_keys Text).set_nx-free lock_key (codes "manual") lock_ttl (no_entries Text)
        (get-no_entries Text lock_key))
      refl

abbrev failing_run : RunTask → ℕ → Ending × ℕ
failing_run task n = (failed (codes "no such subreddit"), suc n)

runs-IsRun_example :
    IsRun db_example (run_threads memory world_example 0 100 [] db_example)
    × IsRun db_example (run_reddit memory world_example 0 100 [] db_example)
    × IsRun db_example (run_urlhaus memory world_example false (entry_example ∷ []) db_example)
runs-IsRun_example =
    runs-IsRun memory world_example 0 100 [] [] false (entry_example ∷ []) db_example

run_handler-run_safely_example :
    let waiting = (memory_keys Text).elapse 600 locked in
    (status_handler (memory_keys Text) waiting ≡ true)
    × ((run_handler (memory_keys Text) [] body_example waiting).1 ≡ none)
    × ((run_handler (memory_keys Text) [] body_example waiting).2 ≡ waiting)
    × ((run_handler
          (memory_keys Text)
          []
          body_example
          (run_safely (memory_keys Text) failing_run task_example 5 waiting).2).1
        ≡ some task_example)
run_handler-run_safely_example =
    run_handler-run_safely (memory_keys Text) [] body_example body_example
      (started (codes "reddit")) task_example (no_entries Text) locked failing_run 5 600
      started_example (omega arith)
