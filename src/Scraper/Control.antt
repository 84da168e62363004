-- ===== src/Scraper/Control.antt =====
-- social_scraper/control.py: the lock around a manual run, and the clean-up of its arguments.
pub mod Locks
pub mod Names
use scamlens.Base.{
  ℕ, Bool, true, false, not, ◌&&◌, ◌||◌, ◌*◌, Text, List, [], ◌∷◌, ◌++◌, Option, none, some, elem,
  same, lower, strip, lstrip, codes, white, if◌then◌else◌,
}
use scamlens.Redis.{Keys}

abbrev pub lock_key : Text
lock_key = codes "scrape_lock:threads"

abbrev pub lock_ttl : ℕ
lock_ttl = 90 * 60

-- The JSON body of /run; a field that is absent or null is `none`.
pub record RunRequest : Type 0 where
  pub source : Option Text
  pub keywords : Option (List Text)
  pub subreddits : Option (List Text)
  pub duration_minutes : Option ℕ
  pub max_pages : Option ℕ

pub data Response : Type 0 where
  unknown_source : Text → Response
  no_token : Response
  busy : Response
  started : Text → Response

-- The arguments of the task that `_run_safely` becomes.
pub record RunTask : Type 0 where
  pub source : Text
  pub keywords : Option (List Text)
  pub duration_minutes : Option ℕ
  pub max_pages : Option ℕ
  pub subreddits : Option (List Text)

abbrev pub source_of : Option Text → Text
source_of none = codes "threads"
source_of (some []) = codes "threads"
source_of (some (c ∷ s)) = c ∷ s

abbrev pub is_blank : Text → Bool
is_blank [] = true
is_blank (c ∷ t) = false

module _ (marks : Keys Text) (threads_token : Text) where
  unfoldable pub claim : Text → RunRequest → marks.State → Response × Option RunTask × marks.State
  claim source body s =
      let (claimed, s') = marks.set_nx lock_key (codes "manual") lock_ttl s in
      if not claimed then (busy, none, s') else (
        started source,
        some (record {
          source = source;
          keywords = body.keywords;
          duration_minutes = body.duration_minutes;
          max_pages = body.max_pages;
          subreddits = body.subreddits;
        }),
        s',
      )

  -- `run_handler`: the response, the task that it creates, and the lock.
  unfoldable pub run_handler : RunRequest → marks.State → Response × Option RunTask × marks.State
  run_handler body s =
      let source = lower (source_of body.source) in
      if not (elem source (codes "threads" ∷ codes "reddit" ∷ codes "urlhaus" ∷ []))
      then (unknown_source source, none, s)
      else if same source (codes "threads") && is_blank threads_token
      then (no_token, none, s)
      else claim source body s

unfoldable pub status_handler : (marks : Keys Text) → marks.State → Bool
status_handler marks s = elim (marks.get lock_key s) [ none ↦ false | some v ↦ true ]

-- `[k.strip() for k in keywords if k.strip()] if keywords else None`
unfoldable pub clean_keyword_list : List Text → List Text
clean_keyword_list [] = []
clean_keyword_list (k ∷ ks) =
    let rest = clean_keyword_list ks in
    if is_blank (strip white k) then rest else strip white k ∷ rest

unfoldable pub clean_subreddit : Text → Text
clean_subreddit s = lstrip (codes "/") (lstrip (codes "r/") (strip white s))

unfoldable pub clean_subreddit_list : List Text → List Text
clean_subreddit_list [] = []
clean_subreddit_list (s ∷ ss) =
    let rest = clean_subreddit_list ss in
    if is_blank (strip white s) then rest else clean_subreddit s ∷ rest

abbrev some_list : (List Text → List Text) → Option (List Text) → Option (List Text)
some_list f none = none
some_list f (some []) = none
some_list f (some (t ∷ ts)) = some (f (t ∷ ts))

-- How `run_window` or a task ends: it returns, an `Exception` leaves it, or it is cancelled, which no
-- `except Exception` catches.
pub data Ending : Type 0 where
  completed cancelled : Ending
  failed : Text → Ending

-- `except Exception`: the exception is logged and goes no further.
abbrev pub caught : Ending → Ending
caught completed = completed
caught cancelled = cancelled
caught (failed message) = completed

-- `_run_safely`: how the task ends, what the run changed, and the lock, which `finally` deletes. `W` is
-- what the run changes; `run` takes the cleaned arguments.
module _ (marks : Keys Text) {W : Type 0} (run : RunTask → W → Ending × W) where
  unfoldable pub run_safely : RunTask → W → marks.State → Ending × W × marks.State
  run_safely task w s =
      let (ending, w') =
        run
          (record task {
            keywords = some_list clean_keyword_list task.keywords;
            subreddits = some_list clean_subreddit_list task.subreddits;
          })
          w in
      (caught ending, w', marks.delete lock_key s)
