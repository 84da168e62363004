-- ===== src/Api/Deep/Protocol.antt =====
-- api/routers/deep.py: the start and the end of a deep scan.
use scamlens.Base.{
  ℕ, true, false, not, ◌==◌, ◌≡◌, ◌≤◌, ◌||◌, ◌<◌, ◌++◌, refl, arith, Text, none, some, is_some,
  take, same_refl, codes, decimal, Option-cases, inl, inr, Attempt, returned, raised,
}
use scamlens.Api.Deep.{
  Report, scanned, failed, done, pending, idle, Outcome, response, no_response, DeepState, deep_get,
  deep_post, stored, run_deep_scan, deep_lock_ttl,
}
use scamlens.Redis.{Keys, get-delete_same}

-- A request creates a scan exactly when there is neither a stored report nor a lock for the domain,
-- and after it the domain is never idle.
deep_post_starts :
    (reports : Keys Report) (locks : Keys Text) (d : Text) (s : DeepState reports locks)
    → let after = (deep_post reports locks d s).2 in
      (is_some (deep_post reports locks d s).1
        ≡ not (
            is_some (reports.get (codes "deep:" ++ d) s.reports)
            || is_some (locks.get (codes "deep_lock:" ++ d) s.locks)))
      × ((is_some (reports.get (codes "deep:" ++ d) after.reports)
            || is_some (locks.get (codes "deep_lock:" ++ d) after.locks))
          ≡ true)
unfolding deep_post
deep_post_starts reports locks d s =
    let key = codes "deep:" ++ d in
    let lock = codes "deep_lock:" ++ d in
    elim (Option-cases (reports.get key s.reports)) [
      | inr (found, e) ↦ rw (e, deep_post) (refl, rw e refl)
      | inl e ↦ elim (Option-cases (locks.get lock s.locks)) [
        | inr (held, f) ↦
            rw (e, locks.set_nx-held lock (codes "1") held deep_lock_ttl s.locks f, f, deep_post)
              (refl, rw e refl)
        | inl f ↦
            rw (e, locks.set_nx-free lock (codes "1") deep_lock_ttl s.locks f, f, deep_post)
              (
                refl,
                rw
                    (
                      e,
                      locks.get-set lock lock (codes "1") deep_lock_ttl s.locks (omega arith),
                      same_refl lock,
                    )
                    refl,
              )
      ]
    ]

-- What the task for `d` is to leave for each outcome, and for how many seconds.
pub data Leaves (d : Text) : Outcome → Report → ℕ → Type 0 where
  report_of : (text : Text) → Leaves d (response 200 (returned text)) (scanned text) 21600
  not_json :
      (message : Text) → Leaves d (response 200 (raised message)) (failed d (take 300 message)) 300
  refused :
      (code : ℕ) (json : Attempt Text)
      → (code == 200) ≡ false
      → Leaves d (response code json) (failed d (codes "scanner returned " ++ decimal code)) 300
  call_raised : (message : Text) → Leaves d (no_response message) (failed d (take 300 message)) 300

module _ (reports : Keys Report) (locks : Keys Text) where
  -- That many seconds pass.
  abbrev pub pass : ℕ → DeepState reports locks → DeepState reports locks
  pass t s = record { reports = reports.elapse t s.reports; locks = locks.elapse t s.locks }

  stored-Leaves :
      (d : Text) (outcome : Outcome) (report : Report) (life : ℕ)
      → Leaves d outcome report life
      → stored reports locks d outcome ≡ (report, life)
  unfolding stored
  stored-Leaves d _ _ _ (report_of text) = refl
  stored-Leaves d _ _ _ (not_json message) = refl
  stored-Leaves d _ _ _ (refused code json h) = rw h refl
  stored-Leaves d _ _ _ (call_raised message) = refl

  deep_get-done :
      (d : Text) (report : Report) (s : DeepState reports locks)
      → reports.get (codes "deep:" ++ d) s.reports ≡ some report
      → deep_get reports locks d s ≡ done d report
  unfolding deep_get
  deep_get-done d report s h = rw (h, deep_get) refl

  deep_get-pending :
      (d v : Text) (s : DeepState reports locks)
      → reports.get (codes "deep:" ++ d) s.reports ≡ none
      → locks.get (codes "deep_lock:" ++ d) s.locks ≡ some v
      → deep_get reports locks d s ≡ pending d
  unfolding deep_get
  deep_get-pending d v s h k = rw (h, k, deep_get) refl

  deep_get-idle :
      (d : Text) (s : DeepState reports locks)
      → reports.get (codes "deep:" ++ d) s.reports ≡ none
      → locks.get (codes "deep_lock:" ++ d) s.locks ≡ none
      → deep_get reports locks d s ≡ idle d
  unfolding deep_get
  deep_get-idle d s h k = rw (h, k, deep_get) refl

  -- A request for an idle domain.
  deep_post-idle :
      (d : Text) (s : DeepState reports locks)
      → reports.get (codes "deep:" ++ d) s.reports ≡ none
      → locks.get (codes "deep_lock:" ++ d) s.locks ≡ none
      → deep_post reports locks d s ≡ (
        pending d,
        some d,
        record s { locks = locks.set (codes "deep_lock:" ++ d) (codes "1") deep_lock_ttl s.locks },
      )
  unfolding deep_post
  deep_post-idle d s h k =
      rw
        (
          h,
          locks.set_nx-free (codes "deep_lock:" ++ d) (codes "1") deep_lock_ttl s.locks k,
          deep_post,
        )
        refl

  run-kept :
      (d : Text) (outcome : Outcome) (report : Report) (life t : ℕ) (s : DeepState reports locks)
      → Leaves d outcome report life
      → t < life
      → reports.get (codes "deep:" ++ d) (pass t (run_deep_scan reports locks d outcome s)).reports
        ≡ some report
  unfolding run_deep_scan
  run-kept d outcome report life t s h lt =
      rw (stored-Leaves d outcome report life h)
        (reports.get-elapse_kept (codes "deep:" ++ d) report life t s.reports lt)

  run-gone :
      (d : Text) (outcome : Outcome) (report : Report) (life t : ℕ) (s : DeepState reports locks)
      → Leaves d outcome report life
      → life ≤ t
      → reports.get (codes "deep:" ++ d) (pass t (run_deep_scan reports locks d outcome s)).reports
        ≡ none
  unfolding run_deep_scan
  run-gone d outcome report life t s h le =
      rw (stored-Leaves d outcome report life h)
        (reports.get-elapse_gone (codes "deep:" ++ d) report life t s.reports le)

  run-free :
      (d : Text) (outcome : Outcome) (t : ℕ) (s : DeepState reports locks)
      → locks.get (codes "deep_lock:" ++ d) (pass t (run_deep_scan reports locks d outcome s)).locks
        ≡ none
  unfolding run_deep_scan
  run-free d outcome t s =
      locks.get-elapse_none (codes "deep_lock:" ++ d) t _
        (get-delete_same locks (codes "deep_lock:" ++ d) s.locks)

-- For a domain with neither a report nor a lock: a request creates its scan; for fewer than 90
-- seconds from then on the domain is pending; once the scan has ended within that time, the domain
-- is done for fewer than `life` seconds, with the report and the `life` that `Leaves` gives for the
-- scanner's answer: the scanner's own report for 6 hours where it answers with the status 200 and a
-- JSON body, and its status or the first 300 characters of the exception for 5 minutes where it does
-- not; and it is idle again after `life` seconds.
pub run_deep_scan_done :
    (reports : Keys Report) (locks : Keys Text) (d : Text) (outcome : Outcome) (report : Report)
    (life u t v : ℕ) (s : DeepState reports locks)
    → reports.get (codes "deep:" ++ d) s.reports ≡ none
    → locks.get (codes "deep_lock:" ++ d) s.locks ≡ none
    → Leaves d outcome report life
    → u < 90
    → t < life
    → life ≤ v
    → let (answer, task, started) = deep_post reports locks d s in
      let waiting = pass reports locks u started in
      let ended = run_deep_scan reports locks d outcome waiting in
      (task ≡ some d)
      × (deep_get reports locks d waiting ≡ pending d)
      × (deep_get reports locks d (pass reports locks t ended) ≡ done d report)
      × (deep_get reports locks d (pass reports locks v ended) ≡ idle d)
run_deep_scan_done reports locks d outcome report life u t v s no_report no_lock leaves lock_held
      kept gone =
    rw (deep_post-idle reports locks d s no_report no_lock) (
      refl,
      deep_get-pending reports locks d (codes "1") _
          (reports.get-elapse_none (codes "deep:" ++ d) u s.reports no_report)
          (locks.get-elapse_kept (codes "deep_lock:" ++ d) (codes "1") deep_lock_ttl u s.locks
            lock_held),
      deep_get-done reports locks d report _
          (run-kept reports locks d outcome report life t _ leaves kept),
      deep_get-idle reports locks d _ (run-gone reports locks d outcome report life v _ leaves gone)
          (run-free reports locks d outcome v _),
    )
