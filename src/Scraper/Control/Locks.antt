-- ===== src/Scraper/Control/Locks.antt =====
-- social_scraper/control.py: the lock of a run, when it is held and when it goes.
use scamlens.Base.{
  ℕ, true, not, ◌&&◌, ◌≡◌, ◌<◌, refl, Text, [], ◌∷◌, none, some, same, codes, Bool-cases,
  Option-cases, inl, inr, lower, elem, ap, sym, ◌∙◌,
}
use scamlens.Redis.{Keys, get-delete_same}
use scamlens.Scraper.Control.{
  RunRequest, Response, started, busy, RunTask, Ending, lock_key, lock_ttl, claim, run_handler,
  run_safely, status_handler, source_of, is_blank,
}

module _ (marks : Keys Text) (token : Text) where
  claim_held :
      (source v : Text) (body : RunRequest) (s : marks.State)
      → marks.get lock_key s ≡ some v
      → claim marks token source body s ≡ (busy, none, s)
  unfolding claim
  claim_held source v body s h = rw (marks.set_nx-held lock_key (codes "manual") v lock_ttl s h)

-- While the lock is held, no request creates a task or changes the lock.
run_handler_held :
    (marks : Keys Text) (token v : Text) (body : RunRequest) (s : marks.State)
    → marks.get lock_key s ≡ some v
    → ((run_handler marks token body s).1 ≡ none) × ((run_handler marks token body s).2 ≡ s)
unfolding run_handler
run_handler_held marks token v body s h =
    elim (Bool-cases (
      not (
        elem (lower (source_of body.source))
          (codes "threads" ∷ codes "reddit" ∷ codes "urlhaus" ∷ [])))) [
            | inl e ↦ rw e (refl, refl)
            | inr e ↦
                elim (Bool-cases
                  (same (lower (source_of body.source)) (codes "threads") && is_blank token)) [
                    | inl f ↦ rw (e, f) (refl, refl)
                    | inr f ↦
                        rw (e, f, claim_held marks token (lower (source_of body.source)) v body s h)
                          (refl, refl)
                  ]
          ]

-- The task of a request that is accepted.
abbrev task_of : RunRequest → RunTask
task_of body = record {
  source = lower (source_of body.source);
  keywords = body.keywords;
  duration_minutes = body.duration_minutes;
  max_pages = body.max_pages;
  subreddits = body.subreddits;
}

abbrev lock : (marks : Keys Text) → marks.State → marks.State
lock marks s = marks.set lock_key (codes "manual") lock_ttl s

module _ (marks : Keys Text) (token : Text) (body : RunRequest) where
  claim_starts :
      (s : marks.State)
      → marks.get lock_key s ≡ none
      → claim marks token (lower (source_of body.source)) body s
        ≡ (started (lower (source_of body.source)), some (task_of body), lock marks s)
  unfolding claim
  claim_starts s h = rw (marks.set_nx-free lock_key (codes "manual") lock_ttl s h) refl

  claim_was_free :
      (s s' : marks.State) (answer : Response) (task : RunTask)
      → claim marks token (lower (source_of body.source)) body s ≡ (answer, some task, s')
      → (task ≡ task_of body) × (s' ≡ lock marks s)
  claim_was_free s s' answer task h = elim (Option-cases (marks.get lock_key s)) [
    | inl e ↦ let k = sym (claim_starts s e) ∙ h in (cc, cc)
    | inr (v, e) ↦ cc (sym (claim_held marks token (lower (source_of body.source)) v body s e) ∙ h)
  ]

  -- A request that was started was accepted: its task and the lock, and what it does at a free lock.
  run_handler-started :
      (s s' : marks.State) (answer : Response) (task : RunTask)
      → run_handler marks token body s ≡ (answer, some task, s')
      → (s' ≡ lock marks s)
        × ((z : marks.State)
            → marks.get lock_key z ≡ none
            → (run_handler marks token body z).1 ≡ some task)
  unfolding run_handler
  run_handler-started s s' answer task h =
      elim (Bool-cases (
        not (
          elem (lower (source_of body.source))
            (codes "threads" ∷ codes "reddit" ∷ codes "urlhaus" ∷ [])))) [
              | inl e ↦ cc (rw e at h)
              | inr e ↦
                  elim (Bool-cases
                    (same (lower (source_of body.source)) (codes "threads") && is_blank token)) [
                      | inl f ↦ cc (rw (e, f) at h)
                      | inr f ↦
                          let (same_task, locked) =
                            claim_was_free s s' answer task (rw (e, f) at h) in
                          (
                            locked,
                            λ z free. rw (e, f, claim_starts z free) (ap some (sym same_task)),
                          )
                    ]
            ]

status_handler-held :
    (marks : Keys Text) (v : Text) (s : marks.State)
    → marks.get lock_key s ≡ some v
    → status_handler marks s ≡ true
unfolding status_handler
status_handler-held marks v s h = rw (h, status_handler) refl

run_safely-free :
    (marks : Keys Text) {W : Type 0} (run : RunTask → W → Ending × W) (task : RunTask) (w : W)
    (s : marks.State)
    → marks.get lock_key (run_safely marks run task w s).2 ≡ none
unfolding run_safely
run_safely-free marks run task w s = get-delete_same marks lock_key s

-- After a request that created a task: for fewer than 5400 seconds and until the task has ended, the
-- status is running and no request creates another task or changes the lock; and once the task has
-- ended within that time, whether its run returned, raised or was cancelled, the first request creates
-- a task again.
pub run_handler-run_safely :
    (marks : Keys Text) (token : Text) (body other : RunRequest) (answer : Response)
    (task : RunTask) (s s' : marks.State) {W : Type 0} (run : RunTask → W → Ending × W) (w : W)
    (u : ℕ)
    → run_handler marks token body s ≡ (answer, some task, s')
    → u < 5400
    → let waiting = marks.elapse u s' in
      (status_handler marks waiting ≡ true)
      × ((run_handler marks token other waiting).1 ≡ none)
      × ((run_handler marks token other waiting).2 ≡ waiting)
      × ((run_handler marks token body (run_safely marks run task w waiting).2).1 ≡ some task)
run_handler-run_safely marks token body other answer task s s' run w u h lt =
    let (locked, again) = run_handler-started marks token body s s' answer task h in
    let held : marks.get lock_key (marks.elapse u s') ≡ some (codes "manual") =
      rw locked (marks.get-elapse_kept lock_key (codes "manual") lock_ttl u s lt) in
    let refused = run_handler_held marks token (codes "manual") other (marks.elapse u s') held in
    (
      status_handler-held marks (codes "manual") (marks.elapse u s') held,
      refused.0,
      refused.1,
      again _ (run_safely-free marks run task w (marks.elapse u s')),
    )
