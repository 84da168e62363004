-- ===== src/Api/Deep.antt =====
-- api/routers/deep.py: the deep scan of a domain. DOMAIN_RE is `valid`; the stored JSON is a `Report`;
-- the `deep:` keys and the `deep_lock:` keys are two key spaces.
pub mod Protocol
use scamlens.Base.{
  ℕ, Bool, true, false, not, ◌*◌, ◌==◌, Attempt, returned, raised, Text, List, [], ◌∷◌, ◌++◌,
  Option, none, some, lower, strip, rstrip, white, take, codes, decimal, if◌then◌else◌,
}
use scamlens.Redis.{Keys}

abbrev pub deep_ttl_seconds : ℕ
deep_ttl_seconds = 6 * 3600

abbrev pub deep_lock_ttl : ℕ
deep_lock_ttl = 90

pub data Report : Type 0 where
  scanned : Text → Report
  failed : Text → Text → Report

pub data Answer : Type 0 where
  done : Text → Report → Answer
  pending idle : Text → Answer

-- The scanner's answer to the request: its status and what `json()` makes of its body, or the text of
-- the exception of the call.
pub data Outcome : Type 0 where
  response : ℕ → Attempt Text → Outcome
  no_response : Text → Outcome

pub record DeepState (r : Keys Report) (l : Keys Text) : Type 0 where
  pub reports : r.State
  pub locks : l.State

-- `none` is the 400.
unfoldable pub norm : (Text → Bool) → Text → Option Text
norm valid domain =
    let n = rstrip (codes ".") (lower (strip white domain)) in
    if not (valid n) then none else some n

module _ (reports : Keys Report) (locks : Keys Text) where
  unfoldable pub deep_get : Text → DeepState reports locks → Answer
  deep_get d s = elim (reports.get (codes "deep:" ++ d) s.reports) [
    | some found ↦ done d found
    | none ↦ elim (locks.get (codes "deep_lock:" ++ d) s.locks) [
      | some v ↦ pending d
      | none ↦ idle d
    ]
  ]

  -- The answer, the domain of the task `_run_deep_scan` if one is created, and the state.
  unfoldable pub deep_post :
      Text → DeepState reports locks → Answer × Option Text × DeepState reports locks
  deep_post d s = elim (reports.get (codes "deep:" ++ d) s.reports) [
    | some found ↦ (done d found, none, s)
    | none ↦
        let (claimed, l) =
          locks.set_nx (codes "deep_lock:" ++ d) (codes "1") deep_lock_ttl s.locks in
        if not claimed
        then (pending d, none, record s { locks = l })
        else (pending d, some d, record s { locks = l })
  ]

  abbrev pub read_report : Text → Attempt Text → Report × ℕ
  read_report d (returned text) = (scanned text, deep_ttl_seconds)
  read_report d (raised message) = (failed d (take 300 message), 300)

  -- What `_run_deep_scan` stores, and for how long.
  unfoldable pub stored : Text → Outcome → Report × ℕ
  stored d (no_response message) = (failed d (take 300 message), 300)
  stored d (response code json) =
      if not (code == 200)
      then (failed d (codes "scanner returned " ++ decimal code), 300)
      else read_report d json

  unfoldable pub run_deep_scan : Text → Outcome → DeepState reports locks → DeepState reports locks
  unfolding stored
  run_deep_scan d outcome s =
      let (value, ttl) = stored d outcome in
      record {
        reports = reports.set (codes "deep:" ++ d) value ttl s.reports;
        locks = locks.delete (codes "deep_lock:" ++ d) s.locks;
      }
