-- ===== src/Scanner/Worker/Loop.antt =====
-- ai_scanner/worker.py: the loop `run`. The tasks run one after another, in the order in which the
-- queue gives them; the turns are those up to `stop`. In each, seconds pass (the wait of BRPOP, up to
-- its timeout, and the time that the scan takes), all keys age by them, and then the scan writes, in
-- the world of the new time. Nothing else writes verdicts meanwhile.
use scamlens.Base.{
  ℕ, ◌+◌, ◌-◌, ◌≤◌, ◌<◌, ◌≡◌, ◌≢◌, arith, Text, List, [], ◌∷◌, ◌++◌, Option, none, some, same,
  same_iff, Bool-cases, inl, inr, ◌∙◌, subst,
}
use scamlens.Dns.Cache
use scamlens.Dns.Cache.{Redis, Payload}
use scamlens.Redis.{Keys}
use scamlens.Scanner.Rdap.{DomainAge}
use scamlens.Scanner.Store.{ScanState}
use scamlens.Scanner.Store.Saved.{IsPositive, LastsFor, cached}
use scamlens.Scanner.Worker.{Env, run_one}
use scamlens.Scanner.Worker.Scan.{Survives, run_one-Survives, run_one-keeps}

-- The seconds since the end of the turn before, and what BRPOP gives: `none` is its timeout.
pub record Turn : Type 0 where
  pub passed : ℕ
  pub popped : Option Text

unfoldable pub pass : (r : Redis) → ℕ → ScanState r → ScanState r
pass r t s = record s {
  cache = record {
    verdicts = r.verdicts.elapse t s.cache.verdicts;
    limits = r.marks.elapse t s.cache.limits;
    queue = s.cache.queue;
  };
}

-- The seconds of the turns.
abbrev pub duration : List Turn → ℕ
duration [] = 0
duration (turn ∷ turns) = turn.passed + duration turns

module _ (env : ℕ → Env) (r : Redis) (ages : Keys DomainAge) where
  unfoldable pub run_popped : ℕ → Option Text → ages.State → ScanState r → ages.State × ScanState r
  run_popped now none known s = (known, s)
  run_popped now (some domain) known s = run_one (env now) r ages domain known s

  unfoldable pub run : ℕ → List Turn → ages.State → ScanState r → ages.State × ScanState r
  unfolding run_popped pass
  run now [] known s = (known, s)
  run now (turn ∷ turns) known s =
      let later = now + turn.passed in
      let (known', s') =
        run_popped later turn.popped (ages.elapse turn.passed known) (pass r turn.passed s) in
      run later turns known' s'

pass-Survives :
    (r : Redis) (domain : Text) (life t : ℕ) (s : ScanState r)
    → t < life
    → Survives r domain life s
    → Survives r domain (life - t) (pass r t s)
unfolding pass
pass-Survives r domain life t s lt h = record {
  payload = h.payload;
  found = h.lasts t lt;
  lasts = λ u small.
      r.verdicts.get-elapse_add _ u t s.cache.verdicts ∙ h.lasts (u + t) (omega (arith, small, lt));
  decided = h.decided;
}

shorten :
    (r : Redis) (domain : Text) (life n : ℕ) (s : ScanState r)
    → n ≤ life
    → Survives r domain life s
    → Survives r domain n s
shorten r domain life n s le h = record {
  payload = h.payload;
  found = h.found;
  lasts = λ t lt. h.lasts t (omega (arith, lt, le));
  decided = h.decided;
}

abbrev pub IsDecided : (r : Redis) → Text → ScanState r → Type 0
IsDecided r domain s =
    (payload : Payload) × (cached r domain s ≡ some payload) × (payload.verdict ≢ Cache.pending)

module _ (env : ℕ → Env) (r : Redis) (ages : Keys DomainAge) (life : ℕ)
    (long : (t : ℕ) → LastsFor life (env t).ttls) (pos : (t : ℕ) → IsPositive (env t).ttls) where
  run_popped-Survives :
      (domain : Text) (now n : ℕ) (popped : Option Text) (known : ages.State) (s : ScanState r)
      → n ≤ life
      → Survives r domain n s
      → Survives r domain n (run_popped env r ages now popped known s).1
  unfolding run_popped
  run_popped-Survives domain now n none known s le h = h
  run_popped-Survives domain now n (some e) known s le h = elim (Bool-cases (same e domain)) [
    | inl k ↦ shorten r domain life n _ le (
        subst (λ x. Survives r x life (run_one (env now) r ages e known s).1)
          ((same_iff e domain).0 k)
          (run_one-Survives (env now) r (pos now) ages e life known s (long now)))
    | inr k ↦ run_one-keeps (env now) r (pos now) ages e domain n known s k h
  ]

  run-kept :
      (domain : Text) (now n : ℕ) (turns : List Turn) (known : ages.State) (s : ScanState r)
      → n ≤ life
      → duration turns < n
      → Survives r domain n s
      → IsDecided r domain (run env r ages now turns known s).1
  unfolding run
  run-kept domain now n [] known s le lt h = (h.payload, h.found, h.decided)
  run-kept domain now n (turn ∷ turns) known s le lt h =
      run-kept domain (now + turn.passed) (n - turn.passed) turns _ _ (omega (arith, le))
        (omega (arith, lt))
        (run_popped-Survives domain _ (n - turn.passed) turn.popped _ _ (omega (arith, le))
          (pass-Survives r domain n turn.passed s (omega (arith, lt)) h))

  run-decides :
      (domain : Text) (now : ℕ) (before after : List Turn) (passed : ℕ) (known : ages.State)
      (s : ScanState r)
      → duration after < life
      → IsDecided r domain
          (run env r ages now
            (before ++ record { passed = passed; popped = some domain } ∷ after)
            known
            s).1
  unfolding run run_popped
  run-decides domain now [] after passed known s lt =
      run-kept domain _ life after _ _ (omega arith) lt (
        run_one-Survives (env (now + passed)) r (pos (now + passed)) ages domain life _ _
          (long (now + passed)))
  run-decides domain now (turn ∷ before) after passed known s lt =
      run-decides domain (now + turn.passed) before after passed _ _ lt

-- For times to live of at least `life` seconds at every time: a domain that the loop popped has a
-- cached verdict that is not pending at every later moment that is less than `life` seconds after its
-- scan, whichever tasks come before and after and however the lookups, fetches and models end.
pub run_decides :
    (env : ℕ → Env) (r : Redis) (ages : Keys DomainAge) (life : ℕ) (domain : Text) (now : ℕ)
    (before after : List Turn) (passed : ℕ) (known : ages.State) (s : ScanState r)
    → ((t : ℕ) → LastsFor life (env t).ttls)
    → duration after < life
    → IsDecided r domain
        (run env r ages now
          (before ++ record { passed = passed; popped = some domain } ∷ after)
          known
          s).1
run_decides env r ages life domain now before after passed known s long lt =
    run-decides env r ages life long
      (λ t. record {
        safe_pos = omega (arith, (long t).safe_long, lt);
        scam_pos = omega (arith, (long t).scam_long, lt);
        unknown_pos = omega (arith, (long t).unknown_long, lt);
      })
      domain now before after passed known s lt
