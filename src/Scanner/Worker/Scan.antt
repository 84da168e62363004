-- ===== src/Scanner/Worker/Scan.antt =====
-- ai_scanner/worker.py: what a scan leaves, on every path.
use scamlens.Base.{
  ℕ, false, ◌≡◌, ◌≢◌, ◌<◌, arith, Text, Option, none, some, leb, same, same_refl, Bool-cases,
  Option-cases, ap, inl, inr, ◌∙◌, some_inj, leb→le,
}
use scamlens.Redis.{Keys}
use scamlens.Dns.Cache
use scamlens.Dns.Cache.{Redis, Payload}
use scamlens.Scanner.Heuristics.{
  HeuristicReport, Severity, safe, suspicious, scam, classify_empty_page,
}
use scamlens.Scanner.Ai.{ScanVerdict}
use scamlens.Scanner.Store.{
  ScanState, save, pick_ttl, save_error, verdict_payload, error_payload, to_label,
}
use scamlens.Scanner.Store.Saved.{
  IsPositive, cached, cached-put_payload, save_lem, LastsFor, pick_ttl-long, cached_later,
  cached_later-put_payload, cached_later-put_other,
}
use scamlens.Scanner.Rdap.{DomainAge, lookup_age}
use scamlens.Scanner.Worker.{
  PageCapture, Attempt, returned, raised, Env, apply_heuristic_floor, bump_new, aged_verdict, fail,
  keep, finish, scan_page, fetch_and_scan, run_aged, run_looked_up, run_one,
}

-- The days of an age that was found.
abbrev known_days : Attempt DomainAge → Option ℕ
known_days (raised name) = none
known_days (returned age) = age.days

module _ (env : Env) (r : Redis) (pos : IsPositive env.ttls) where
  -- The scan of `domain` went from `s` to `s'`: it left a verdict that is not pending, and one of
  -- safe only if the domain's age allows it; and nothing under other domains.
  record Decides (domain : Text) (days : Option ℕ) (s s' : ScanState r) : Type 0 where
    payload : Payload
    found : cached r domain s' ≡ some payload
    decided : payload.verdict ≢ Cache.pending
    old : (n : ℕ) → days ≡ some n → n < 14 → payload.verdict ≢ Cache.safe
    others : (j : Text) → same domain j ≡ false → cached r j s' ≡ cached r j s
    later :
        (life t : ℕ) → LastsFor life env.ttls → t < life → cached_later r t domain s' ≡ some payload
    others_later :
        (j : Text) (t : ℕ) → same domain j ≡ false → cached_later r t j s' ≡ cached_later r t j s

  fail-Decides :
      (domain reason : Text) (days : Option ℕ) (s : ScanState r)
      → Decides domain days s (fail env r domain reason s)
  unfolding fail save_error error_payload
  fail-Decides domain reason days s = record {
    payload = error_payload reason env.now;
    found =
        cached-put_payload r domain domain _ env.ttls.unknown_ttl s pos.unknown_pos
        ∙ rw (same_refl domain);
    decided = λ e. cc;
    old = λ n e h k. cc;
    others = λ j e. cached-put_payload r domain j _ env.ttls.unknown_ttl s pos.unknown_pos ∙ rw e;
    later = λ life t long lt.
        cached_later-put_payload r t domain _ env.ttls.unknown_ttl s
          (omega (arith, long.unknown_long, lt));
    others_later = λ j t e. cached_later-put_other r t domain j _ env.ttls.unknown_ttl s e;
  }

  to_label-ne-pending : (v : Severity) → to_label v ≢ Cache.pending
  to_label-ne-pending safe e = cc
  to_label-ne-pending suspicious e = cc
  to_label-ne-pending scam e = cc

  keep-Decides :
      (domain : Text) (days : Option ℕ) (v : ScanVerdict) (s : ScanState r)
      → ((n : ℕ) → days ≡ some n → n < 14 → to_label v.verdict ≢ Cache.safe)
      → Decides domain days s (keep env r domain v s)
  unfolding keep save verdict_payload
  keep-Decides domain days v s h =
      let lem = λ (j : Text). (save_lem r env.ttls env.pg env.seed env.now domain j v s pos).0 in
      record {
        payload = verdict_payload v env.now;
        found = lem domain ∙ rw (same_refl domain);
        decided = to_label-ne-pending v.verdict;
        old = h;
        others = λ j e. lem j ∙ rw e;
        later = λ life t long lt.
            cached_later-put_payload r t domain (verdict_payload v env.now)
              (pick_ttl v.verdict env.ttls) s
              (omega (arith, pick_ttl-long v.verdict life env.ttls long, lt));
        others_later = λ j t e.
            cached_later-put_other r t domain j (verdict_payload v env.now)
              (pick_ttl v.verdict env.ttls) s e;
      }

  bump_new-ne-safe :
      (days : Option ℕ) (v : ScanVerdict) (n : ℕ)
      → days ≡ some n
      → n < 14
      → to_label (bump_new days v).verdict ≢ Cache.safe
  unfolding bump_new
  bump_new-ne-safe none v n e h = cc
  bump_new-ne-safe (some m) v n e h = ground arith

  finish-Decides :
      (domain : Text) (heuristics : HeuristicReport) (days : Option ℕ) (o : Attempt ScanVerdict)
      (s : ScanState r)
      → Decides domain days s (finish env r domain heuristics days o s)
  unfolding finish
  finish-Decides domain heuristics days (raised name) s = fail-Decides domain _ days s
  finish-Decides domain heuristics days (returned v) s =
      keep-Decides domain days _ s
        (bump_new-ne-safe days (apply_heuristic_floor v heuristics domain))

  scan_page-Decides :
      (domain : Text) (days : Option ℕ) (capture : PageCapture) (s : ScanState r)
      → Decides domain days s (scan_page env r domain days capture s)
  unfolding scan_page
  scan_page-Decides domain days capture s =
      elim (Option-cases (classify_empty_page env.visible_text capture.html capture.status)) [
        | inl e ↦ rw (e, scan_page) (finish-Decides domain _ days _ s)
        | inr (reason, e) ↦ rw (e, scan_page) (fail-Decides domain _ days s)
      ]

  fetch_and_scan-Decides :
      (domain : Text) (days : Option ℕ) (o : Attempt (Option PageCapture)) (s : ScanState r)
      → Decides domain days s (fetch_and_scan env r domain days o s)
  unfolding fetch_and_scan
  fetch_and_scan-Decides domain days (raised name) s = fail-Decides domain _ days s
  fetch_and_scan-Decides domain days (returned none) s = fail-Decides domain _ days s
  fetch_and_scan-Decides domain days (returned (some capture)) s =
      scan_page-Decides domain days capture s

  run_aged-Decides :
      (domain : Text) (days : Option ℕ) (s : ScanState r)
      → Decides domain days s (run_aged env r domain days s)
  unfolding run_aged
  run_aged-Decides domain none s = fetch_and_scan-Decides domain none (env.fetch domain) s
  run_aged-Decides domain (some days) s = elim (Bool-cases (leb 365 days)) [
    | inl e ↦ rw e (
        keep-Decides domain (some days) (aged_verdict days) s
          (λ n f h k. omega (arith, leb→le _ _ e, h, some_inj f)))
    | inr e ↦ rw e (fetch_and_scan-Decides domain (some days) (env.fetch domain) s)
  ]

  run_looked_up-Decides :
      (domain : Text) (o : Attempt DomainAge) (s : ScanState r)
      → Decides domain (known_days o) s (run_looked_up env r domain o s)
  unfolding run_looked_up
  run_looked_up-Decides domain (raised name) s = fail-Decides domain _ none s
  run_looked_up-Decides domain (returned age) s = run_aged-Decides domain age.days s

  run_one-Decides :
      (ages : Keys DomainAge) (domain : Text) (known : ages.State) (s : ScanState r)
      → Decides domain
          (known_days (lookup_age env.rdap env.days_since ages domain known).0)
          s
          (run_one env r ages domain known s).1
  unfolding run_one
  run_one-Decides ages domain known s =
      run_looked_up-Decides domain (lookup_age env.rdap env.days_since ages domain known).0 s

-- For times to live above 0: a domain that the age lookup gives less than 14 days is never left with
-- a cached verdict of safe, whatever the page and the model say.
pub run_one_young :
    (env : Env) (r : Redis) (ages : Keys DomainAge) (domain : Text) (known : ages.State)
    (s : ScanState r) (age : DomainAge) (n : ℕ)
    → IsPositive env.ttls
    → (lookup_age env.rdap env.days_since ages domain known).0 ≡ returned age
    → age.days ≡ some n
    → n < 14
    → (payload : Payload) × (cached r domain (run_one env r ages domain known s).1 ≡ some payload)
      × (payload.verdict ≢ Cache.safe)
run_one_young env r ages domain known s age n pos found days young =
    let d = run_one-Decides env r pos ages domain known s in
    (d.payload, d.found, d.old n (ap known_days found ∙ days) young)

-- A verdict that is not pending is cached for the domain, now and for that many seconds.
pub record Survives (r : Redis) (domain : Text) (life : ℕ) (s : ScanState r) : Type 0 where
  pub payload : Payload
  pub found : cached r domain s ≡ some payload
  pub lasts : (t : ℕ) → t < life → cached_later r t domain s ≡ some payload
  pub decided : payload.verdict ≢ Cache.pending

module _ (env : Env) (r : Redis) (pos : IsPositive env.ttls) (ages : Keys DomainAge) where
  -- After `_run_one`, for every way in which the lookup, the fetch and the model return or raise.
  pub run_one-Survives :
      (domain : Text) (life : ℕ) (known : ages.State) (s : ScanState r)
      → LastsFor life env.ttls
      → Survives r domain life (run_one env r ages domain known s).1
  run_one-Survives domain life known s long =
      let d = run_one-Decides env r pos ages domain known s in
      record {
        payload = d.payload;
        found = d.found;
        lasts = λ t lt. d.later life t long lt;
        decided = d.decided;
      }

  -- After `_run_one` on another domain.
  pub run_one-keeps :
      (domain j : Text) (life : ℕ) (known : ages.State) (s : ScanState r)
      → same domain j ≡ false
      → Survives r j life s
      → Survives r j life (run_one env r ages domain known s).1
  run_one-keeps domain j life known s other h =
      let d = run_one-Decides env r pos ages domain known s in
      record {
        payload = h.payload;
        found = d.others j other ∙ h.found;
        lasts = λ t lt. d.others_later j t other ∙ h.lasts t lt;
        decided = h.decided;
      }
