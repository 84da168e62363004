-- ===== src/Scanner/Control/Report.antt =====
-- ai_scanner/control.py: the handler `scan`.
use scamlens.Base.{ℕ, Text, List, Option, none, some, strip, white, if◌then◌else◌}
use scamlens.Dns.Cache.{Redis}
use scamlens.Redis.{Keys}
use scamlens.Scanner.Ai.{ScanVerdict}
use scamlens.Scanner.Control.{
  apply_floor, extract_domain, extract_links, triage_links, is_blank, or_empty, Triaged, Sort,
}
use scamlens.Scanner.Heuristics.{HeuristicReport, analyze, render_for_prompt, classify_empty_page}
use scamlens.Scanner.Rdap.{DomainAge, lookup_age}
use scamlens.Scanner.Store.{ScanState, save, save_error}
use scamlens.Scanner.Worker.{Env, PageCapture, Attempt, returned, raised}

-- The functions of `urllib.parse`, the search for `href`, and `list.sort`.
pub record Urls : Type 0 where
  pub hostname : Text → Option Text
  pub hrefs : Text → List Text
  pub urljoin : Text → Text → Option Text
  pub sort : Sort

-- The answers; `failed` is an exception in a handler.
pub data Answer : Type 0 where
  invalid_json url_required no_domain failed : Answer
  not_fetched : Text → Answer
  empty_page : Text → Text → PageCapture → Answer
  report : Text → PageCapture → ScanVerdict → Option ℕ → List Triaged → Answer

module _ (env : Env) (urls : Urls) (r : Redis) (ages : Keys DomainAge) where
  abbrev pub Handled : Type 0
  Handled = Answer × (ages.State × ScanState r)

  -- The answer after `save`: with the age and the links, or the exception of the age's lookup.
  unfoldable pub report_aged :
      Text → PageCapture → ScanVerdict → Attempt DomainAge → ScanState r → Answer
  report_aged domain capture verdict (raised name) saved = failed
  report_aged domain capture verdict (returned age) saved =
      let links = extract_links urls.hrefs urls.urljoin capture.html capture.final_url in
      report domain capture verdict age.days
        (triage_links r urls.sort urls.hostname saved.cache.verdicts links)

  -- After the model's verdict: the floor, `save`, the age and the links.
  unfoldable pub report_page :
      Text
      → PageCapture
      → HeuristicReport
      → Attempt ScanVerdict
      → ages.State
      → ScanState r
      → Handled
  report_page domain capture heuristics (raised name) known s = (failed, (known, s))
  report_page domain capture heuristics (returned v) known s =
      let verdict = apply_floor v heuristics domain in
      let saved = save r env.ttls env.pg env.seed env.now domain verdict s in
      let (age, known') = lookup_age env.rdap env.days_since ages domain known in
      (report_aged domain capture verdict age saved, (known', saved))

  unfoldable pub handle_page :
      Text → Attempt (Option PageCapture) → ages.State → ScanState r → Handled
  unfolding report_page
  handle_page domain (raised name) known s = (failed, (known, s))
  handle_page domain (returned none) known s = (not_fetched domain, (known, s))
  handle_page domain (returned (some capture)) known s =
      elim (classify_empty_page env.visible_text capture.html capture.status) [
        | some reason ↦ (
          empty_page domain reason capture,
          (known, save_error r env.ttls env.now domain reason s),
        )
        | none ↦
            let heuristics = analyze env.patterns capture.html domain in
            report_page domain capture heuristics
              (env.scan domain capture.html capture.screenshot_png (render_for_prompt heuristics))
              known s
      ]

  -- The body of the request is `none` where it is no JSON, and its `url` may be absent.
  unfoldable pub scan : Option (Option Text) → ages.State → ScanState r → Handled
  unfolding handle_page
  scan none known s = (invalid_json, (known, s))
  scan (some given) known s =
      let url = strip white (or_empty given) in
      let domain = extract_domain urls.hostname url in
      if is_blank url
      then (url_required, (known, s))
      else if is_blank domain
      then (no_domain, (known, s))
      else handle_page domain (env.fetch domain) known s
