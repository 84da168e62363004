-- ===== src/Scanner/Control/Agrees.antt =====
-- ai_scanner/control.py against ai_scanner/worker.py: the two ways to scan a page.
use scamlens.Base.{
  ◌≡◌, ◌⊎◌, refl, Text, [], Option, none, some, strip, white, Bool-cases, Option-cases, inl, inr,
}
use scamlens.Dns.Cache.{Redis}
use scamlens.Redis.{Keys}
use scamlens.Scanner.Ai.{ScanVerdict}
use scamlens.Scanner.Control.{apply_floor, extract_domain, is_blank, or_empty}
use scamlens.Scanner.Control.Report.{
  Urls, Answer, invalid_json, url_required, no_domain, failed, not_fetched, empty_page, report,
  report_aged, report_page, handle_page, scan,
}
use scamlens.Scanner.Heuristics.{HeuristicReport, analyze, render_for_prompt, classify_empty_page}
use scamlens.Scanner.Rdap.{DomainAge, lookup_age}
use scamlens.Scanner.Store.{ScanState, save_error}
use scamlens.Scanner.Worker.{
  Env, PageCapture, Attempt, returned, raised, apply_heuristic_floor, bump_new, keep, finish,
  scan_page, fetch_and_scan,
}

apply_floor-eq :
    (v : ScanVerdict) (h : HeuristicReport) (d : Text)
    → apply_floor v h d ≡ apply_heuristic_floor v h d
unfolding apply_floor apply_heuristic_floor
apply_floor-eq v h d = refl

-- The domain of a request's `url`.
abbrev pub domain_of : Urls → Option (Option Text) → Text
domain_of urls none = []
domain_of urls (some given) = extract_domain urls.hostname (strip white (or_empty given))

module _ (env : Env) (r : Redis) where
  -- What an answer says of the store that was `s` and is `s'` after it. A report: the worker's scan of
  -- a domain of unknown age is there; an empty page: an error; a 500: nothing, or if the age's
  -- lookup raised, that scan; any other answer: nothing.
  abbrev pub Stored :
      (ages : Keys DomainAge) → ages.State → Text → Answer → ScanState r → ScanState r → Type 0
  Stored ages known domain (report d capture v days links) s s' =
      (d ≡ domain) × (s' ≡ fetch_and_scan env r domain none (env.fetch domain) s)
  Stored ages known domain (empty_page d reason capture) s s' =
      (d ≡ domain) × (s' ≡ save_error r env.ttls env.now domain reason s)
  Stored ages known domain failed s s' =
      (s' ≡ s)
      ⊎ ((name : Text) × ((lookup_age env.rdap env.days_since ages domain known).0 ≡ raised name)
          × (s' ≡ fetch_and_scan env r domain none (env.fetch domain) s))
  Stored ages known domain (not_fetched d) s s' = s' ≡ s
  Stored ages known domain invalid_json s s' = s' ≡ s
  Stored ages known domain url_required s s' = s' ≡ s
  Stored ages known domain no_domain s s' = s' ≡ s

  module _ (urls : Urls) (ages : Keys DomainAge) (domain : Text) (known : ages.State)
      (s : ScanState r) where
    report_aged-Stored :
        (capture : PageCapture) (verdict : ScanVerdict) (o : Attempt DomainAge)
        (saved : ScanState r)
        → (lookup_age env.rdap env.days_since ages domain known).0 ≡ o
        → saved ≡ fetch_and_scan env r domain none (env.fetch domain) s
        → Stored ages known domain
            (report_aged env urls r ages domain capture verdict o saved)
            s
            saved
    unfolding report_aged
    report_aged-Stored capture verdict (raised name) saved e h = inr (name, e, h)
    report_aged-Stored capture verdict (returned age) saved e h = (refl, h)

    report_page-Stored :
        (capture : PageCapture) (fetched : env.fetch domain ≡ returned (some capture))
        (full : classify_empty_page env.visible_text capture.html capture.status ≡ none)
        (o : Attempt ScanVerdict)
        → env.scan domain capture.html capture.screenshot_png
            (render_for_prompt (analyze env.patterns capture.html domain))
          ≡ o
        → let out =
            report_page env urls r ages domain capture
              (analyze env.patterns capture.html domain)
              o
              known
              s in
          Stored ages known domain out.0 s out.1.1
    unfolding report_page fetch_and_scan scan_page finish keep bump_new
    report_page-Stored capture fetched full (raised name) e = inl refl
    report_page-Stored capture fetched full (returned v) e =
        report_aged-Stored capture (apply_floor v (analyze env.patterns capture.html domain) domain)
          _ _ refl
          (rw fetched (
            rw (full, scan_page)
              (rw (e, apply_floor-eq v (analyze env.patterns capture.html domain) domain) refl)))

    handle_page-Stored :
        (o : Attempt (Option PageCapture))
        → env.fetch domain ≡ o
        → let out = handle_page env urls r ages domain o known s in
          Stored ages known domain out.0 s out.1.1
    unfolding handle_page
    handle_page-Stored (raised name) e = inl refl
    handle_page-Stored (returned none) e = refl
    handle_page-Stored (returned (some capture)) e =
        elim (Option-cases (classify_empty_page env.visible_text capture.html capture.status)) [
          | inl full ↦ rw (full, handle_page) (report_page-Stored capture e full _ refl)
          | inr (reason, empty) ↦ rw (empty, handle_page) (refl, refl)
        ]

-- For every request to `/scan`: a report leaves in the store what the worker's scan of the same domain
-- leaves when it does not know the domain's age, whatever age the report gives; an empty page leaves
-- an error under the domain; a 500 leaves the store as it was, or if the lookup of the age raised
-- after the save, what the report would have left; any other answer leaves the store as it was.
pub scan-Stored :
    (env : Env) (urls : Urls) (r : Redis) (ages : Keys DomainAge) (body : Option (Option Text))
    (known : ages.State) (s : ScanState r)
    → let out = scan env urls r ages body known s in
      Stored env r ages known (domain_of urls body) out.0 s out.1.1
unfolding scan
scan-Stored env urls r ages none known s = refl
scan-Stored env urls r ages (some given) known s =
    let url = strip white (or_empty given) in
    let domain = extract_domain urls.hostname url in
    elim (Bool-cases (is_blank url)) [
      | inl e ↦ rw e refl
      | inr e ↦ rw e (elim (Bool-cases (is_blank domain)) [
        | inl f ↦ rw f refl
        | inr f ↦ rw f (handle_page-Stored env r urls ages domain known s (env.fetch domain) refl)
      ])
    ]
