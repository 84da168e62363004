-- ===== src/Scanner/Worker.antt =====
-- ai_scanner/worker.py: one scan, `_run_one`, and the floor under the model's verdict. The page
-- fetch and the model are parameters that return or raise.
pub mod Floor
pub mod Scan
pub mod Loop
use scamlens.Base.{
  ℕ, Bool, true, false, ◌&&◌, Text, List, [], ◌∷◌, ◌++◌, Option, none, some, leb, ltb, max, codes,
  decimal, if◌then◌else◌,
}
use scamlens.Redis.{Keys}
use scamlens.Dns.Cache.{Redis}
use scamlens.Scanner.Heuristics.{
  Patterns, HeuristicReport, Severity, safe, suspicious, scam, analyze, render_for_prompt,
  severity_floor, classify_empty_page,
}
use scamlens.Scanner.Ai.{ScanVerdict}
use scamlens.Scanner.Store.{Ttls, ScanState, save, save_error}
pub use scamlens.Base.{Attempt, returned, raised}
use scamlens.Scanner.Rdap.{DomainAge, RdapReply, lookup_age}

abbrev pub rank : Severity → ℕ
rank safe = 0
rank suspicious = 1
rank scam = 2

abbrev pub extra_score : Severity → ℕ
extra_score scam = 90
extra_score _ = 65

-- `_apply_heuristic_floor`
unfoldable pub apply_heuristic_floor : ScanVerdict → HeuristicReport → Text → ScanVerdict
apply_heuristic_floor verdict heuristics domain =
    let (floor_verdict, floor_reasons) = severity_floor heuristics domain in
    if leb (rank floor_verdict) (rank verdict.verdict) then verdict else record {
      verdict = floor_verdict;
      risk_score = max verdict.risk_score (extra_score floor_verdict);
      confidence = max verdict.confidence 70;
      reasons =
          verdict.reasons ++ (floor_reasons ++ codes "promoted by static-scan heuristics" ∷ []);
      mimics_brand = verdict.mimics_brand;
      model = verdict.model;
    }

pub record PageCapture : Type 0 where
  pub final_url : Text
  pub status : ℕ
  pub html : Text
  pub screenshot_png : Text
  pub title : Text

-- The scan of a domain, a page, a screenshot and the summary of the static scan.
pub record Env : Type 0 where
  pub rdap : Text → RdapReply
  pub days_since : Text → Option ℕ
  pub fetch : Text → Attempt (Option PageCapture)
  pub scan : Text → Text → Text → Text → Attempt ScanVerdict
  pub patterns : Patterns
  pub visible_text : Text → Text
  pub ttls : Ttls
  pub now : ℕ
  pub pg : Bool
  pub seed : Bool

unfoldable pub age_reason : ℕ → Text
age_reason days = codes "domain registered " ++ (decimal days ++ codes " days ago")

abbrev pub is_safe : Severity → Bool
is_safe safe = true
is_safe _ = false

-- A safe verdict on a domain of less than 14 days becomes suspicious.
unfoldable pub bump_new : Option ℕ → ScanVerdict → ScanVerdict
bump_new none v = v
bump_new (some days) v =
    if ltb days 14 && is_safe v.verdict
    then record {
      verdict = suspicious;
      risk_score = max v.risk_score 55;
      confidence = max v.confidence 40;
      reasons = v.reasons ++ age_reason days ∷ [];
      mimics_brand = v.mimics_brand;
      model = v.model;
    }
    else v

abbrev pub aged_verdict : ℕ → ScanVerdict
aged_verdict days = record {
  verdict = safe;
  risk_score = 10;
  confidence = 60;
  reasons = age_reason days ∷ [];
  mimics_brand = none;
  model = codes "rdap-age";
}

module _ (env : Env) (r : Redis) where
  unfoldable pub fail : Text → Text → ScanState r → ScanState r
  fail domain reason s = save_error r env.ttls env.now domain reason s

  unfoldable pub keep : Text → ScanVerdict → ScanState r → ScanState r
  keep domain v s = save r env.ttls env.pg env.seed env.now domain v s

  -- From the model's verdict to the store.
  unfoldable pub finish :
      Text → HeuristicReport → Option ℕ → Attempt ScanVerdict → ScanState r → ScanState r
  finish domain heuristics days (raised name) s = fail domain (codes "scan error: " ++ name) s
  finish domain heuristics days (returned v) s =
      keep domain (bump_new days (apply_heuristic_floor v heuristics domain)) s

  unfoldable pub scan_page : Text → Option ℕ → PageCapture → ScanState r → ScanState r
  scan_page domain days capture s =
      elim (classify_empty_page env.visible_text capture.html capture.status) [
        | some reason ↦ fail domain (codes "empty page: " ++ reason) s
        | none ↦
            let heuristics = analyze env.patterns capture.html domain in
            finish domain heuristics days
              (env.scan domain capture.html capture.screenshot_png (render_for_prompt heuristics)) s
      ]

  unfoldable pub fetch_and_scan :
      Text → Option ℕ → Attempt (Option PageCapture) → ScanState r → ScanState r
  fetch_and_scan domain days (raised name) s = fail domain (codes "scan error: " ++ name) s
  fetch_and_scan domain days (returned none) s = fail domain (codes "fetch failed") s
  fetch_and_scan domain days (returned (some capture)) s = scan_page domain days capture s

  unfoldable pub run_aged : Text → Option ℕ → ScanState r → ScanState r
  run_aged domain none s = fetch_and_scan domain none (env.fetch domain) s
  run_aged domain (some days) s =
      if leb 365 days
      then keep domain (aged_verdict days) s
      else fetch_and_scan domain (some days) (env.fetch domain) s

  -- From the age, or the exception of its lookup, to the store.
  unfoldable pub run_looked_up : Text → Attempt DomainAge → ScanState r → ScanState r
  run_looked_up domain (raised name) s = fail domain (codes "scan error: " ++ name) s
  run_looked_up domain (returned age) s = run_aged domain age.days s

  -- `_run_one`
  unfoldable pub run_one :
      (ages : Keys DomainAge) → Text → ages.State → ScanState r → ages.State × ScanState r
  run_one ages domain known s =
      let (age, known') = lookup_age env.rdap env.days_since ages domain known in
      (known', run_looked_up domain age s)
