-- ===== src/Scanner/Tests.antt =====
-- ai_scanner/: runs of the static scan, the parser, the store and the worker.
use scamlens.Base.{
  split, join, elem, strip, lower, same, ℕ, true, false, ◌&&◌, ◌||◌, ◌==◌, ◌≡◌, ◌≢◌, ◌⊎◌, ◌≤◌, ◌<◌,
  ◌++◌, refl, arith, Text, List, [], ◌∷◌, Option, none, some, codes, max, if◌then◌else◌, leb,
  returned,
}
use scamlens.Dns.Cache
use scamlens.Dns.Cache.{Payload}
use scamlens.Dns.Cache.Concrete.{memory, fresh}
use scamlens.Redis.Memory.{memory_keys, no_entries, get-no_entries}
use scamlens.Scanner.Heuristics.{HeuristicReport, safe, scam}
use scamlens.Scanner.Ai.{ScanVerdict, ModelReply, number, Loaded, parse_verdict, of_reply}
use scamlens.Scanner.Ai
use scamlens.Base.{lower, same}
use scamlens.Scanner.Rdap
use scamlens.Scanner.Store.{Ttls, ScanState}
use scamlens.Scanner.Store.Saved.{IsPositive, LastsFor}
use scamlens.Scanner.Rdap.{
  DomainAge, RdapReply, event, reply, error, registered_of, fresh_age, fetch_rdap_registration,
  registration,
}
use scamlens.Scanner.Worker.{Env, PageCapture}
use scamlens.Scanner.Control.Sorting.{insertion_sort}
use scamlens.Base.{Attempt, returned, raised}
use scamlens.Scanner.Ai.Clients
use scamlens.Scanner.Ai.Clients.{Client, anthropic, Call, jpeg_magic, attempt_scan}
use scamlens.Scanner.Control.Report.{Urls}
use scamlens.Dns.Cache.{Payload}
use scamlens.Postgres.{has_seed}
use scamlens.Scanner.Ai.{of_reply, object, ModelReply, clean}
use scamlens.Scanner.Ai.Parsed.{parse_verdict-scam, IsPart, IsBounded}
use scamlens.Scanner.Control.Agrees.{scan-Stored, domain_of, Stored}
use scamlens.Scanner.Control.Report.{scan}
use scamlens.Scanner.Heuristics.{safe, severity_floor}
use scamlens.Scanner.Rdap.{DomainAge, lookup_age, registered_label}
use scamlens.Scanner.Rdap.Cached.{lookup_age_stable}
use scamlens.Scanner.Store.{is_scam, verdict_row, save, verdict_payload}
use scamlens.Scanner.Store.Saved.{cached, save_lem, find_row}
use scamlens.Scanner.Worker.{run_one, apply_heuristic_floor, extra_score, rank}
use scamlens.Scanner.Worker.Floor.{apply_heuristic_floor_lem}
use scamlens.Scanner.Worker.Loop.{Turn, run_decides, run, IsDecided}
use scamlens.Scanner.Worker.Scan.{run_one_young}

abbrev login_report : HeuristicReport
login_report = record {
  has_password_field = true;
  has_card_field = true;
  has_otp_field = false;
  has_seed_phrase_ask = false;
  obfuscated_script_count = 0;
  cred_brand_terms = [];
  suspicious_keywords = [];
  free_tld = false;
}

abbrev safe_scan : ScanVerdict
safe_scan = record {
  verdict = safe;
  risk_score = 5;
  confidence = 80;
  reasons = codes "looks fine" ∷ [];
  mimics_brand = none;
  model = codes "m";
}

abbrev as_is : Text → Text
as_is t = t

abbrev scam_reply : ModelReply
scam_reply = record {
  verdict = some (codes "SCAM");
  risk_score = some (number 140);
  confidence = none;
  reasons = [];
  mimics_brand = none;
}

abbrev loads_example : Text → Loaded
loads_example t = Ai.object scam_reply

abbrev braces_example : Text → Option Text
braces_example t = none

parse_example :
    parse_verdict loads_example as_is braces_example (codes "{}") (codes "m")
    ≡ returned (of_reply scam_reply (codes "m"))
unfolding parse_verdict
parse_example = refl

said_scam : (of_reply scam_reply (codes "m")).verdict ≡ scam
unfolding of_reply lower same
said_scam = refl

-- The first request fails.
abbrev service_example : Client → Call → ℕ → Attempt Text
service_example client call i = if i == 0 then raised (codes "APIError") else returned (codes "{}")

abbrev client_example : Client
client_example = anthropic (codes "key") (codes "m")

-- Three attempts, and the last exception.
abbrev retrying_example : ℕ → (ℕ → Attempt ScanVerdict) → Attempt ScanVerdict
retrying_example n attempt = elim (attempt 0) [
  | returned v ↦ returned v
  | raised name ↦ elim (attempt 1) [ returned v ↦ returned v | raised name' ↦ attempt 2 ]
]

scan_example :
    Clients.client_scan loads_example as_is braces_example
      (codes "judge")
      service_example
      retrying_example
      client_example
      (codes "evil.com")
      (codes "<a>")
      jpeg_magic
      []
    ≡ returned (of_reply scam_reply (codes "m"))
unfolding Clients.client_scan attempt_scan parse_verdict
scan_example = refl

abbrev ttls_example : Ttls
ttls_example = record { safe_ttl = 3600; scam_ttl = 604800; unknown_ttl = 300 }

ttls_example-IsPositive : IsPositive ttls_example
ttls_example-IsPositive = record {
  safe_pos = omega arith;
  scam_pos = omega arith;
  unknown_pos = omega arith;
}

ttls_example-LastsFor : LastsFor 300 ttls_example
ttls_example-LastsFor = record {
  safe_long = omega arith;
  scam_long = omega arith;
  unknown_long = omega arith;
}

abbrev turns_before : List Turn
turns_before =
    record { passed = 5; popped = none }
    ∷ record { passed = 1; popped = some (codes "good.com") }
    ∷ []

abbrev turns_after : List Turn
turns_after =
    record { passed = 30; popped = some (codes "good.com") }
    ∷ record { passed = 200; popped = none }
    ∷ []

abbrev scan_start : ScanState memory
scan_start = record {
  cache = fresh;
  db = record {
    blocklist_seed = [];
    whitelist = [];
    domain_verdicts = [];
    user_reports = [];
    brand_domains = [];
    blocked_attempts = [];
    users = [];
  };
}

abbrev rdap_example : Text → RdapReply
rdap_example url =
    reply 200 (Rdap.object (event (codes "registration") (some (codes "2026-01-01")) ∷ []))

abbrev rdap_down : Text → RdapReply
rdap_down url = error

abbrev three_days : Text → Option ℕ
three_days date = some 3

same_registered : registered_label (codes "www.evil.com") ≡ registered_label (codes "evil.com")
unfolding registered_label registered_of split join same elem strip lower
same_registered = refl

abbrev page_example : PageCapture
page_example = record {
  final_url = codes "http://evil.com/login";
  status = 200;
  html =
      codes
        "<html><body><h1>Welcome to the example shop</h1><p>We sell tables, chairs and lamps, and we send them to every town. Write to us if you want to know more about our goods, our prices and the time that it takes until they reach you.</p></body></html>";
  screenshot_png = [];
  title = codes "Shop";
}

-- A page that the model finds safe.
abbrev env_example : Env
env_example = record {
  rdap = rdap_example;
  days_since = three_days;
  fetch = λ domain. returned (some page_example);
  scan = λ domain html screenshot summary. returned safe_scan;
  patterns = record {
    password_field = λ html. false;
    card_field = λ html. false;
    otp_field = λ html. false;
    seed_phrase = λ html. false;
    obfuscated_scripts = λ html. 0;
  };
  visible_text = as_is;
  ttls = ttls_example;
  now = 1000;
  pg = true;
  seed = true;
}

abbrev age_three : DomainAge
age_three = record { days = some 3; registered_at = some (codes "2026-01-01") }

age_example :
    (lookup_age rdap_example three_days
      (memory_keys DomainAge)
      (codes "evil.com")
      (no_entries DomainAge)).0
    ≡ returned age_three
unfolding lookup_age fresh_age fetch_rdap_registration registration same no_entries memory_keys
age_example = refl

abbrev hrefs_example : Text → List Text
hrefs_example html = codes "/a" ∷ codes "/a" ∷ codes "http://evil.com/b" ∷ []

abbrev join_example : Text → Text → Option Text
join_example base href = some href

abbrev hostname_example : Text → Option Text
hostname_example url = some url

abbrev urls_example : Urls
urls_example = record {
  hostname = λ url. some (codes "evil.com");
  hrefs = hrefs_example;
  urljoin = join_example;
  sort = insertion_sort;
}

run_one_young_example :
    (payload : Payload) × (cached memory
        (codes "evil.com")
        (run_one env_example memory
          (memory_keys DomainAge)
          (codes "evil.com")
          (no_entries DomainAge)
          scan_start).1
      ≡ some payload)
    × (payload.verdict ≢ Cache.safe)
run_one_young_example =
    run_one_young env_example memory (memory_keys DomainAge) (codes "evil.com")
      (no_entries DomainAge) scan_start age_three 3 ttls_example-IsPositive age_example refl
      (omega arith)

run_decides_example :
    IsDecided memory
      (codes "evil.com")
      (run
        (λ t. env_example)
        memory
        (memory_keys DomainAge)
        1000
        (turns_before ++ record { passed = 2; popped = some (codes "evil.com") } ∷ turns_after)
        (no_entries DomainAge)
        scan_start).1
run_decides_example =
    run_decides (λ t. env_example) memory (memory_keys DomainAge) 300 (codes "evil.com") 1000
      turns_before turns_after 2 (no_entries DomainAge) scan_start (λ t. ttls_example-LastsFor)
      (omega arith)

scan-Stored_example :
    let out =
      scan env_example urls_example memory
        (memory_keys DomainAge)
        (some (some (codes "http://evil.com/login")))
        (no_entries DomainAge)
        scan_start in
    Stored env_example memory
      (memory_keys DomainAge)
      (no_entries DomainAge)
      (domain_of urls_example (some (some (codes "http://evil.com/login"))))
      out.0
      scan_start
      out.1.1
scan-Stored_example =
    scan-Stored env_example urls_example memory (memory_keys DomainAge)
      (some (some (codes "http://evil.com/login"))) (no_entries DomainAge) scan_start

parse_verdict-scam_example :
    IsBounded (of_reply scam_reply (codes "m"))
    × ((body : Text) × (reply : ModelReply) × (word : Text) × IsPart braces_example
          (clean loads_example as_is braces_example (codes "{}"))
          body
        × (loads_example body ≡ object reply)
        × (reply.verdict ≡ some word)
        × (lower word ≡ codes "scam"))
parse_verdict-scam_example =
    parse_verdict-scam loads_example as_is braces_example (codes "{}") (codes "m")
      (of_reply scam_reply (codes "m")) parse_example said_scam

apply_heuristic_floor_lem_example :
    (rank (apply_heuristic_floor safe_scan login_report (codes "evil.com")).verdict
      ≡ max (rank safe_scan.verdict) (rank (severity_floor login_report (codes "evil.com")).0))
    × (safe_scan.risk_score
        ≤ (apply_heuristic_floor safe_scan login_report (codes "evil.com")).risk_score)
    × (safe_scan.confidence
        ≤ (apply_heuristic_floor safe_scan login_report (codes "evil.com")).confidence)
    × ((apply_heuristic_floor safe_scan login_report (codes "evil.com") ≡ safe_scan)
        ⊎ ((rank safe_scan.verdict < rank (severity_floor login_report (codes "evil.com")).0)
            × (extra_score (severity_floor login_report (codes "evil.com")).0
                ≤ (apply_heuristic_floor safe_scan login_report (codes "evil.com")).risk_score)
            × (70 ≤ (apply_heuristic_floor safe_scan login_report (codes "evil.com")).confidence)))
apply_heuristic_floor_lem_example =
    apply_heuristic_floor_lem safe_scan login_report (codes "evil.com")

save_lem_example :
    (cached memory
        (codes "good.com")
        (save memory ttls_example true true 1000 (codes "evil.com") safe_scan scan_start)
      ≡ (if same (codes "evil.com") (codes "good.com")
          then some (verdict_payload safe_scan 1000)
          else cached memory (codes "good.com") scan_start))
    × (find_row
          (codes "good.com")
          (save memory ttls_example true true 1000
            (codes "evil.com")
            safe_scan
            scan_start).db.domain_verdicts
        ≡ (if true && same (codes "good.com") (codes "evil.com")
            then some (verdict_row (codes "evil.com") safe_scan)
            else find_row (codes "good.com") scan_start.db.domain_verdicts))
    × (has_seed
          (codes "good.com")
          (save memory ttls_example true true 1000
            (codes "evil.com")
            safe_scan
            scan_start).db.blocklist_seed
        ≡ (((is_scam safe_scan.verdict && leb 70 safe_scan.confidence && true)
              && same (codes "good.com") (codes "evil.com"))
            || has_seed (codes "good.com") scan_start.db.blocklist_seed))
save_lem_example =
    save_lem memory ttls_example true true 1000 (codes "evil.com") (codes "good.com") safe_scan
      scan_start ttls_example-IsPositive

lookup_age_stable_example :
    lookup_age rdap_down three_days (memory_keys DomainAge) (codes "www.evil.com") (
      (memory_keys DomainAge).elapse 60
        (lookup_age rdap_example three_days
          (memory_keys DomainAge)
          (codes "evil.com")
          (no_entries DomainAge)).1)
    ≡ (
      returned age_three,
      (memory_keys DomainAge).elapse 60
          (lookup_age rdap_example three_days
            (memory_keys DomainAge)
            (codes "evil.com")
            (no_entries DomainAge)).1,
    )
lookup_age_stable_example =
    lookup_age_stable rdap_example rdap_down three_days three_days (memory_keys DomainAge)
      (codes "evil.com") (codes "www.evil.com") age_three 60 (no_entries DomainAge)
      (get-no_entries DomainAge (codes "rdap:" ++ registered_label (codes "evil.com"))) age_example
      same_registered (omega arith)
