-- ===== src/Scanner/Control.antt =====
-- ai_scanner/control.py: the links of a page and their triage, and the second copy of the floor.
-- `urlparse`, `urljoin`, the search for `href` and `list.sort` are parameters.
pub mod Links
pub mod Triage
pub mod Sorting
pub mod Report
pub mod Agrees
use scamlens.Base.{
  ℕ, ◌+◌, Bool, true, false, not, ◌&&◌, ◌||◌, Text, List, [], ◌∷◌, ◌++◌, map, Option, none, some,
  leb, max, length, elem, lower, strip, starts_with, codes, white, same, if◌then◌else◌,
}
use scamlens.Dns.Cache
use scamlens.Dns.Cache.{Label, Redis, Payload}
use scamlens.Scanner.Heuristics.{HeuristicReport, severity_floor}
use scamlens.Scanner.Ai.{ScanVerdict}
use scamlens.Scanner.Worker.{rank, extra_score}

-- `_apply_floor`
unfoldable pub apply_floor : ScanVerdict → HeuristicReport → Text → ScanVerdict
apply_floor verdict heuristics domain =
    let (floor_v, floor_r) = severity_floor heuristics domain in
    if leb (rank floor_v) (rank verdict.verdict) then verdict else record {
      verdict = floor_v;
      risk_score = max verdict.risk_score (extra_score floor_v);
      confidence = max verdict.confidence 70;
      reasons = verdict.reasons ++ (floor_r ++ codes "promoted by static-scan heuristics" ∷ []);
      mimics_brand = verdict.mimics_brand;
      model = verdict.model;
    }

abbrev pub starts_any : List Text → Text → Bool
starts_any [] s = false
starts_any (p ∷ ps) s = starts_with p s || starts_any ps s

abbrev pub schemes : List Text
schemes = codes "http://" ∷ codes "https://" ∷ []

abbrev pub skipped : List Text
skipped = codes "javascript:" ∷ codes "mailto:" ∷ codes "tel:" ∷ codes "#" ∷ codes "data:" ∷ []

abbrev or_empty : Option Text → Text
or_empty none = []
or_empty (some t) = t

abbrev pub is_blank : Text → Bool
is_blank [] = true
is_blank (c ∷ t) = false

-- `hostname` is `urlparse(s).hostname`, and `none` its `None` or an exception.
unfoldable pub extract_domain : (Text → Option Text) → Text → Text
extract_domain hostname url_or_domain =
    let s = strip white url_or_domain in
    lower (or_empty (hostname (if starts_any schemes s then s else codes "http://" ++ s)))

-- One `href`: `none` goes on with the next.
unfoldable pub resolve_href : (Text → Text → Option Text) → Text → Text → Option Text
resolve_href urljoin base_url m =
    let href = strip white m in
    if is_blank href || starts_any skipped href
    then none
    else if starts_with (codes "/") href || not (starts_any schemes href)
    then urljoin base_url href
    else some href

-- The loop over the matches; `results` holds what `seen` holds.
unfoldable pub links_loop : (Text → Text → Option Text) → Text → List Text → List Text → List Text
links_loop urljoin base_url [] results = results
links_loop urljoin base_url (m ∷ ms) results = elim (resolve_href urljoin base_url m) [
  | none ↦ links_loop urljoin base_url ms results
  | some href ↦
      let skip = links_loop urljoin base_url ms results in
      let on = links_loop urljoin base_url ms (results ++ href ∷ []) in
      if elem href results
      then skip
      else if leb 200 (length results + 1)
      then results ++ href ∷ []
      else on
]

unfoldable pub extract_links :
    (Text → List Text) → (Text → Text → Option Text) → Text → Text → List Text
extract_links hrefs urljoin html base_url = links_loop urljoin base_url (hrefs html) []

-- `by_domain`: the domains with the first link to each.
unfoldable pub set_default : Text → Text → List (Text × Text) → List (Text × Text)
set_default d href [] = (d, href) ∷ []
set_default d href ((e, h) ∷ m) = if same d e then (e, h) ∷ m else (e, h) ∷ set_default d href m

unfoldable pub group_links :
    (Text → Option Text) → List Text → List (Text × Text) → List (Text × Text)
group_links hostname [] by_domain = by_domain
group_links hostname (href ∷ links) by_domain =
    let d = extract_domain hostname href in
    let next = set_default d href by_domain in
    let skip = group_links hostname links by_domain in
    let on = group_links hostname links next in
    if is_blank d then skip else if leb 30 (length next) then next else on

pub record Triaged : Type 0 where
  pub domain : Text
  pub first_seen_href : Text
  pub cached_verdict : Option Payload

-- `rank.get(verdict, 9)`
abbrev pub link_rank : Triaged → ℕ
link_rank t = elim (t.cached_verdict) [
  | none ↦ 9
  | some p ↦ elim (p.verdict) [
    | Cache.scam ↦ 0
    | Cache.suspicious ↦ 1
    | Cache.pending ↦ 2
    | Cache.safe ↦ 9
  ]
]

unfoldable pub look_up : (r : Redis) → r.verdicts.State → List (Text × Text) → List Triaged
look_up r s [] = []
look_up r s ((d, href) ∷ m) =
    record {
      domain = d;
      first_seen_href = href;
      cached_verdict = r.verdicts.get (codes "verdict:" ++ d) s;
    }
    ∷ look_up r s m

-- `sort` is `list.sort` with a key of natural numbers.
abbrev pub Sort : Type 0
Sort = (Triaged → ℕ) → List Triaged → List Triaged

unfoldable pub triage_links :
    (r : Redis) → Sort → (Text → Option Text) → r.verdicts.State → List Text → List Triaged
triage_links r sort hostname s links = sort link_rank (look_up r s (group_links hostname links []))
