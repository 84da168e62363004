-- ===== src/Scanner/Control/Links.antt =====
-- ai_scanner/control.py: the links that are kept.
use scamlens.Base.{
  ◌+◌, ◌≡◌, ◌≤◌, ◌<◌, refl, arith, Text, List, [], ◌∷◌, ◌++◌, Option, leb, length, elem, Distinct,
  Distinct-concat, length-append, Bool-cases, Option-cases, inl, inr,
}
use scamlens.Scanner.Control.{resolve_href, links_loop, extract_links, apply_floor}
use scamlens.Scanner.Heuristics.{HeuristicReport}
use scamlens.Scanner.Ai.{ScanVerdict}
use scamlens.Scanner.Worker.{apply_heuristic_floor}

abbrev Kept : List Text → Type 0
Kept results = Distinct results × (length results ≤ 200)

links_loop-Kept :
    (urljoin : Text → Text → Option Text) (base_url : Text) (ms results : List Text)
    → Distinct results
    → length results < 200
    → Kept (links_loop urljoin base_url ms results)
unfolding links_loop
links_loop-Kept urljoin base_url [] results d h = (d, omega arith)
links_loop-Kept urljoin base_url (m ∷ ms) results d h =
    elim (Option-cases (resolve_href urljoin base_url m)) [
      | inl e ↦ rw (e, links_loop) (links_loop-Kept urljoin base_url ms results d h)
      | inr (href, e) ↦
          rw (e, links_loop)
            (elim (Bool-cases (elem href results)) [
              | inl old ↦ rw old (links_loop-Kept urljoin base_url ms results d h)
              | inr new ↦
                  let d' = Distinct-concat results href d new in
                  let n = length-append results (href ∷ []) in
                  rw new (elim (Bool-cases (leb 200 (length results + 1))) [
                    | inl full ↦ rw full (d', omega (arith, n, h))
                    | inr room ↦ rw room (
                        links_loop-Kept urljoin base_url ms (results ++ href ∷ []) d'
                          (ground (arith, n, room)))
                  ])
            ])
    ]

-- The links of every page: no link twice, and at most 200.
extract_links-Distinct :
    (hrefs : Text → List Text) (urljoin : Text → Text → Option Text) (html base_url : Text)
    → Distinct (extract_links hrefs urljoin html base_url)
      × (length (extract_links hrefs urljoin html base_url) ≤ 200)
unfolding extract_links
extract_links-Distinct hrefs urljoin html base_url =
    links_loop-Kept urljoin base_url (hrefs html) [] tt (omega arith)

-- The control endpoint's `_apply_floor` gives what the worker's `_apply_heuristic_floor` gives, for
-- every verdict, report and domain.
pub apply_floor-eq-apply_heuristic_floor :
    (v : ScanVerdict) (h : HeuristicReport) (domain : Text)
    → apply_floor v h domain ≡ apply_heuristic_floor v h domain
unfolding apply_floor apply_heuristic_floor
apply_floor-eq-apply_heuristic_floor v h domain = refl
