-- ===== src/Scanner/Heuristics/Pages.antt =====
-- ai_scanner/heuristics.py: which pages the AI is not asked about.
use scamlens.Base.{ℕ, true, false, not, ◌||◌, ◌≡◌, ◌↔◌, ◌≤◌, arith, Text, none, length, leb, lower}
use scamlens.Scanner.Heuristics.{any_of, mentioned, parking_keywords, classify_empty_page}

-- For every page, status and text extraction: the page is left to the AI exactly when its status
-- is below 400, its HTML has at least 200 characters, and its visible text has at least 600
-- characters, or at least 80 and none of the parking phrases.
classify_empty_page_iff :
    (visible_text : Text → Text) (html : Text) (status : ℕ)
    → (classify_empty_page visible_text html status ≡ none) ↔ (
        (leb 400 status ≡ false)
        × (200 ≤ length html)
        × (80 ≤ length (visible_text html))
        × ((leb 600 (length (visible_text html))
              || not (any_of (mentioned (lower (visible_text html)) parking_keywords)))
            ≡ true))
unfolding classify_empty_page
classify_empty_page_iff visible_text html status = ground arith
