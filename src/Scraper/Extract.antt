-- ===== src/Scraper/Extract.antt =====
-- social_scraper/extract.py. The search for URLs and `urlparse(url).hostname` are parameters; a
-- host of `none` is `None` or an exception.
pub mod Clean
use mathlib.Core.List.{reverse}
use scamlens.Base.{
  ℕ, Bool, true, false, not, ◌&&◌, ◌||◌, Text, List, [], ◌∷◌, ◌++◌, Option, none, some, leb, ltb,
  length, elem, has_char, lower, codes, if◌then◌else◌,
}

abbrev pub trailing_junk : Text
trailing_junk =
    codes ".,;:!?\"')]}>" ++ 0xa0 ∷ 0xfffd ∷ 0x200b ∷ 0x200c ∷ 0x200d ∷ 0xfe0f ∷ 0x2060 ∷ []

unfoldable pub is_emoji : ℕ → Bool
is_emoji cp =
    (leb 0x1F300 cp && leb cp 0x1FAFF)
    || (leb 0x2600 cp && leb cp 0x27BF)
    || (leb 0x1F1E6 cp && leb cp 0x1F1FF)

unfoldable pub is_junk : ℕ → Bool
is_junk c = has_char c trailing_junk || is_emoji c

-- The `while` loop, on the reversed text.
unfoldable pub drop_junk : Text → Text
drop_junk [] = []
drop_junk (c ∷ s) = let rest = drop_junk s in if is_junk c then rest else c ∷ s

unfoldable pub trim_trailing_junk : Text → Text
trim_trailing_junk url = reverse (drop_junk (reverse url))

abbrev pub has_host : Option Text → Bool
has_host none = false
has_host (some h) = has_char b'.' h

module _ (find_urls : Text → List Text) (hostname : Text → Option Text) where
  -- One match: `none` goes on with the next.
  unfoldable pub clean_url : Text → Option Text
  clean_url m =
      let url = trim_trailing_junk m in
      if ltb (length url) 11 then none else if has_host (hostname url) then some url else none

  unfoldable pub clean_urls : List Text → List Text
  clean_urls [] = []
  clean_urls (m ∷ ms) = elim (clean_url m) [ none ↦ clean_urls ms | some url ↦ url ∷ clean_urls ms ]

-- De-dupe preserving order; `deduped` holds what `seen` holds.
unfoldable pub dedupe : List Text → List Text → List Text
dedupe [] deduped = deduped
dedupe (u ∷ us) deduped = dedupe us (if elem u deduped then deduped else deduped ++ u ∷ [])

module _ (find_urls : Text → List Text) (hostname : Text → Option Text) where
  unfoldable pub extract_urls : Text → List Text
  extract_urls [] = []
  extract_urls (c ∷ text) = dedupe (clean_urls find_urls hostname (find_urls (c ∷ text))) []

abbrev or_empty : Option Text → Text
or_empty none = []
or_empty (some t) = t

unfoldable pub url_to_domain : (Text → Option Text) → Text → Text
url_to_domain hostname url = lower (or_empty (hostname url))
