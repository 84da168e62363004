-- ===== src/Scraper/Extract/Clean.antt =====
-- What holds of every URL that is extracted.
use mathlib.Core.List.{reverse, reverse-reverse}
use scamlens.Base.{
  Bool, true, not, ◌≡◌, ◌≤◌, refl, arith, Text, List, [], ◌∷◌, ◌++◌, Option, some, ltb, length,
  elem, Distinct, Distinct-concat, All, All-append, Bool-cases, Option-cases, inl, inr, some_inj,
  subst,
}
use scamlens.Scraper.Extract.{
  is_junk, drop_junk, trim_trailing_junk, has_host, clean_url, clean_urls, dedupe, extract_urls,
}

-- The text does not end with junk: read backwards, it does not begin with it.
abbrev pub starts_clean : Text → Bool
starts_clean [] = true
starts_clean (c ∷ s) = not (is_junk c)

drop_junk-clean : (s : Text) → starts_clean (drop_junk s) ≡ true
unfolding drop_junk
drop_junk-clean [] = refl
drop_junk-clean (c ∷ s) = ground (arith, drop_junk-clean s)

pub record IsClean (hostname : Text → Option Text) (url : Text) : Type 0 where
  pub long : 11 ≤ length url
  pub tail : starts_clean (reverse url) ≡ true
  pub host : has_host (hostname url) ≡ true

clean_url-IsClean :
    (find_urls : Text → List Text) (hostname : Text → Option Text) (m : Text) {url : Text}
    → clean_url find_urls hostname m ≡ some url
    → IsClean hostname url
unfolding clean_url trim_trailing_junk
clean_url-IsClean find_urls hostname m {url} h =
    let t = reverse (drop_junk (reverse m)) in
    elim (Bool-cases (ltb (length t) 11)) [
      | inl short ↦ cc (rw short at h)
      | inr long ↦ elim (Bool-cases (has_host (hostname t))) [
        | inr hostless ↦ cc (rw (long, hostless) at h)
        | inl host ↦ subst (IsClean hostname) (some_inj (rw (long, host) at h)) (record {
          long = ground (arith, long);
          tail = rw (reverse-reverse (drop_junk (reverse m))) (drop_junk-clean (reverse m));
          host = host;
        })
      ]
    ]

clean_urls-IsClean :
    (find_urls : Text → List Text) (hostname : Text → Option Text) (ms : List Text)
    → All (IsClean hostname) (clean_urls find_urls hostname ms)
unfolding clean_urls
clean_urls-IsClean find_urls hostname [] = tt
clean_urls-IsClean find_urls hostname (m ∷ ms) =
    elim (Option-cases (clean_url find_urls hostname m)) [
      | inl e ↦ rw (e, clean_urls) (clean_urls-IsClean find_urls hostname ms)
      | inr (url, e) ↦
          rw (e, clean_urls)
            (clean_url-IsClean find_urls hostname m e, clean_urls-IsClean find_urls hostname ms)
    ]

dedupe-All :
    (P : Text → Type 0) (us deduped : List Text)
    → All P us
    → All P deduped
    → Distinct deduped
    → All P (dedupe us deduped) × Distinct (dedupe us deduped)
unfolding dedupe
dedupe-All P [] deduped h k d = (k, d)
dedupe-All P (u ∷ us) deduped h k d = elim (Bool-cases (elem u deduped)) [
  | inl old ↦ rw old (dedupe-All P us deduped h.1 k d)
  | inr new ↦ rw new (
      dedupe-All P us (deduped ++ u ∷ []) h.1 (All-append P deduped (u ∷ []) k (h.0, tt))
        (Distinct-concat deduped u d new))
]

-- For every text: each extracted URL has at least 11 characters, ends with no character of the
-- junk set and no emoji, and has a host with a dot; and no URL is extracted twice.
extract_urls-IsClean :
    (find_urls : Text → List Text) (hostname : Text → Option Text) (text : Text)
    → All (IsClean hostname) (extract_urls find_urls hostname text)
      × Distinct (extract_urls find_urls hostname text)
unfolding extract_urls
extract_urls-IsClean find_urls hostname [] = (tt, tt)
extract_urls-IsClean find_urls hostname (c ∷ text) =
    dedupe-All (IsClean hostname) _ []
      (clean_urls-IsClean find_urls hostname (find_urls (c ∷ text))) tt tt
