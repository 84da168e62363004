-- ===== src/Scraper/Control/Names.antt =====
-- social_scraper/control.py: the names that `lstrip` leaves of subreddits.
use scamlens.Base.{
  ℕ, true, false, ◌≡◌, ◌≢◌, refl, arith, Text, [], ◌∷◌, has_char, lstrip, strip, codes, white,
  Bool-cases, inl, inr,
}
use scamlens.Scraper.Control.{clean_subreddit}

lstrip-head : (cs s : Text) (c : ℕ) (t : Text) → lstrip cs s ≡ c ∷ t → has_char c cs ≡ false
unfolding lstrip
lstrip-head cs [] c t h = cc
lstrip-head cs (x ∷ s) c t h = elim (Bool-cases (has_char x cs)) [
  | inl e ↦ lstrip-head cs s c t (rw e at h)
  | inr e ↦ ground (arith, e, h)
]

-- A prefix of characters in `bs`, all of which are in `cs`, is not there after stripping `cs`.
lstrip_again :
    (bs cs u : Text) (c : ℕ) (t : Text)
    → ((x : ℕ) → has_char x bs ≡ true → has_char x cs ≡ true)
    → ((x : ℕ) (v : Text) → u ≡ x ∷ v → has_char x cs ≡ false)
    → lstrip bs u ≡ c ∷ t
    → has_char c cs ≡ false
unfolding lstrip
lstrip_again bs cs [] c t sub first h = cc
lstrip_again bs cs (x ∷ u) c t sub first h = elim (Bool-cases (has_char x bs)) [
  | inl e ↦ ground (arith, e, sub x e, first x u refl)
  | inr e ↦ ground (arith, e, h, first x u refl)
]

slash_only : (x : ℕ) → has_char x (codes "/") ≡ true → has_char x (codes "r/") ≡ true
unfolding has_char
slash_only x h = ground (arith, h)

-- No cleaned subreddit name starts with the letter r, whatever was entered.
clean_subreddit_not_r : (s t : Text) → clean_subreddit s ≢ 114 ∷ t
unfolding clean_subreddit has_char
clean_subreddit_not_r s t h =
    let e =
      lstrip_again (codes "/") (codes "r/") (lstrip (codes "r/") (strip white s)) 114 t slash_only
        (lstrip-head (codes "r/") (strip white s)) h in
    ground (arith, e)
