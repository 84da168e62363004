-- ===== src/Dns/Typosquat/Tests.antt =====
-- dns_server/typosquat.py: runs of the detector.
use scamlens.Base.{
  starts_with, strip, lower, true, false, ◌≡◌, ◌≢◌, ◌↔◌, refl, List, [], ◌∷◌, some, codes, is_some,
}
use scamlens.Dns.Typosquat.Detector.{
  TyposquatHit, Anchor, Labels, hit, distance_reason, check, check_label, brand_labels, near,
}
use scamlens.Dns.Typosquat.Levenshtein.{levenshtein}
use scamlens.Dns.Typosquat.Boundary.{
  contains_at_boundary, find_from, find, left_ok, right_ok, at_separator,
}
use scamlens.Dns.Typosquat.Labels.{normalize, etld_plus_one_label}
use scamlens.Dns.Typosquat.Boundary.{contains_at_boundary}
use scamlens.Dns.Typosquat.Boundary.Tokens.{contains_at_boundary_iff, IsToken}
use scamlens.Dns.Typosquat.Detector.{check, brand_labels}
use scamlens.Dns.Typosquat.Detector.Complete.{check_iff, label_of, IsFlagged}
use scamlens.Dns.Typosquat.Levenshtein.{levenshtein}
use scamlens.Dns.Typosquat.Levenshtein.Exact.{levenshtein-Measures, Measures}

abbrev maybank : Anchor
maybank = record { canonical = codes "maybank.com"; brand = codes "Maybank" }

abbrev anchors : List Anchor
anchors = maybank ∷ []

abbrev labels_example : Labels
labels_example = (codes "maybank", maybank) ∷ []

detector : Unit {0}
unfolding check check_label levenshtein contains_at_boundary normalize brand_labels
    etld_plus_one_label near find_from find starts_with left_ok right_ok at_separator strip lower
detector = tt

abbrev misspelled : TyposquatHit
misspelled = hit maybank (distance_reason maybank 1) 1

misspelled_found : check_label true true labels_example (codes "maybnk") ≡ some misspelled
unfolding detector hit
misspelled_found = refl

detector_tests :
    (is_some (check true true anchors (codes "www.maybank-login.top")) ≡ true)
    × (is_some (check true true anchors (codes "www.maybank.com")) ≡ false)
    × (is_some (check false true anchors (codes "rnaybank.com")) ≡ true)
    × (is_some (check true false anchors (codes "mayor.com")) ≡ false)
unfolding detector
detector_tests = (refl, refl, refl, refl)

levenshtein-Measures_example :
    Measures (codes "maybnk") (codes "maybank") 2 (levenshtein (codes "maybnk") (codes "maybank") 2)
levenshtein-Measures_example = levenshtein-Measures (codes "maybnk") (codes "maybank") 2

contains_at_boundary_iff_example :
    (contains_at_boundary (codes "maybank-login") (codes "maybank") ≡ true) ↔ (
      ((codes "maybank-login") ≢ (codes "maybank"))
      × IsToken (codes "maybank") (codes "maybank-login"))
contains_at_boundary_iff_example =
    contains_at_boundary_iff (codes "maybank-login") (codes "maybank")

check_iff_example :
    (is_some (check true false anchors (codes "www.maybnk.com")) ≡ true)
    ↔ IsFlagged (brand_labels anchors) (label_of (codes "www.maybnk.com"))
check_iff_example = check_iff true false anchors (codes "www.maybnk.com")
