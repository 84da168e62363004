-- ===== src/Scanner/Heuristics/Floor.antt =====
-- ai_scanner/heuristics.py: the floor that the static scan sets.
use scamlens.Base.{Bool, true, false, ◌&&◌, ◌||◌, ◌≡◌, ◌↔◌, ◌⊎◌, ◌<◌, arith, Text, [], leb}
use scamlens.Scanner.Heuristics.{
  HeuristicReport, safe, suspicious, scam, any_of, extra_flags, severity_floor, password_reasons,
}

-- The page asks for a seed phrase, or for a card under a brand that is not its own or a cheap TLD.
abbrev pub is_scam_page : HeuristicReport → Bool
is_scam_page r =
    r.has_seed_phrase_ask || (r.has_card_field && (any_of r.cred_brand_terms || r.free_tld))

-- A password field with any other sign, five obfuscation markers, or a brand on a cheap TLD.
abbrev pub is_odd_page : HeuristicReport → Bool
is_odd_page r =
    (r.has_password_field
      && (any_of r.cred_brand_terms
          || r.free_tld
          || leb 3 r.obfuscated_script_count
          || r.has_otp_field
          || r.has_card_field))
    || leb 5 r.obfuscated_script_count
    || (any_of r.cred_brand_terms && r.free_tld)

-- For every report and domain: the floor is scam exactly for a page that asks for a seed phrase,
-- or has a card field and mentions a foreign brand or stands on a high-abuse TLD; otherwise it is
-- suspicious exactly for a page with a password field and a further sign, with five obfuscation
-- markers or more, or with a foreign brand on a high-abuse TLD; and safe for all others.
severity_floor_iff :
    (r : HeuristicReport) (domain : Text)
    → ((severity_floor r domain).0 ≡ scam ↔ is_scam_page r ≡ true)
      × ((severity_floor r domain).0 ≡ suspicious
          ↔ ((is_scam_page r ≡ false) × (is_odd_page r ≡ true)))
      × ((severity_floor r domain).0 ≡ safe ↔ ((is_scam_page r ≡ false) × (is_odd_page r ≡ false)))
unfolding severity_floor extra_flags
severity_floor_iff r domain = ground arith

-- The floor comes without a reason exactly when it is safe, or when it is suspicious because of a
-- password field and a card field alone: no foreign brand, no high-abuse TLD, less than three
-- obfuscation markers, no OTP field and no seed phrase.
severity_floor_unexplained :
    (r : HeuristicReport) (domain : Text)
    → ((severity_floor r domain).1 ≡ []) ↔ (
        ((severity_floor r domain).0 ≡ safe)
        ⊎ ((r.has_password_field ≡ true)
            × (r.has_card_field ≡ true)
            × (any_of r.cred_brand_terms ≡ false)
            × (r.free_tld ≡ false)
            × (r.obfuscated_script_count < 3)
            × (r.has_otp_field ≡ false)
            × (r.has_seed_phrase_ask ≡ false)))
unfolding severity_floor extra_flags password_reasons
severity_floor_unexplained r domain = ground arith
