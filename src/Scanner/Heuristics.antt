-- ===== src/Scanner/Heuristics.antt =====
-- ai_scanner/heuristics.py. The regular expressions are parameters: `Patterns` says what each of
-- them finds in a page.
pub mod Floor
pub mod Pages
use mathlib.Core.List.{reverse}
use scamlens.Base.{
  ℕ, Bool, true, false, not, ◌&&◌, ◌||◌, Text, List, [], ◌∷◌, ◌++◌, map, Option, none, some, length,
  take, ltb, leb, same, elem, has_char, contains, lower, split, join, strip, codes, decimal, white,
  if◌then◌else◌,
}

pub record Patterns : Type 0 where
  pub password_field : Text → Bool
  pub card_field : Text → Bool
  pub otp_field : Text → Bool
  pub seed_phrase : Text → Bool
  pub obfuscated_scripts : Text → ℕ

pub record HeuristicReport : Type 0 where
  pub has_password_field : Bool
  pub has_card_field : Bool
  pub has_otp_field : Bool
  pub has_seed_phrase_ask : Bool
  pub obfuscated_script_count : ℕ
  pub cred_brand_terms : List Text
  pub suspicious_keywords : List Text
  pub free_tld : Bool

-- The values of `ScanVerdict.verdict`.
pub data Severity : Type 0 where
  safe suspicious scam : Severity

abbrev pub suspicious_tlds : List Text
suspicious_tlds =
    codes "tk"
    ∷ codes "ml"
    ∷ codes "ga"
    ∷ codes "cf"
    ∷ codes "gq"
    ∷ codes "xyz"
    ∷ codes "top"
    ∷ codes "click"
    ∷ codes "loan"
    ∷ codes "work"
    ∷ codes "rest"
    ∷ codes "live"
    ∷ codes "support"
    ∷ codes "info-secure"
    ∷ codes "id"
    ∷ []

abbrev pub brand_keywords : List Text
brand_keywords =
    codes "paypal"
    ∷ codes "facebook"
    ∷ codes "instagram"
    ∷ codes "whatsapp"
    ∷ codes "tiktok"
    ∷ codes "linkedin"
    ∷ codes "google"
    ∷ codes "gmail"
    ∷ codes "apple"
    ∷ codes "icloud"
    ∷ codes "microsoft"
    ∷ codes "outlook"
    ∷ codes "office365"
    ∷ codes "amazon"
    ∷ codes "netflix"
    ∷ codes "spotify"
    ∷ codes "discord"
    ∷ codes "maybank"
    ∷ codes "cimb"
    ∷ codes "publicbank"
    ∷ codes "rhb"
    ∷ codes "ambank"
    ∷ codes "hongleong"
    ∷ codes "bsn"
    ∷ codes "bank"
    ∷ codes "bnm"
    ∷ codes "dudm"
    ∷ codes "binance"
    ∷ codes "coinbase"
    ∷ codes "metamask"
    ∷ codes "trustwallet"
    ∷ codes "ledger"
    ∷ codes "trezor"
    ∷ codes "shopee"
    ∷ codes "lazada"
    ∷ codes "grab"
    ∷ codes "foodpanda"
    ∷ []

abbrev pub urgency_phrases : List Text
urgency_phrases =
    codes "your account will be locked"
    ∷ codes "verify within"
    ∷ codes "limited time"
    ∷ codes "act now"
    ∷ codes "last chance"
    ∷ codes "expire"
    ∷ codes "suspend"
    ∷ codes "unusual activity"
    ∷ codes "secure your account"
    ∷ codes "claim now"
    ∷ codes "congratulations you have won"
    ∷ codes "you are eligible"
    ∷ []

-- `[p for p in phrases if p in text]`
unfoldable pub mentioned : Text → List Text → List Text
mentioned text [] = []
mentioned text (p ∷ ps) = let rest = mentioned text ps in if contains p text then p ∷ rest else rest

unfoldable pub without : Text → List Text → List Text
without label [] = []
without label (b ∷ bs) = let rest = without label bs in if same b label then rest else b ∷ rest

abbrev pub last_part : List Text → Text
last_part [] = []
last_part (p ∷ ps) = p

abbrev pub last_but_one : List Text → Text
last_but_one [] = []
last_but_one (p ∷ []) = []
last_but_one (p ∷ q ∷ ps) = q

-- `domain.rsplit(".", 1)[-1]`
unfoldable pub tld_of : Text → Text
tld_of domain = last_part (reverse (split b'.' domain))

module _ (patterns : Patterns) where
  unfoldable pub analyze : Text → Text → HeuristicReport
  analyze html domain =
      let lowered = lower html in
      let label =
        if has_char b'.' domain
        then last_but_one (reverse (split b'.' (lower domain)))
        else lower domain in
      let tld = if has_char b'.' domain then lower (tld_of domain) else [] in
      record {
        has_password_field = patterns.password_field html;
        has_card_field = patterns.card_field html;
        has_otp_field = patterns.otp_field html;
        has_seed_phrase_ask = patterns.seed_phrase html;
        obfuscated_script_count = patterns.obfuscated_scripts html;
        cred_brand_terms = take 8 (without label (mentioned lowered brand_keywords));
        suspicious_keywords = take 6 (mentioned lowered urgency_phrases);
        free_tld = elem tld suspicious_tlds;
      }

abbrev pub any_of : List Text → Bool
any_of [] = false
any_of (t ∷ ts) = true

abbrev pub line : Bool → Text → List Text
line b t = if b then t ∷ [] else []

unfoldable pub prompt_lines : HeuristicReport → List Text
prompt_lines report =
    line report.has_password_field (codes "- HTML contains <input type=password>")
    ++ (line report.has_card_field
          (codes "- HTML contains a credit-card field (card number / CVV / expiry)")
        ++ (line report.has_otp_field (codes "- HTML contains an OTP / 2FA / TAC field")
            ++ (line report.has_seed_phrase_ask
                  (codes "- Page asks for a wallet seed / recovery phrase")
                ++ (line (leb 3 report.obfuscated_script_count) (
                      codes "- "
                      ++ (decimal report.obfuscated_script_count
                          ++ codes
                              " obfuscated-JS markers (eval/atob/fromCharCode/escape sequences)"))
                    ++ (line (any_of report.cred_brand_terms) (
                          codes "- Brand names mentioned in copy that the domain does NOT own: "
                          ++ join (codes ", ") report.cred_brand_terms)
                        ++ (line (any_of report.suspicious_keywords) (
                              codes "- Urgency / scam phrases found: "
                              ++ join (codes "; ") (
                                  map (λ p. codes "\"" ++ (p ++ codes "\""))
                                    report.suspicious_keywords))
                            ++ line report.free_tld
                                (codes "- Domain uses a high-abuse TLD (free / low-cost)")))))))

unfoldable pub render_for_prompt : HeuristicReport → Text
render_for_prompt report =
    if any_of (prompt_lines report)
    then join (codes "\n") (prompt_lines report)
    else codes "- No high-risk tokens detected by static scan."

unfoldable pub extra_flags : HeuristicReport → Bool
extra_flags report =
    any_of report.cred_brand_terms
    || report.free_tld
    || leb 3 report.obfuscated_script_count
    || report.has_otp_field
    || report.has_card_field
    || report.has_seed_phrase_ask

unfoldable pub password_reasons : HeuristicReport → List Text
password_reasons report =
    if any_of report.cred_brand_terms
    then (codes "Password field plus brand impersonation: domain mentions "
        ++ (join (codes ", ") report.cred_brand_terms
            ++ codes " in copy without owning the trademark"))
      ∷ []
    else if report.free_tld
    then codes "Password field on a high-abuse TLD" ∷ []
    else if leb 3 report.obfuscated_script_count
    then (codes "Password field plus heavy script obfuscation ("
        ++ (decimal report.obfuscated_script_count ++ codes " markers)"))
      ∷ []
    else if report.has_otp_field
    then codes "Password field plus OTP / 2FA capture" ∷ []
    else []

unfoldable pub card_reason : HeuristicReport → Text
card_reason report =
    if any_of report.cred_brand_terms
    then codes "Credit-card form on a domain that doesn't own the brand it mentions"
    else codes "Credit-card form on a high-abuse TLD"

unfoldable pub obfuscation_reason : HeuristicReport → Text
obfuscation_reason report =
    codes "Heavy script obfuscation ("
    ++ (decimal report.obfuscated_script_count ++ codes " markers)")

unfoldable pub free_tld_reason : HeuristicReport → Text → Text
free_tld_reason report domain =
    codes "Free TLD '."
    ++ (tld_of domain
        ++ (codes "' plus brand mentions: " ++ join (codes ", ") report.cred_brand_terms))

unfoldable pub severity_floor : HeuristicReport → Text → Severity × List Text
severity_floor report domain =
    if report.has_seed_phrase_ask
    then (scam, codes "Page requests a wallet seed / recovery phrase" ∷ [])
    else if report.has_card_field && (any_of report.cred_brand_terms || report.free_tld)
    then (scam, card_reason report ∷ [])
    else if report.has_password_field && extra_flags report
    then (suspicious, password_reasons report)
    else if leb 5 report.obfuscated_script_count
    then (suspicious, obfuscation_reason report ∷ [])
    else if any_of report.cred_brand_terms && report.free_tld
    then (suspicious, free_tld_reason report domain ∷ [])
    else (safe, [])

abbrev pub parking_keywords : List Text
parking_keywords =
    codes "domain is for sale"
    ∷ codes "buy this domain"
    ∷ codes "this domain is parked"
    ∷ codes "default web page"
    ∷ codes "404 not found"
    ∷ codes "site temporarily unavailable"
    ∷ codes "page not found"
    ∷ codes "this page isn't working"
    ∷ codes "sorry, the page you requested could not be found"
    ∷ []

-- `visible_text` strips scripts and tags by regular expressions and decodes entities.
module _ (visible_text : Text → Text) where
  unfoldable pub classify_empty_page : Text → ℕ → Option Text
  classify_empty_page html status =
      let text = visible_text html in
      if leb 400 status
      then some (codes "Server returned HTTP " ++ decimal status)
      else if ltb (length html) 200
      then some (codes "Page returned no HTML body")
      else if ltb (length text) 80
      then some (codes "Page is empty (no visible text)")
      else if ltb (length text) 600 && any_of (mentioned (lower text) parking_keywords)
      then some (codes "Domain parking / placeholder page")
      else none
