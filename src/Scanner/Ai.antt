-- ===== src/Scanner/Ai.antt =====
-- ai_scanner/ai.py: what becomes of a model's text. `json.loads` and the two regular expressions
-- are parameters; the models themselves are not in the repository.
pub mod Parsed
pub mod Clients
use scamlens.Base.{
  ℕ, Bool, true, false, Text, List, [], ◌∷◌, ◌++◌, Option, none, some, take, min, same, lower,
  starts_with, strip, codes, Attempt, returned, raised, white, if◌then◌else◌,
}
use scamlens.Scanner.Heuristics.{Severity, safe, suspicious, scam}

pub record ScanVerdict : Type 0 where
  pub verdict : Severity
  pub risk_score : ℕ
  pub confidence : ℕ
  pub reasons : List Text
  pub mimics_brand : Option Text
  pub model : Text

abbrev pub severity_text : Severity → Text
severity_text safe = codes "safe"
severity_text suspicious = codes "suspicious"
severity_text scam = codes "scam"

unfoldable pub primary_reason : ScanVerdict → Text
primary_reason v = elim (v.reasons) [ [] ↦ severity_text v.verdict | ◌∷◌ r rs ↦ r ]

-- What `int(value)` makes of a JSON value: a number from 0 on, a negative one, or an exception.
pub data Score : Type 0 where
  number : ℕ → Score
  negative : ℕ → Score
  bad : Score

unfoldable pub clamp : Score → ℕ
clamp (number n) = min 100 n
clamp (negative n) = 0
clamp bad = 0

-- The fields of the model's JSON object that are read; an absent field is `none`. `verdict` is
-- its `str()`, and so are the reasons.
pub record ModelReply : Type 0 where
  pub verdict : Option Text
  pub risk_score : Option Score
  pub confidence : Option Score
  pub reasons : List Text
  pub mimics_brand : Option Text

abbrev pub read_label : Option Text → Severity
read_label none = suspicious
read_label (some t) =
    let v = lower t in
    if same v (codes "safe")
    then safe
    else if same v (codes "suspicious")
    then suspicious
    else if same v (codes "scam")
    then scam
    else suspicious

abbrev pub read_score : Option Score → ℕ
read_score none = clamp (number 0)
read_score (some s) = clamp s

-- `value or None`
abbrev pub or_none : Option Text → Option Text
or_none none = none
or_none (some []) = none
or_none (some (c ∷ t)) = some (c ∷ t)

unfoldable pub of_reply : ModelReply → Text → ScanVerdict
of_reply fields model = record {
  verdict = read_label fields.verdict;
  risk_score = read_score fields.risk_score;
  confidence = read_score fields.confidence;
  reasons = take 8 fields.reasons;
  mimics_brand = or_none fields.mimics_brand;
  model = model;
}

abbrev pub unparseable : Text → ScanVerdict
unparseable model = record {
  verdict = suspicious;
  risk_score = 50;
  confidence = 10;
  reasons = codes "model returned unparseable response" ∷ [];
  mimics_brand = none;
  model = model;
}

-- What `json.loads` and the reading of its fields make of a text: a JSONDecodeError; an object with
-- its fields; or another exception by its name, as of a value that is no object, reasons that are no
-- list, or the `int` of an infinite number.
pub data Loaded : Type 0 where
  undecodable : Loaded
  object : ModelReply → Loaded
  broken : Text → Loaded

-- `unfence` strips the fences, and `braces` is the text from the first brace to the last one.
module _ (loads : Text → Loaded) (unfence : Text → Text) (braces : Text → Option Text) where
  unfoldable pub salvage : Text → Text → Attempt ScanVerdict
  salvage cleaned model = elim (braces cleaned) [
    | none ↦ returned (unparseable model)
    | some body ↦ elim (loads body) [
      | undecodable ↦ raised (codes "JSONDecodeError")
      | object reply ↦ returned (of_reply reply model)
      | broken name ↦ raised name
    ]
  ]

  unfoldable pub clean : Text → Text
  clean text =
      let cleaned = strip white text in
      if starts_with (codes "```") cleaned then unfence cleaned else cleaned

  unfoldable pub parse_verdict : Text → Text → Attempt ScanVerdict
  parse_verdict text model = elim (loads (clean text)) [
    | undecodable ↦ salvage (clean text) model
    | object reply ↦ returned (of_reply reply model)
    | broken name ↦ raised name
  ]

-- `_build_user_text`
unfoldable pub build_user_text : Text → Text → Text → Text
build_user_text domain html heuristic_summary =
    let head = codes "Domain being analyzed: " ++ (domain ++ codes "\n\n") in
    let body = codes "HTML content (truncated):\n```html\n" ++ (html ++ codes "\n```") in
    elim heuristic_summary [
      | [] ↦ head ++ body
      | ◌∷◌ c s ↦
          head
          ++ (codes "Static-scan signals (from our pre-AI heuristics — do not ignore):\n"
              ++ ((c ∷ s) ++ (codes "\n\n" ++ body)))
    ]
