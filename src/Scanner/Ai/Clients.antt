-- ===== src/Scanner/Ai/Clients.antt =====
-- ai_scanner/ai.py: the three clients and `build_client`. A request to a service is a parameter: what
-- the client sends and the number of the attempt give the text that comes back, or an exception.
pub mod Images
use scamlens.Base.{
  ℕ, zero, suc, Bool, true, false, ◌&&◌, Text, List, [], ◌∷◌, ◌++◌, Option, none, some, take, drop,
  same, starts_with, codes, if◌then◌else◌,
}
use scamlens.Scanner.Ai.{ScanVerdict, Loaded, parse_verdict, build_user_text}
use scamlens.Base.{Attempt, returned, raised}

-- The keys, the models and the base address of Config.
pub record AiConfig : Type 0 where
  pub anthropic_api_key : Text
  pub anthropic_model : Text
  pub gemini_api_key : Text
  pub gemini_model : Text
  pub qwen_api_key : Text
  pub qwen_model : Text
  pub qwen_base_url : Text

pub data Client : Type 0 where
  anthropic gemini : Text → Text → Client
  qwen : Text → Text → Text → Client

abbrev pub is_blank : Text → Bool
is_blank [] = true
is_blank (c ∷ t) = false

-- `none` is the RuntimeError of a missing key or an unknown provider.
unfoldable pub build_client : Text → AiConfig → Option Client
build_client provider cfg =
    if same provider (codes "anthropic")
    then (if is_blank cfg.anthropic_api_key
        then none
        else some (anthropic cfg.anthropic_api_key cfg.anthropic_model))
    else if same provider (codes "gemini")
    then (if is_blank cfg.gemini_api_key
        then none
        else some (gemini cfg.gemini_api_key cfg.gemini_model))
    else if same provider (codes "qwen")
    then (if is_blank cfg.qwen_api_key
        then none
        else some (qwen cfg.qwen_api_key cfg.qwen_model cfg.qwen_base_url))
    else none

abbrev pub jpeg_magic : Text
jpeg_magic = 255 ∷ 216 ∷ 255 ∷ []

abbrev pub png_magic : Text
png_magic = 137 ∷ codes "PNG\r\n"

-- `_sniff_image_mime`
unfoldable pub sniff_image_mime : Text → Text
sniff_image_mime data_ =
    if starts_with jpeg_magic data_
    then codes "image/jpeg"
    else if starts_with png_magic data_
    then codes "image/png"
    else if starts_with (codes "GIF8") data_
    then codes "image/gif"
    else if same (take 4 data_) (codes "RIFF") && same (take 4 (drop 8 data_)) (codes "WEBP")
    then codes "image/webp"
    else codes "image/png"

-- What is sent: the system prompt where it goes by itself, the type and the bytes of the image, and
-- the text.
pub record Call : Type 0 where
  pub system : Option Text
  pub media_type : Text
  pub image : Text
  pub text : Text

abbrev pub model_of : Client → Text
model_of (anthropic key model) = model
model_of (gemini key model) = model
model_of (qwen key model url) = model

module _ (system_prompt : Text) where
  unfoldable pub call_of : Client → Text → Text → Text → Text → Call
  unfolding sniff_image_mime
  call_of (anthropic key model) domain html screenshot_png summary = record {
    system = some system_prompt;
    media_type = codes "image/png";
    image = screenshot_png;
    text = build_user_text domain html summary;
  }
  call_of (gemini key model) domain html screenshot_png summary = record {
    system = some system_prompt;
    media_type = codes "image/png";
    image = screenshot_png;
    text = build_user_text domain html summary;
  }
  call_of (qwen key model url) domain html screenshot_png summary = record {
    system = none;
    media_type = sniff_image_mime screenshot_png;
    image = screenshot_png;
    text = system_prompt ++ (codes "\n\n" ++ build_user_text domain (take 30000 html) summary);
  }

module _ (loads : Text → Loaded) (unfence : Text → Text) (braces : Text → Option Text)
    (system_prompt : Text) (service : Client → Call → ℕ → Attempt Text) where
  abbrev pub parsed : Client → Attempt Text → Attempt ScanVerdict
  parsed client (raised name) = raised name
  parsed client (returned text) = parse_verdict loads unfence braces text (model_of client)

  -- One attempt: the request, and the reading of its text.
  unfoldable pub attempt_scan : Client → Text → Text → Text → Text → ℕ → Attempt ScanVerdict
  attempt_scan client domain html screenshot_png summary i =
      parsed client
        (service client (call_of system_prompt client domain html screenshot_png summary) i)

  -- `scan` of a client. `retrying n attempt` is the loop over `AsyncRetrying` that stops after `n`
  -- attempts, numbered from 0; Gemini asks once.
  unfoldable pub client_scan :
      (ℕ → (ℕ → Attempt ScanVerdict) → Attempt ScanVerdict)
      → Client
      → Text
      → Text
      → Text
      → Text
      → Attempt ScanVerdict
  unfolding attempt_scan
  client_scan retrying (gemini key model) domain html screenshot_png summary =
      attempt_scan (gemini key model) domain html screenshot_png summary 0
  client_scan retrying (anthropic key model) domain html screenshot_png summary =
      retrying 3 (attempt_scan (anthropic key model) domain html screenshot_png summary)
  client_scan retrying (qwen key model url) domain html screenshot_png summary =
      retrying 3 (attempt_scan (qwen key model url) domain html screenshot_png summary)
