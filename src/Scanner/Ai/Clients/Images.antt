-- ===== src/Scanner/Ai/Clients/Images.antt =====
-- ai_scanner/ai.py: the type under which a client sends an image.
use scamlens.Base.{true, ◌≡◌, ◌≢◌, Text, starts_with}
use scamlens.Scanner.Ai.Clients.{anthropic, call_of, jpeg_magic, sniff_image_mime}

-- A screenshot that is a JPEG goes to Anthropic under another type than the one that its bytes show.
anthropic-ne-sniff_image_mime :
    (system_prompt key model domain html screenshot_png summary : Text)
    → starts_with jpeg_magic screenshot_png ≡ true
    → (call_of system_prompt (anthropic key model) domain html screenshot_png summary).media_type
      ≢ sniff_image_mime screenshot_png
unfolding call_of sniff_image_mime
anthropic-ne-sniff_image_mime system_prompt key model domain html screenshot_png summary h e =
    cc (rw h at e)
