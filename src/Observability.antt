-- ===== src/Observability.antt =====
-- Redaction of diagnostic text (`sanitize_sensitive_text` of app/common/observability.py). The
-- substitutions by Python's `re` are a parameter.
use vertical_ai_research_act.Prelude.{ℕ, ◌-◌, String, ◌<>◌, Option, none, some, ltb, if◌then◌else◌}
use vertical_ai_research_act.Text.{rstrip, char_count, first_chars}

module _ (redact : String → String) where
  unfoldable pub sanitize_sensitive_text : String → Option ℕ → String
  unfolding rstrip char_count first_chars
  sanitize_sensitive_text text none = redact text
  sanitize_sensitive_text text (some max_length) =
      if ltb max_length (char_count (redact text))
      then rstrip (first_chars (max_length - 3) (redact text)) <> "..."
      else redact text
