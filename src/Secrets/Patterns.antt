-- ===== src/Secrets/Patterns.antt =====
-- patterns.rs: the names of the secret patterns, and which of them report a capture group. The
-- expressions themselves are run by the `regex` crate, which is a parameter (Secrets.Scanner).
use contextforge_data_plane.Prelude.{Str, str, Bool, List, [], ◌∷◌, mem_str}

-- The keys of `PATTERNS`.
abbrev pub pattern_names : List Str
pattern_names =
    str "aws_access_key_id"
    ∷ str "aws_secret_access_key"
    ∷ str "google_api_key"
    ∷ str "github_token"
    ∷ str "stripe_secret_key"
    ∷ str "generic_api_key_assignment"
    ∷ str "slack_token"
    ∷ str "private_key_block"
    ∷ str "jwt_like"
    ∷ str "hex_secret_32"
    ∷ str "base64_24"
    ∷ []

abbrev capture_patterns : List Str
capture_patterns = str "base64_24" ∷ []

unfoldable pub is_capture_pattern : Str → Bool
is_capture_pattern name = mem_str name capture_patterns
