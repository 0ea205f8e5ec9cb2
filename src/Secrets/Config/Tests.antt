-- ===== src/Secrets/Config/Tests.antt =====
-- Runs of the configuration code, and the instances of its theorems.
use contextforge_data_plane.Prelude.{str, ◌≡◌, refl, true, false, [], ◌∷◌, split, ok, err}
use contextforge_data_plane.Secrets.Config.{
  FieldPath, SecretsDetectionConfig, parse, blank_segment, path_starts_with, should_scan_field_path,
  should_traverse_field_path, default_enabled_map, is_enabled,
}
use contextforge_data_plane.Secrets.Config.Paths.{IsDotted, parse_iff}
use contextforge_data_plane.Secrets.Config.Filters.{should_traverse_of_scan}
use contextforge_data_plane.Prelude.{is_blank, mem_str, str_eq, white_1, white_2, white_3}
use contextforge_data_plane.Prelude.Map.{lookup}
use contextforge_data_plane.Secrets.Config.{matches_path_or_descendant, path_is_denied, zip_all_eq}

abbrev token_path : FieldPath
token_path = record { segments = str "users" ∷ str "token" ∷ [] }

abbrev token_only : SecretsDetectionConfig
token_only = record {
  enabled = default_enabled_map;
  redact = true;
  redaction_text = str "[X]";
  block_on_detection = true;
  min_findings_to_block = 1;
  field_allowlist = token_path ∷ [];
  field_denylist = [];
}

parse_token : parse (str "users.token") (str "field_allowlist") ≡ ok token_path
unfolding parse str split is_blank white_1 white_2 white_3
parse_token = refl

parse_blank :
    parse (str "layer1. .layer3") (str "d") ≡ err (blank_segment (str "d") (str "layer1. .layer3"))
unfolding parse str split is_blank white_1 white_2 white_3
parse_blank = refl

broad_off : is_enabled token_only (str "jwt_like") ≡ false
unfolding is_enabled default_enabled_map str lookup str_eq mem_str
broad_off = refl

parse_iff_example : IsDotted token_path.segments (str "users.token")
parse_iff_example = (parse_iff (str "users.token") (str "field_allowlist") token_path).0 parse_token

scan_token : should_scan_field_path token_only (str "users" ∷ str "token" ∷ []) false ≡ true
unfolding should_scan_field_path str path_is_denied matches_path_or_descendant path_starts_with
    zip_all_eq str_eq
scan_token = refl

should_traverse_of_scan_example : should_traverse_field_path token_only (str "users" ∷ []) ≡ true
should_traverse_of_scan_example =
    should_traverse_of_scan token_only (str "users" ∷ []) (str "token" ∷ []) scan_token
