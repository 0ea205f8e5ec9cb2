-- ===== src/Secrets/Config.antt =====
-- config.rs: the scanner's configuration, dotted field paths and the field filters. Decoding a JSON
-- value into the raw record is code that `serde` derives, and is the parameter `from_json`.
pub mod Paths
pub mod Filters
mod Tests
use contextforge_data_plane.Prelude.{
  ℕ, Str, str, str_eq, Bool, true, false, not, ◌&&◌, ◌||◌, List, [], ◌∷◌, map, Option, none, some,
  if◌then◌else◌, leb, length, any, all, split, is_blank, starts_with_char, ends_with_char, mem_str,
  Result, ok, err, ◌>>=◌, ok_or, collect,
}
use contextforge_data_plane.Prelude.Map.{Map, lookup, extend}
use contextforge_data_plane.Json.{Value, null, as_str, as_array}
use contextforge_data_plane.Secrets.Patterns.{pattern_names}

pub record FieldPath : Type 0 where
  pub segments : List Str

-- The source keeps the message; here the case and the values that it is formatted from.
pub data ConfigError : Type 0 where
  invalid_config : ConfigError
  blank_entry : (field_name : Str) → ConfigError
  dot_at_end : (field_name path : Str) → ConfigError
  blank_segment : (field_name path : Str) → ConfigError
  not_a_list_of_strings : (field_name : Str) → ConfigError

pub record SecretsDetectionConfig : Type 0 where
  pub enabled : Map Bool
  pub redact : Bool
  pub redaction_text : Str
  pub block_on_detection : Bool
  pub min_findings_to_block : ℕ
  pub field_allowlist : List FieldPath
  pub field_denylist : List FieldPath

pub record RawSecretsDetectionConfig : Type 0 where
  pub enabled : Option (Map Bool)
  pub redact : Option Bool
  pub redaction_text : Option Str
  pub block_on_detection : Option Bool
  pub min_findings_to_block : Option ℕ
  pub field_allowlist : Option Value
  pub field_denylist : Option Value

pub parse : Str → Str → Result ConfigError FieldPath
parse path field_name =
    if is_blank path
    then err (blank_entry field_name)
    else if starts_with_char b'.' path || ends_with_char b'.' path
    then err (dot_at_end field_name path)
    else if any is_blank (split b'.' path)
    then err (blank_segment field_name path)
    else ok (record { segments = split b'.' path })

-- `path.iter().zip(prefix.iter()).all(|(left, right)| left == right)`
unfoldable pub zip_all_eq : List Str → List Str → Bool
zip_all_eq (a ∷ s) (b ∷ t) = str_eq a b && zip_all_eq s t
zip_all_eq [] _ = true
zip_all_eq (_ ∷ _) [] = true

unfoldable pub path_starts_with : List Str → List Str → Bool
path_starts_with path prefix = leb (length prefix) (length path) && zip_all_eq path prefix

unfoldable pub matches_path_or_descendant : FieldPath → List Str → Bool
matches_path_or_descendant self path = path_starts_with path self.segments

pub can_be_reached_from : FieldPath → List Str → Bool
can_be_reached_from self path = path_starts_with self.segments path

abbrev is_empty {ℓ} : {A : Type ℓ} → List A → Bool
is_empty [] = true
is_empty (_ ∷ _) = false

unfoldable pub path_is_denied : SecretsDetectionConfig → List Str → Bool
path_is_denied self path = any (λ deny. matches_path_or_descendant deny path) self.field_denylist

unfoldable pub should_scan_field_path : SecretsDetectionConfig → List Str → Bool → Bool
should_scan_field_path self path direct_scalar_root =
    if direct_scalar_root && is_empty path
    then true
    else if path_is_denied self path
    then false
    else is_empty self.field_allowlist
      || any (λ allow. matches_path_or_descendant allow path) self.field_allowlist

unfoldable pub should_traverse_field_path : SecretsDetectionConfig → List Str → Bool
should_traverse_field_path self path =
    if is_empty path
    then true
    else if path_is_denied self path
    then false
    else is_empty self.field_allowlist
      || any (λ allow. matches_path_or_descendant allow path || can_be_reached_from allow path)
          self.field_allowlist

abbrev broad_patterns : List Str
broad_patterns =
    str "generic_api_key_assignment" ∷ str "jwt_like" ∷ str "hex_secret_32" ∷ str "base64_24" ∷ []

pub default_enabled_map : Map Bool
default_enabled_map = map (λ name. (name, not (mem_str name broad_patterns))) pattern_names

merge_enabled_map : Map Bool → Map Bool
merge_enabled_map overrides = extend default_enabled_map overrides

unfoldable pub is_enabled : SecretsDetectionConfig → Str → Bool
is_enabled self name = elim (lookup name self.enabled) [ none ↦ false | some b ↦ b ]

pub parse_field_paths : Option Value → Str → Result ConfigError (List FieldPath)
parse_field_paths none field_name = ok []
parse_field_paths (some value) field_name = do
  entries ← ok_or (not_a_list_of_strings field_name) (as_array value)
  collect
      (λ entry.
        ok_or (not_a_list_of_strings field_name) (as_str entry) >>= λ path. parse path field_name)
      entries

abbrev raw_default : RawSecretsDetectionConfig
raw_default = record {
  enabled = none;
  redact = none;
  redaction_text = none;
  block_on_detection = none;
  min_findings_to_block = none;
  field_allowlist = none;
  field_denylist = none;
}

abbrev unwrap_or {ℓ} : {A : Type ℓ} → Option A → A → A
unwrap_or none d = d
unwrap_or (some a) d = a

module _ (from_json : Value → Option RawSecretsDetectionConfig) where
  read_raw : Option Value → Result ConfigError RawSecretsDetectionConfig
  read_raw none = ok raw_default
  read_raw (some null) = ok raw_default
  read_raw (some value) = ok_or invalid_config (from_json value)

  enabled_map : Option (Map Bool) → Map Bool
  enabled_map none = default_enabled_map
  enabled_map (some overrides) = merge_enabled_map overrides

  pub from_value : Option Value → Result ConfigError SecretsDetectionConfig
  from_value value = do
    raw ← read_raw value
    allow ← parse_field_paths raw.field_allowlist (str "field_allowlist")
    deny ← parse_field_paths raw.field_denylist (str "field_denylist")
    ok (record {
      enabled = enabled_map raw.enabled;
      redact = unwrap_or raw.redact false;
      redaction_text = unwrap_or raw.redaction_text (str "***REDACTED***");
      block_on_detection = unwrap_or raw.block_on_detection true;
      min_findings_to_block = unwrap_or raw.min_findings_to_block 1;
      field_allowlist = allow;
      field_denylist = deny;
    })
