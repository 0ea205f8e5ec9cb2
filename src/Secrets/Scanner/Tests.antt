-- ===== src/Secrets/Scanner/Tests.antt =====
-- Runs of the scanner with a concrete matcher, and the instances of its theorems.
use contextforge_data_plane.Prelude.{
  ℕ, Str, str, ◌≡◌, refl, true, List, [], ◌∷◌, map, Option, some, arith, if◌then◌else◌, str_eq,
  str_eq_iff, str_eq_refl, ◌<◌, ◌≤◌, ◌↔◌, All, Bool-cases, inl, inr,
}
use contextforge_data_plane.Json.{Value, string, object, end, field}
use contextforge_data_plane.Secrets.Config.{SecretsDetectionConfig}
use contextforge_data_plane.Secrets.Scanner.{
  Match, Matcher, detect_and_redact, candidates, select, sort_candidates, finding_of,
  is_char_boundary, redact_selected, redact_from, slice, select_from, absorb, insert_sorted,
  compare_candidates, pattern_specificity, candidates_of, captured, preview_of, char_count,
  take_chars,
}
use contextforge_data_plane.Secrets.Patterns.{is_capture_pattern}
use contextforge_data_plane.Secrets.Config.{
  is_enabled, should_scan_field_path, should_traverse_field_path, path_is_denied,
  matches_path_or_descendant, path_starts_with, zip_all_eq,
}
use contextforge_data_plane.Prelude.{mem_str, str_cmp}
use contextforge_data_plane.Prelude.Map.{lookup}
use contextforge_data_plane.Secrets.Scanner.Sort.{Covers}
use contextforge_data_plane.Secrets.Scanner.Select.{select-sort-Covers}
use contextforge_data_plane.Secrets.Scanner.Redact.{render, begins, covered}
use contextforge_data_plane.Secrets.Scanner.Detect.{IsMatch, IsWellBehaved, detect_and_redact_lem}
use contextforge_data_plane.Secrets.Scanner.Tree.{ScanReport, scan_json_value, scan_value}
use contextforge_data_plane.Secrets.Scanner.Tree.Laws.{visit, scan_value-eq-visit}
use contextforge_data_plane.Secrets.Scanner.Tree.Reports.{
  IsFaithful, outline, detect_and_redact-IsHonest, scan_value-IsFaithful,
}

-- Two patterns that overlap: "hex_secret_32" matches the bytes 1 to 5 of "k=1234;", the other 2 to 6.
abbrev sample : Str
sample = str "k=1234;"

abbrev hits : Str → Str → List Match
hits name text =
    if str_eq text sample
    then (if str_eq name (str "hex_secret_32")
        then record { start = 1; end = 5 } ∷ []
        else if str_eq name (str "jwt_like")
        then record { start = 2; end = 6 } ∷ []
        else [])
    else []

abbrev matcher : Matcher
matcher = record { find_iter = hits; captures_iter = λ name text. [] }

abbrev config : SecretsDetectionConfig
config = record {
  enabled = (str "hex_secret_32", true) ∷ (str "jwt_like", true) ∷ [];
  redact = true;
  redaction_text = str "[X]";
  block_on_detection = true;
  min_findings_to_block = 1;
  field_allowlist = [];
  field_denylist = record { segments = str "b" ∷ [] } ∷ [];
}

abbrev names : List Str
names = str "jwt_like" ∷ str "hex_secret_32" ∷ []

-- The scanner at this matcher, with all that it calls open.
scan_sample : Value → Option ScanReport
unfolding scan_json_value scan_value detect_and_redact redact_selected redact_from slice
    is_char_boundary select select_from absorb sort_candidates insert_sorted compare_candidates
    pattern_specificity candidates candidates_of captured finding_of preview_of char_count
    take_chars is_enabled should_scan_field_path should_traverse_field_path path_is_denied
    matches_path_or_descendant path_starts_with zip_all_eq lookup is_capture_pattern mem_str str_eq
    str_cmp str
scan_sample v = scan_json_value matcher names v config

merged :
    scan_sample (string sample)
    ≡ some (record {
      count = 1;
      redacted = string (str "k[X];");
      findings = record { pii_type = str "jwt_like"; preview = str "1234" } ∷ [];
    })
unfolding scan_sample
merged = refl

denied :
    scan_sample (object (field (str "a") (string sample) (field (str "b") (string sample) end)))
    ≡ some (record {
      count = 1;
      redacted =
          object (field (str "a") (string (str "k[X];")) (field (str "b") (string sample) end));
      findings = record { pii_type = str "jwt_like"; preview = str "1234" } ∷ [];
    })
unfolding scan_sample
denied = refl

in_sample :
    (a b : ℕ)
    → a < b
    → b ≤ 7
    → is_char_boundary sample a ≡ true
    → is_char_boundary sample b ≡ true
    → IsMatch sample (record { start = a; end = b })
unfolding str
in_sample a b h k p q = record { nonempty = h; bounded = k; starts_char = p; ends_char = q }

hits-IsMatch : (name : Str) → All (IsMatch sample) (hits name sample)
unfolding is_char_boundary str
hits-IsMatch name = rw (str_eq_refl sample) (elim (Bool-cases (str_eq name (str "hex_secret_32"))) [
  | inl e ↦ rw e (in_sample 1 5 (omega arith) (omega arith) refl refl, tt)
  | inr e ↦ elim (Bool-cases (str_eq name (str "jwt_like"))) [
    | inl f ↦ rw (e, f) (in_sample 2 6 (omega arith) (omega arith) refl refl, tt)
    | inr f ↦ rw (e, f) tt
  ]
])

matcher-IsWellBehaved : IsWellBehaved matcher
matcher-IsWellBehaved = record {
  matches = λ name text. elim (Bool-cases (str_eq text sample)) [
    | inl e ↦ rw ((str_eq_iff text sample).0 e) (hits-IsMatch name)
    | inr e ↦ rw e tt
  ];
  groups = λ name text. tt;
}

select-sort-Covers_example :
    Covers 5 (select (sort_candidates (candidates matcher config sample names)))
    ↔ Covers 5 (candidates matcher config sample names)
select-sort-Covers_example = select-sort-Covers 5 (candidates matcher config sample names)

detect_and_redact_lem_example :
    (redacted : Str) × (detect_and_redact matcher names sample config
      ≡ some (
        map finding_of (select (sort_candidates (candidates matcher config sample names))),
        redacted,
      ))
    × (redacted ≡ (
        if config.redact
        then render config.redaction_text
            (begins (select (sort_candidates (candidates matcher config sample names))))
            (covered (candidates matcher config sample names))
            0
            sample
        else sample))
detect_and_redact_lem_example =
    detect_and_redact_lem matcher names sample config matcher-IsWellBehaved

abbrev nested : Value
nested = object (field (str "a") (string sample) (field (str "b") (string sample) end))

scan_value-eq-visit_example :
    scan_value (λ text. detect_and_redact matcher names text config) config nested [] true
    ≡ visit (λ text. detect_and_redact matcher names text config) config nested [] true
scan_value-eq-visit_example =
    scan_value-eq-visit (λ text. detect_and_redact matcher names text config) config nested [] true

abbrev nested_report : ScanReport
nested_report = record {
  count = 1;
  redacted = object (field (str "a") (string (str "k[X];")) (field (str "b") (string sample) end));
  findings = record { pii_type = str "jwt_like"; preview = str "1234" } ∷ [];
}

nested_scan :
    scan_value (λ text. detect_and_redact matcher names text config) config nested [] true
    ≡ some nested_report
unfolding scan_sample
nested_scan = refl

scan_value-IsFaithful_example : IsFaithful outline nested nested_report
scan_value-IsFaithful_example =
    scan_value-IsFaithful (λ text. detect_and_redact matcher names text config) config nested []
      true nested_report (detect_and_redact-IsHonest matcher names config) nested_scan
