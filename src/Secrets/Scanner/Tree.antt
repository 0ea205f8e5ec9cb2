-- ===== src/Secrets/Scanner/Tree.antt =====
-- scanner.rs, `scan_json_value`: the walk over a JSON value with its field filters. `none` is a
-- panic of the text scan.
pub mod Laws
pub mod Reports
use contextforge_data_plane.Prelude.Maybe.{◌>>=◌}
use contextforge_data_plane.Prelude.{
  ℕ, ◌+◌, Str, Bool, true, false, List, [], ◌∷◌, ◌++◌, Option, none, some, if◌then◌else◌, length,
}
use contextforge_data_plane.Json.{
  Value, null, bool, number, string, array, object, Items, nil, cons, Fields, end, field,
}
use contextforge_data_plane.Secrets.Config.{
  SecretsDetectionConfig, should_scan_field_path, should_traverse_field_path,
}
use contextforge_data_plane.Secrets.Scanner.{Finding, Matcher, detect_and_redact}

-- The value that was scanned stands in `redacted`, redacted.
pub record Report {ℓ} (A : Type ℓ) : Type ℓ where
  pub count : ℕ
  pub redacted : A
  pub findings : List Finding

abbrev pub ScanReport : Type 0
ScanReport = Report Value

abbrev pub clean {ℓ} : {A : Type ℓ} → A → Report A
clean v = record { count = 0; redacted = v; findings = [] }

-- The totals of a loop over children, and what is built of them.
abbrev pub with_redacted {ℓ κ} : {A : Type ℓ} {B : Type κ} → Report A → B → Report B
with_redacted r b = record { count = r.count; redacted = b; findings = r.findings }

abbrev pub both {ℓ κ μ} :
    {A : Type ℓ} {B : Type κ} {C : Type μ} → Report A → Report B → (A → B → C) → Report C
both first rest f = record {
  count = first.count + rest.count;
  redacted = f first.redacted rest.redacted;
  findings = first.findings ++ rest.findings;
}

abbrev pub text_report : List Finding × Str → ScanReport
text_report (findings, redacted) = record {
  count = length findings;
  redacted = string redacted;
  findings = findings;
}

module _ (detect : Str → Option (List Finding × Str)) (config : SecretsDetectionConfig) where
  unfoldable mutual
    -- scan_json_value_inner
    pub scan_value : Value → List Str → Bool → Option ScanReport
    scan_value (string text) path root =
        if should_scan_field_path config path root
        then (detect text >>= λ found. some (text_report found))
        else some (clean (string text))
    scan_value (array vs) path root =
        if should_traverse_field_path config path
        then (scan_items vs path >>= λ r. some (with_redacted r (array r.redacted)))
        else some (clean (array vs))
    scan_value (object fs) path root =
        if should_traverse_field_path config path
        then (scan_fields fs path >>= λ r. some (with_redacted r (object r.redacted)))
        else some (clean (object fs))
    scan_value null path root = some (clean null)
    scan_value (bool b) path root = some (clean (bool b))
    scan_value (number n) path root = some (clean (number n))

    pub scan_items : Items → List Str → Option (Report Items)
    scan_items nil path = some (clean nil)
    scan_items (cons v vs) path = do
      child ← scan_value v path false
      rest ← scan_items vs path
      some (both child rest cons)

    pub scan_fields : Fields → List Str → Option (Report Fields)
    scan_fields end path = some (clean end)
    scan_fields (field k v fs) path = do
      child ← scan_value v (path ++ (k ∷ [])) false
      rest ← scan_fields fs path
      some (both child rest (field k))

unfoldable pub scan_json_value :
    Matcher → List Str → Value → SecretsDetectionConfig → Option ScanReport
scan_json_value matcher patterns value config =
    scan_value (λ text. detect_and_redact matcher patterns text config) config value [] true

unfoldable pub scan_direct_text :
    Matcher → List Str → Str → SecretsDetectionConfig → Option ScanReport
scan_direct_text matcher patterns text config =
    detect_and_redact matcher patterns text config >>= λ found. some (text_report found)
