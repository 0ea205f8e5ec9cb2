-- ===== src/Secrets/Plugin.antt =====
-- lib.rs: the plugin's handler. A result of `none` is a panic (`unreachable!` or a slice). What the
-- handler returns is kept as the `PluginResult` call that makes it, with the fields set on it.
pub mod Verdict
mod Tests
use contextforge_data_plane.Prelude.Maybe.{◌>>=◌}
use contextforge_data_plane.Prelude.{
  ℕ, zero, suc, ◌+◌, Str, str, str_eq, str_cmp, Bool, true, false, ◌&&◌, ◌||◌, List, [], ◌∷◌, ◌++◌,
  map, Option, none, some, if◌then◌else◌, leb, ltb, ◌==◌, take,
}
use Prim.Native.Nat.{Ordering}
use contextforge_data_plane.Prelude.Map.{Map}
use contextforge_data_plane.Json.{Value, string, object, of_entries, entries}
use contextforge_data_plane.Cmf.{
  ContentPart, prompt_request, tool_call, tool_result, resource, Resource, MessagePayload,
}
use contextforge_data_plane.Secrets.Config.{SecretsDetectionConfig}
use contextforge_data_plane.Secrets.Scanner.{Finding, Matcher}
use contextforge_data_plane.Secrets.Scanner.Tree.{ScanReport, scan_json_value, scan_direct_text}

pub data Stage : Type 0 where
  prompt_pre_fetch tool_pre_invoke tool_post_invoke resource_post_fetch : Stage

abbrev violation_code : Str
violation_code = str "SECRETS_DETECTED"

abbrev pub max_secret_types : ℕ
max_secret_types = 32

pub data DetectionOutcome : Type 0 where
  masked blocked neither : DetectionOutcome

pub record PartScanReport : Type 0 where
  pub count : ℕ
  pub findings : List Finding
  pub redacted : Bool

pub record Totals : Type 0 where
  pub count : ℕ
  pub findings : List Finding
  pub redacted_any : Bool

pub record PayloadScan : Type 0 where
  pub count : ℕ
  pub findings : List Finding
  pub modified_payload : Option MessagePayload

-- `PluginViolation`, with the details that `build_violation` puts in.
pub record Violation : Type 0 where
  pub code : Str
  pub description : Str
  pub count : ℕ
  pub examples : List Str

pub record Metadata : Type 0 where
  pub total_detections : ℕ
  pub total_masked : ℕ
  pub total_blocked : ℕ
  pub secret_types : List Str

pub data PluginResult : Type 0 where
  deny : Violation → MessagePayload → Option Metadata → PluginResult
  modify_payload : MessagePayload → Option Metadata → PluginResult
  allow : Option Metadata → PluginResult

block_description : Stage → Str
block_description prompt_pre_fetch = str "Potential secrets detected in prompt arguments"
block_description tool_pre_invoke = str "Potential secrets detected in tool arguments"
block_description tool_post_invoke = str "Potential secrets detected in tool result"
block_description resource_post_fetch = str "Potential secrets detected in resource content"

sanitized_findings : List Finding → List Str
sanitized_findings findings = map (λ finding. finding.pii_type) findings

build_violation : Stage → ℕ → List Finding → Violation
build_violation stage count findings = record {
  code = violation_code;
  description = block_description stage;
  count = count;
  examples = sanitized_findings findings;
}

-- `sort_unstable` and `dedup` on the names of the types.
insert_type : Str → List Str → List Str
insert_type t [] = t ∷ []
insert_type t (u ∷ us) =
    let later = insert_type t us in elim (str_cmp t u) [ Ordering.gt ↦ u ∷ later | _ ↦ t ∷ u ∷ us ]

sort_types : List Str → List Str
sort_types [] = []
sort_types (t ∷ ts) = insert_type t (sort_types ts)

dedup_from : Str → List Str → List Str
dedup_from t [] = t ∷ []
dedup_from t (u ∷ us) =
    let same = dedup_from t us in
    let next = t ∷ dedup_from u us in if str_eq u t then same else next

dedup : List Str → List Str
dedup [] = []
dedup (t ∷ ts) = dedup_from t ts

secret_types : List Finding → List Str
secret_types findings = take max_secret_types (dedup (sort_types (sanitized_findings findings)))

abbrev is_empty {ℓ} : {A : Type ℓ} → List A → Bool
is_empty [] = true
is_empty (_ ∷ _) = false

masked_count : DetectionOutcome → ℕ → ℕ
masked_count masked count = count
masked_count blocked count = 0
masked_count neither count = 0

blocked_count : DetectionOutcome → ℕ → ℕ
blocked_count masked count = 0
blocked_count blocked count = count
blocked_count neither count = 0

-- The trace id is that of the request extension, if there is one.
build_metrics : Option Str → ℕ → List Finding → DetectionOutcome → Option Metadata
build_metrics none count findings outcome = none
build_metrics (some trace_id) count findings outcome =
    if is_empty trace_id || count == 0
    then none
    else some (record {
      total_detections = count;
      total_masked = masked_count outcome count;
      total_blocked = blocked_count outcome count;
      secret_types = secret_types findings;
    })

should_block : SecretsDetectionConfig → ℕ → Bool
should_block config count = config.block_on_detection && leb config.min_findings_to_block count

-- `let Value::Object(arguments) = … else { unreachable!() }`, and so for `Value::String`.
as_arguments : Value → Option (Map Value)
as_arguments (object fs) = some (entries fs)
as_arguments _ = none

as_text : Value → Option Str
as_text (string s) = some s
as_text _ = none

finish_if :
    Bool
    → ContentPart
    → PartScanReport
    → Option ContentPart
    → Option (ContentPart × Option PartScanReport)
finish_if true part report changed = changed >>= λ part'. some (part', some report)
finish_if false part report changed = some (part, some report)

module _ (matcher : Matcher) (patterns : List Str) (config : SecretsDetectionConfig) where
  abbrev part_report : ScanReport → PartScanReport
  part_report report = record {
    count = report.count;
    findings = report.findings;
    redacted = config.redact && ltb 0 report.count;
  }

  -- What a part becomes: rewritten by `put` if it is redacted.
  finish :
      ContentPart
      → ScanReport
      → (Value → Option ContentPart)
      → Option (ContentPart × Option PartScanReport)
  unfolding finish_if
  finish part report put =
      finish_if (config.redact && ltb 0 report.count) part (part_report report)
        (put report.redacted)

  -- A resource is looked at if it has text.
  scan_resource : Resource → Option Str → Option (ContentPart × Option PartScanReport)
  scan_resource content none = some (resource content, none)
  scan_resource content (some text) = do
    report ← scan_direct_text matcher patterns text config
    finish (resource content) report
        (λ v. as_text v >>= λ t. some (resource (record content { content = some t })))

  -- The part after the scan, and the report if the stage looks at such a part.
  pub scan_content_part : Stage → ContentPart → Option (ContentPart × Option PartScanReport)
  scan_content_part prompt_pre_fetch (prompt_request content) = do
    report ← scan_json_value matcher patterns (object (of_entries content.arguments)) config
    finish (prompt_request content) report (λ v.
        as_arguments v >>= λ args. some (prompt_request (record content { arguments = args })))
  scan_content_part tool_pre_invoke (tool_call content) = do
    report ← scan_json_value matcher patterns (object (of_entries content.arguments)) config
    finish (tool_call content) report
        (λ v. as_arguments v >>= λ args. some (tool_call (record content { arguments = args })))
  scan_content_part tool_post_invoke (tool_result content) = do
    report ← scan_json_value matcher patterns content.content config
    finish (tool_result content) report (λ v. some (tool_result (record content { content = v })))
  scan_content_part resource_post_fetch (resource content) = scan_resource content content.content
  scan_content_part stage part = some (part, none)

  -- The totals of the loop in `scan_payload`.
  abbrev add_part : Option PartScanReport → Totals → Totals
  add_part none rest = rest
  add_part (some report) rest = record {
    count = report.count + rest.count;
    findings = report.findings ++ rest.findings;
    redacted_any = config.redact && report.redacted || rest.redacted_any;
  }

  pub scan_parts : Stage → List ContentPart → Option (List ContentPart × Totals)
  scan_parts stage [] = some ([], record { count = 0; findings = []; redacted_any = false })
  scan_parts stage (part ∷ parts) = do
    scanned ← scan_content_part stage part
    rest ← scan_parts stage parts
    some (scanned.0 ∷ rest.0, add_part scanned.1 rest.1)

  abbrev payload_scan : MessagePayload → List ContentPart × Totals → PayloadScan
  payload_scan payload (parts, totals) = record {
    count = totals.count;
    findings = totals.findings;
    modified_payload =
        if totals.redacted_any then some (record payload { content = parts }) else none;
  }

  pub scan_payload : Stage → MessagePayload → Option PayloadScan
  scan_payload stage payload = do
    scanned ← scan_parts stage payload.content
    some (payload_scan payload scanned)

  abbrev unwrap_or {ℓ} : {A : Type ℓ} → Option A → A → A
  unwrap_or none a = a
  unwrap_or (some b) a = b

  -- The branches of `handle` after the scan.
  pub decide : Stage → Option Str → MessagePayload → PayloadScan → PluginResult
  decide stage trace_id payload scan =
      if should_block config scan.count
      then deny (build_violation stage scan.count scan.findings)
          (unwrap_or scan.modified_payload payload)
          (build_metrics trace_id scan.count scan.findings blocked)
      else elim scan.modified_payload [
        | some modified ↦
            modify_payload modified (build_metrics trace_id scan.count scan.findings masked)
        | none ↦ allow (
            if ltb 0 scan.count
            then build_metrics trace_id scan.count scan.findings neither
            else none)
      ]

  pub handle : Stage → Option Str → MessagePayload → Option PluginResult
  handle stage trace_id payload =
      scan_payload stage payload >>= λ scan. some (decide stage trace_id payload scan)

-- The hooks that the factory registers a handler for.
handler_for_hook : Str → Option Stage
handler_for_hook hook =
    if str_eq hook (str "cmf.prompt_pre_fetch")
    then some prompt_pre_fetch
    else if str_eq hook (str "cmf.tool_pre_invoke")
    then some tool_pre_invoke
    else if str_eq hook (str "cmf.tool_post_invoke")
    then some tool_post_invoke
    else if str_eq hook (str "cmf.resource_post_fetch")
    then some resource_post_fetch
    else none
