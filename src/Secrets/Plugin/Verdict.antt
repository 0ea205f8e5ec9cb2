-- ===== src/Secrets/Plugin/Verdict.antt =====
-- What the handler decides, and what its decision says of the payload.
use contextforge_data_plane.Prelude.Maybe.{bind-eq-some, some-inj}
use contextforge_data_plane.Prelude.{
  ◌≤◌, Str, ◌≡◌, refl, subst, ◌↔◌, ◌⊎◌, Bool, true, false, ◌&&◌, List, [], ◌∷◌, Option, none, some,
  arith, ltb, length, length-append,
}
use contextforge_data_plane.Json.{Value, object, of_entries}
use contextforge_data_plane.Cmf.{
  ContentPart, Resource, resource, tool_call, tool_result, prompt_request, MessagePayload,
}
use contextforge_data_plane.Secrets.Config.{SecretsDetectionConfig}
use contextforge_data_plane.Secrets.Scanner.{Matcher, detect_and_redact}
use contextforge_data_plane.Secrets.Scanner.Tree.{ScanReport, scan_json_value, scan_direct_text}
use contextforge_data_plane.Secrets.Scanner.Tree.Reports.{
  scan_value-IsFaithful, detect_and_redact-IsHonest,
}
use contextforge_data_plane.Secrets.Plugin.{
  Stage, prompt_pre_fetch, tool_pre_invoke, tool_post_invoke, resource_post_fetch, PartScanReport,
  Totals, PayloadScan, PluginResult, deny, modify_payload, allow, Metadata, should_block,
  part_report, finish, finish_if, scan_content_part, scan_parts, scan_payload, scan_resource,
  decide, handle, add_part,
}

abbrev pub is_denied : PluginResult → Bool
is_denied (deny v p m) = true
is_denied (modify_payload p m) = false
is_denied (allow m) = false

finish_if_report :
    (b : Bool) (part : ContentPart) (report : PartScanReport) (changed : Option ContentPart)
    (after : ContentPart) (r : Option PartScanReport)
    → finish_if b part report changed ≡ some (after, r)
    → r ≡ some report
unfolding finish_if
finish_if_report true part report changed after r h = let (p, q, f) = bind-eq-some changed _ h in cc
finish_if_report false part report changed after r h = cc

module _ (matcher : Matcher) (patterns : List Str) (config : SecretsDetectionConfig) where
  -- A part's report counts its findings, and says redacted exactly if there are some to redact.
  abbrev pub IsPartReport : PartScanReport → Type 0
  IsPartReport r = (r.count ≡ length r.findings) × (r.redacted ≡ (config.redact && ltb 0 r.count))

  finish_report :
      (part : ContentPart) (report : ScanReport) (put : Value → Option ContentPart)
      (after : ContentPart) (r : Option PartScanReport)
      → finish matcher patterns config part report put ≡ some (after, r)
      → r ≡ some (part_report matcher patterns config report)
  unfolding finish
  finish_report part report put after r h =
      finish_if_report (config.redact && ltb 0 report.count) part
        (part_report matcher patterns config report) (put report.redacted) after r h

  json_counted :
      (value : Value) (report : ScanReport)
      → scan_json_value matcher patterns value config ≡ some report
      → report.count ≡ length report.findings
  unfolding scan_json_value
  json_counted value report h =
      (scan_value-IsFaithful (λ t. detect_and_redact matcher patterns t config) config value [] true
        report (detect_and_redact-IsHonest matcher patterns config) h).counted

  text_counted :
      (t : Str) (report : ScanReport)
      → scan_direct_text matcher patterns t config ≡ some report
      → report.count ≡ length report.findings
  unfolding scan_direct_text
  text_counted t report h =
      let (found, p, q) = bind-eq-some (detect_and_redact matcher patterns t config) _ h in
      subst (λ (r : ScanReport). r.count ≡ length r.findings) (some-inj q) refl

  abbrev ReportOk : Option PartScanReport → Type 0
  ReportOk none = Unit
  ReportOk (some r) = IsPartReport r

  reported :
      (report : ScanReport) (r : Option PartScanReport)
      → report.count ≡ length report.findings
      → r ≡ some (part_report matcher patterns config report)
      → ReportOk r
  reported report r h e = rw e (h, refl)

  unreported :
      (part after : ContentPart) (r : Option PartScanReport)
      → ◌≡◌ {A = Option (ContentPart × Option PartScanReport)} (some (part, none)) (some (after, r))
      → ReportOk r
  unreported part after none h = tt
  unreported part after (some r) h = cc

  resource-ReportOk :
      (c : Resource) (t : Option Str) (after : ContentPart) (r : Option PartScanReport)
      → scan_resource matcher patterns config c t ≡ some (after, r)
      → ReportOk r
  unfolding scan_resource
  resource-ReportOk c none after r h = unreported (resource c) after r h
  resource-ReportOk c (some t) after r h =
      let (report, p, q) = bind-eq-some (scan_direct_text matcher patterns t config) _ h in
      reported report r (text_counted t report p) (finish_report _ report _ after r q)

  part-ReportOk :
      (stage : Stage) (part after : ContentPart) (r : Option PartScanReport)
      → scan_content_part matcher patterns config stage part ≡ some (after, r)
      → ReportOk r
  unfolding scan_content_part
  part-ReportOk prompt_pre_fetch (prompt_request c) after r h =
      let (report, p, q) =
        bind-eq-some (scan_json_value matcher patterns (object (of_entries c.arguments)) config) _
          h in
      reported report r (json_counted _ report p) (finish_report _ report _ after r q)
  part-ReportOk tool_pre_invoke (tool_call c) after r h =
      let (report, p, q) =
        bind-eq-some (scan_json_value matcher patterns (object (of_entries c.arguments)) config) _
          h in
      reported report r (json_counted _ report p) (finish_report _ report _ after r q)
  part-ReportOk tool_post_invoke (tool_result c) after r h =
      let (report, p, q) = bind-eq-some (scan_json_value matcher patterns c.content config) _ h in
      reported report r (json_counted _ report p) (finish_report _ report _ after r q)
  part-ReportOk resource_post_fetch (resource c) after r h = resource-ReportOk c c.content after r h
  part-ReportOk stage part after r h = unreported part after r h

  -- Totals count their findings, and are marked redacted exactly if there is something to redact.
  abbrev TotalsOk : Totals → Type 0
  TotalsOk t = (t.count ≡ length t.findings) × (t.redacted_any ≡ (config.redact && ltb 0 t.count))

  add_part-TotalsOk :
      (r : Option PartScanReport) (t : Totals)
      → ReportOk r
      → TotalsOk t
      → TotalsOk (add_part matcher patterns config r t)
  add_part-TotalsOk none t h k = k
  add_part-TotalsOk (some r) t h k =
      (omega (arith, length-append r.findings t.findings), ground arith)

  scan_parts-TotalsOk :
      (stage : Stage) (parts : List ContentPart) (r : List ContentPart × Totals)
      → scan_parts matcher patterns config stage parts ≡ some r
      → TotalsOk r.1
  unfolding scan_parts
  scan_parts-TotalsOk stage [] r h =
      subst (λ (r : List ContentPart × Totals). TotalsOk r.1) (some-inj h) (refl, ground arith)
  scan_parts-TotalsOk stage (part ∷ parts) r h =
      let (scanned, p, h') =
        bind-eq-some (scan_content_part matcher patterns config stage part) _ h in
      let (rest, q, e) = bind-eq-some (scan_parts matcher patterns config stage parts) _ h' in
      subst (λ (r : List ContentPart × Totals). TotalsOk r.1) (some-inj e)
        (add_part-TotalsOk scanned.1 rest.1 (part-ReportOk stage part scanned.0 scanned.1 p)
          (scan_parts-TotalsOk stage parts rest q))

  -- What a finished scan of a payload says.
  pub record IsSound (s : PayloadScan) : Type 0 where
    pub counted : s.count ≡ length s.findings
    pub untouched_iff : (s.modified_payload ≡ none) ↔ ((config.redact ≡ false) ⊎ (s.count ≡ 0))

  scan_payload-IsSound :
      (stage : Stage) (payload : MessagePayload) (s : PayloadScan)
      → scan_payload matcher patterns config stage payload ≡ some s
      → IsSound s
  unfolding scan_payload
  scan_payload-IsSound stage payload s h =
      let (r, p, e) = bind-eq-some (scan_parts matcher patterns config stage payload.content) _ h in
      let totals = scan_parts-TotalsOk stage payload.content r p in
      subst IsSound (some-inj e) (record { counted = totals.0; untouched_iff = ground arith })

  -- The handler denies exactly when blocking is on and the findings reach the threshold; and it lets
  -- a payload pass unmodified only if redaction is off or the scan found nothing.
  pub record IsJustified (s : PayloadScan) (r : PluginResult) : Type 0 where
    pub denied_iff :
        (is_denied r ≡ true)
        ↔ ((config.block_on_detection ≡ true) × (config.min_findings_to_block ≤ s.count))
    pub unmodified : (m : Option Metadata) → r ≡ allow m → (config.redact ≡ false) ⊎ (s.count ≡ 0)

  decide-IsJustified :
      (stage : Stage) (trace_id : Option Str) (payload : MessagePayload) (s : PayloadScan)
      → IsSound s
      → IsJustified s (decide matcher patterns config stage trace_id payload s)
  unfolding decide should_block
  decide-IsJustified stage trace_id payload s sound = record {
    denied_iff = ground arith;
    unmodified = λ m e. sound.untouched_iff.0 (ground arith);
  }

  -- Whatever the stage and the payload, what the handler returns is justified by a scan that counts
  -- its findings: it denies exactly when blocking is on and the findings reach the threshold, and a
  -- payload passes unmodified only if redaction is off or nothing was found.
  pub handle-IsJustified :
      (stage : Stage) (trace_id : Option Str) (payload : MessagePayload) (r : PluginResult)
      → handle matcher patterns config stage trace_id payload ≡ some r
      → (s : PayloadScan) × (scan_payload matcher patterns config stage payload ≡ some s)
        × (s.count ≡ length s.findings)
        × IsJustified s r
  unfolding handle
  handle-IsJustified stage trace_id payload r h =
      let (s, p, e) = bind-eq-some (scan_payload matcher patterns config stage payload) _ h in
      let sound = scan_payload-IsSound stage payload s p in
      (
        s,
        p,
        sound.counted,
        subst (IsJustified s) (some-inj e) (decide-IsJustified stage trace_id payload s sound),
      )
