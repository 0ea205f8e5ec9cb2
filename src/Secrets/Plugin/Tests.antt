-- ===== src/Secrets/Plugin/Tests.antt =====
-- Runs of the plugin's handler, and the instances of its theorems.
use contextforge_data_plane.Prelude.{str, ◌≡◌, refl, true, [], ◌∷◌, none, some, length}
use contextforge_data_plane.Json.{bool}
use contextforge_data_plane.Cmf.{assistant, tool_call, MessagePayload}
use contextforge_data_plane.Secrets.Config.{SecretsDetectionConfig, should_traverse_field_path}
use contextforge_data_plane.Secrets.Scanner.{Matcher}
use contextforge_data_plane.Secrets.Scanner.Tree.{scan_json_value, scan_value}
use contextforge_data_plane.Secrets.Plugin.{
  tool_pre_invoke, PayloadScan, PluginResult, deny, scan_payload, scan_parts, scan_content_part,
  finish, decide, should_block, build_violation, build_metrics, handle, block_description,
  sanitized_findings,
}
use contextforge_data_plane.Secrets.Plugin.Verdict.{IsJustified, handle-IsJustified}

abbrev no_matches : Matcher
no_matches = record { find_iter = λ name text. []; captures_iter = λ name text. [] }

-- A threshold of zero blocks every payload.
abbrev strict : SecretsDetectionConfig
strict = record {
  enabled = [];
  redact = true;
  redaction_text = str "[X]";
  block_on_detection = true;
  min_findings_to_block = 0;
  field_allowlist = [];
  field_denylist = [];
}

abbrev call : MessagePayload
call = record {
  role = assistant;
  content =
      tool_call (record {
        tool_call_id = str "1";
        name = str "echo";
        arguments = (str "loud", bool true) ∷ [];
        namespace = none;
      })
      ∷ [];
}

abbrev refused : PluginResult
refused =
    deny
      (record {
        code = str "SECRETS_DETECTED";
        description = str "Potential secrets detected in tool arguments";
        count = 0;
        examples = [];
      })
      call none

refuse_call : handle no_matches [] strict tool_pre_invoke (some (str "t")) call ≡ some refused
unfolding handle scan_payload scan_parts scan_content_part scan_json_value scan_value
    should_traverse_field_path finish decide should_block build_violation build_metrics str
    block_description sanitized_findings
refuse_call = refl

handle-IsJustified_example :
    (s : PayloadScan) × (scan_payload no_matches [] strict tool_pre_invoke call ≡ some s)
    × (s.count ≡ length s.findings)
    × IsJustified no_matches [] strict s refused
handle-IsJustified_example =
    handle-IsJustified no_matches [] strict tool_pre_invoke (some (str "t")) call refused
      refuse_call
