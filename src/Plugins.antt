-- ===== src/Plugins.antt =====
-- crates/contextforge-data-plane-cpex/src: the runtime of the CMF plugins. This file has cmf.rs, hooks.rs and
-- error.rs. The `cpex` crate is a record of functions: C is its context table, M its plugin manager. The
-- plugins that a hook runs are the function `invoke_named` of the hook's name, the payload and the context.
pub mod Runtime
pub mod Config
pub mod Registry
pub mod Mcp
pub mod Prompts
pub mod Resources
pub mod Tools
pub mod Requests
mod Fixtures
mod Tests
use contextforge_data_plane.Prelude.{
  ℕ, ◌^◌, Str, str, Bool, false, List, [], ◌∷◌, ◌++◌, Option, none, some, if◌then◌else◌, ltb,
  Result, ok, err,
}
use contextforge_data_plane.Prelude.Maybe.{◌>>=◌}
use contextforge_data_plane.Json.{Fields, end}
use contextforge_data_plane.Cmf.{
  Role, ContentPart, MessagePayload, ToolCall, ToolResult, PromptRequest, Message,
}
use contextforge_data_plane.Headers.Integer.{ℤ, pos, negsuc}
use contextforge_data_plane.Gateway.{
  ErrorCode, ErrorData, invalid_request, other_code, error, ArgumentsUpdate, unchanged, replace,
}

pub data Operation : Type 0 where
  tool prompt resource : Operation

-- `Operation::ALL`.
abbrev pub operations : List Operation
operations = Operation.tool ∷ Operation.prompt ∷ Operation.resource ∷ []

unfoldable pub subject : Operation → Str
subject Operation.tool = str "tool call"
subject Operation.prompt = str "prompt"
subject Operation.resource = str "resource"

unfoldable pub id_prefix : Operation → Str
id_prefix Operation.tool = str "gateway-tool-call"
id_prefix Operation.prompt = str "gateway-prompt-request"
id_prefix Operation.resource = str "gateway-resource-request"

abbrev pub message_payload : Role → List ContentPart → MessagePayload
message_payload role content = record { role = role; content = content }

-- `Box<dyn PluginPayload>`, as `downcast_ref` tells it apart.
pub data PluginPayload : Type 0 where
  message : MessagePayload → PluginPayload
  foreign : PluginPayload

-- The field of a violation that the code reads.
pub record Violation : Type 0 where
  pub proto_error_code : Option ℤ

pub record PipelineResult (C : Type 0) : Type 0 where
  pub denied : Bool
  pub violation : Option Violation
  pub modified_payload : Option PluginPayload
  pub context_table : C

-- The prompt result of a content part.
pub record PromptResult : Type 0 where
  pub prompt_request_id : Str
  pub prompt_name : Str
  pub messages : List Message
  pub content : Option Str
  pub is_error : Bool
  pub error_message : Option Str

-- What the code uses of the `cpex` crate to run hooks: their names, the plugins, and the views of a message.
pub record CpexCrate (M C : Type 0) : Type 0 where
  pub pre_hook : Operation → Str
  pub post_hook : Operation → Str
  pub empty_table : C
  pub invoke_named : M → Str → MessagePayload → Option C → PipelineResult C
  pub get_tool_calls : MessagePayload → List ToolCall
  pub get_tool_results : MessagePayload → List ToolResult
  pub get_prompt_requests : MessagePayload → List PromptRequest
  pub get_prompt_results : MessagePayload → List PromptResult
  pub get_text_content : MessagePayload → Str

abbrev as_message : PluginPayload → Option MessagePayload
as_message (message payload) = some payload
as_message foreign = none

unfoldable pub modified_message_payload : {C : Type 0} → PipelineResult C → Option MessagePayload
modified_message_payload result = do payload ← result.modified_payload; as_message payload

-- `i32::try_from`.
abbrev pub fits_i32 : ℤ → Bool
fits_i32 (pos n) = ltb n (2 ^ 31)
fits_i32 (negsuc n) = ltb n (2 ^ 31)

abbrev denial_code : Option ℤ → ErrorCode
denial_code none = invalid_request
denial_code (some code) = if fits_i32 code then other_code code else invalid_request

unfoldable pub plugin_denied_error : {C : Type 0} → Str → PipelineResult C → ErrorData
plugin_denied_error what result =
    error (denial_code (do violation ← result.violation; violation.proto_error_code))
      (str "Plugin denied " ++ what)

-- The trait of the responses: what a plugin sees of a response, and how its edit is applied.
pub record CmfResponse (T : Type 0) : Type 0 where
  pub operation : Operation
  pub to_payload : T → Str → Str → Result ErrorData MessagePayload
  pub apply_payload : T → MessagePayload → Str → Str → Result ErrorData T

-- `unwrap_or_default` of a request's arguments.
abbrev pub arguments_of : Option Fields → Fields
arguments_of none = end
arguments_of (some arguments) = arguments

-- `ArgumentsUpdate::from_modified`, by the equality of `serde_json::Map`.
unfoldable pub from_modified : (Fields → Fields → Bool) → Option Fields → Fields → ArgumentsUpdate
from_modified same (some original) modified =
    if same original modified then unchanged else replace (some modified)
from_modified same none Fields.end = unchanged
from_modified same none modified = replace (some modified)
