-- ===== src/Plugins/Prompts.antt =====
-- prompts/mod.rs: what a plugin sees of a prompt, and which of its edits the gateway applies. Messages are
-- compared by their JSON form, of which `serde_json` is a record. The arguments of a `HashMap`
-- are in the order of its association list.
pub mod Edits
use contextforge_data_plane.Prelude.{
  ℕ, Str, str, str_eq, Bool, true, false, not, ◌||◌, List, [], ◌∷◌, map, Option, none, some,
  if◌then◌else◌, ◌==◌, length, Result, ok, err, ok_or, and_then,
}
use contextforge_data_plane.Prelude.Maybe.{◌>>=◌}
use contextforge_data_plane.Json.{Value, Fields, end, entries, of_entries}
use contextforge_data_plane.Cmf.{
  Role, assistant, user, ContentPart, text, image, audio, resource, resource_ref, prompt_request,
  prompt_result, Parts, no_parts, part, Message, cmf_message, parts, of_messages, MessagePayload,
}
use contextforge_data_plane.Gateway.{
  ErrorData, ArgumentsUpdate, unchanged, NamedRequest, PreHookResult, error, invalid_params,
  invalid_request, internal_error,
}
use contextforge_data_plane.Plugins.{
  arguments_of, Operation, CpexCrate, PromptResult, CmfResponse, message_payload, from_modified,
}
use contextforge_data_plane.Plugins.Mcp.{
  McpRole, mcp_assistant, mcp_user, PromptMessage, GetPromptResult, ContentBlock, text_block,
  image_block, audio_block, resource_block, link_block, text_contents, blob_contents,
}
use contextforge_data_plane.Plugins.Runtime.{CallState, before, after, pre_hook_result}
use contextforge_data_plane.Plugins.Registry.{RuntimeState, current}

unfoldable pub prompt_request_payload :
    NamedRequest → (prompt_name backend_name id : Str) → MessagePayload
prompt_request_payload request prompt_name backend_name id = message_payload user (
    prompt_request (record {
      prompt_request_id = id;
      name = prompt_name;
      arguments = entries (arguments_of request.arguments);
      server_id = some backend_name;
    })
    ∷ [])

abbrev pub is_backend : Option Str → Str → Bool
is_backend none backend_name = false
is_backend (some server) backend_name = str_eq server backend_name

-- A list of one.
abbrev pub single {ℓ} : {A : Type ℓ} → List A → Option A
single (x ∷ []) = some x
single _ = none

abbrev mcp_role : McpRole → Role
mcp_role mcp_assistant = assistant
mcp_role mcp_user = user

abbrev cmf_role : Role → Option McpRole
cmf_role assistant = some mcp_assistant
cmf_role user = some mcp_user
cmf_role _ = none

unfoldable pub cmf_content_part : ContentBlock → Str → Option ContentPart
cmf_content_part (text_block content _) id = some (text content)
cmf_content_part (image_block content mime_type _) id = some (
    image (record {
      source_type = str "base64";
      content = content;
      media_type = some mime_type;
      other_fields = end;
    }))
cmf_content_part (audio_block content mime_type _) id = some (
    audio (record {
      source_type = str "base64";
      content = content;
      media_type = some mime_type;
      other_fields = end;
    }))
cmf_content_part (resource_block (text_contents uri mime_type content _) _) id = some (
    resource (record {
      resource_request_id = id;
      uri = uri;
      content = some content;
      blob = none;
      mime_type = mime_type;
      other_fields = end;
    }))
cmf_content_part (resource_block (blob_contents uri mime_type _ _) _) id = some (
    resource (record {
      resource_request_id = id;
      uri = uri;
      content = none;
      blob = none;
      mime_type = mime_type;
      other_fields = end;
    }))
cmf_content_part (link_block uri name _) id = some (
    resource_ref
      (record { resource_request_id = id; uri = uri; name = some name; other_fields = end }))
cmf_content_part _ id = none

abbrev of_option : Option ContentPart → Parts
of_option none = no_parts
of_option (some p) = part p no_parts

unfoldable pub cmf_prompt_message : PromptMessage → Str → Message
unfolding cmf_content_part
cmf_prompt_message message id =
    cmf_message (str "2.0") (mcp_role message.role)
      (of_option (cmf_content_part message.content id)) none

unfoldable pub inline_media_data : Str → Str → Option Str
inline_media_data source_type content =
    if str_eq source_type (str "base64") then some content else none

unfoldable pub mcp_content : ContentPart → Option ContentBlock
unfolding inline_media_data
mcp_content (text content) = some (text_block content end)
mcp_content (image source) = do
  content ← inline_media_data source.source_type source.content
  media_type ← source.media_type
  some (image_block content media_type end)
mcp_content (audio source) = do
  content ← inline_media_data source.source_type source.content
  media_type ← source.media_type
  some (audio_block content media_type end)
mcp_content (resource source) = do
  content ← source.content
  some (resource_block (text_contents source.uri source.mime_type content none) end)
mcp_content (resource_ref source) = do name ← source.name; some (link_block source.uri name end)
mcp_content _ = none

unfoldable pub mcp_prompt_message : Message → Option PromptMessage
unfolding mcp_content
mcp_prompt_message (cmf_message version role content channel) = do
  mcp_role ← cmf_role role
  p ← single (parts content)
  block ← mcp_content p
  some (record { role = mcp_role; content = block })

unfoldable pub prompt_result_payload : GetPromptResult → (prompt_name id : Str) → MessagePayload
prompt_result_payload response prompt_name id = message_payload assistant (
    prompt_result id prompt_name
      (of_messages (map (λ message. cmf_prompt_message message id) response.messages)) none false
      none
    ∷ [])

-- `serde_json::to_value` of a message, and the equality of values.
pub record MessageJson : Type 0 where
  pub message_value : Message → Option Value
  pub value_eq : Value → Value → Bool

module _ (json : MessageJson) (id : Str) where
  -- The edit as a message of the result, if that loses nothing.
  unfoldable pub rebuild : Message → Option PromptMessage
  rebuild edited = do
    rebuilt ← mcp_prompt_message edited
    shown ← json.message_value (cmf_prompt_message rebuilt id)
    expected ← json.message_value edited
    if json.value_eq shown expected then some rebuilt else none

  -- One message of the result: kept if the plugin did not edit it, rebuilt or refused otherwise.
  unfoldable pub apply_edit : PromptMessage → Message → Option PromptMessage
  apply_edit message edited = do
    projected ← json.message_value (cmf_prompt_message message id)
    expected ← json.message_value edited
    if json.value_eq projected expected then some message else rebuild edited

  unfoldable pub apply_edits : List PromptMessage → List Message → Option (List PromptMessage)
  apply_edits (message ∷ messages) (edited ∷ edits) = do
    applied ← apply_edit message edited
    rest ← apply_edits messages edits
    some (applied ∷ rest)
  apply_edits messages _ = some messages

abbrev pub is_some {ℓ} : {A : Type ℓ} → Option A → Bool
is_some none = false
is_some (some _) = true

module _ {M C : Type 0} (cpex : CpexCrate M C) (json : MessageJson) where
  unfoldable pub prompt_request_arguments :
      MessagePayload → (prompt_name backend_name id : Str) → Option Fields
  prompt_request_arguments payload prompt_name backend_name id = do
    request ← single (cpex.get_prompt_requests payload)
    if not (str_eq request.name prompt_name)
          || not (str_eq request.prompt_request_id id)
          || not (is_backend request.server_id backend_name)
        then none
        else some (of_entries request.arguments)

  abbrev rejection_message : Option Str → Str
  rejection_message none = str "Plugin rejected the rendered prompt"
  rejection_message (some message) = message

  -- `prompt_result_rejection`: the message of a result that the plugin marks as an error.
  unfoldable pub prompt_result_rejection : MessagePayload → Option Str
  prompt_result_rejection payload = do
    result ← single (cpex.get_prompt_results payload)
    if result.is_error then some (rejection_message result.error_message) else none

  unfoldable pub prompt_result_response :
      GetPromptResult → MessagePayload → (prompt_name id : Str) → Option GetPromptResult
  unfolding apply_edits
  prompt_result_response original payload prompt_name id = do
    result ← single (cpex.get_prompt_results payload)
    if not (str_eq result.prompt_name prompt_name)
          || not (str_eq result.prompt_request_id id)
          || is_some result.content
          || is_some result.error_message
        then none
        else if not (length result.messages == length original.messages)
        then none
        else do
          messages ← apply_edits json id original.messages result.messages
          some (record original { messages = messages })

  abbrev pub unless_rejected :
      Option Str → Option GetPromptResult → Result ErrorData GetPromptResult
  unless_rejected (some message) applied = err (error invalid_request message)
  unless_rejected none applied =
      ok_or (error internal_error (str "Plugin returned a prompt result the gateway cannot apply"))
        applied

  unfoldable pub prompt_response : CmfResponse GetPromptResult
  prompt_response = record {
    operation = Operation.prompt;
    to_payload = λ response name id. ok (prompt_result_payload response name id);
    apply_payload = λ response payload name id.
        unless_rejected (prompt_result_rejection payload)
          (prompt_result_response response payload name id);
  }

  unfoldable pub after_get_prompt :
      GetPromptResult → CallState M C → CallState M C × Result ErrorData GetPromptResult
  after_get_prompt response state = after cpex prompt_response response state

  module _ (same_fields : Fields → Fields → Bool) where
    abbrev pub prompt_update :
        NamedRequest
        → (prompt_name backend_name : Str) → MessagePayload
        → Str
        → Result ErrorData ArgumentsUpdate
    prompt_update request prompt_name backend_name payload id =
        and_then (λ arguments. ok (from_modified same_fields request.arguments arguments))
          (ok_or
            (error invalid_params (str "Plugin returned a prompt request the gateway cannot apply"))
            (prompt_request_arguments payload prompt_name backend_name id))

    unfoldable pub before_get_prompt :
        RuntimeState M
        → NamedRequest
        → (prompt_name backend_name : Str) → ℕ
        → ℕ × Result ErrorData (PreHookResult (CallState M C))
    before_get_prompt state request prompt_name backend_name counter = elim (current state) [
      | err e ↦ (counter, err e)
      | ok runtime ↦ pre_hook_result (
          before cpex unchanged runtime Operation.prompt
            (prompt_request_payload request prompt_name backend_name)
            (prompt_update request prompt_name backend_name) prompt_name counter)
    ]
