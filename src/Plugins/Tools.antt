-- ===== src/Plugins/Tools.antt =====
-- tools/mod.rs: what a plugin sees of a tool call, its result and the events of its stream, and how edits are
-- applied. The state of the post hook is shared by the result and the events: it is passed in and out.
pub mod Edits
use contextforge_data_plane.Prelude.{
  ℕ, Str, str, Bool, true, false, List, [], ◌∷◌, ◌++◌, Option, none, some, Result, ok, err, ok_or,
  ◌>>=◌,
}
use contextforge_data_plane.Json.{Value, null, string, Fields, end, entries, of_entries}
use contextforge_data_plane.Cmf.{
  assistant, tool_role, tool_call, tool_result, ToolResult, MessagePayload,
}
use contextforge_data_plane.Gateway.{
  ErrorData, ArgumentsUpdate, unchanged, NamedRequest, PreHookResult, error, invalid_params,
}
use contextforge_data_plane.Plugins.{
  arguments_of, Operation, CpexCrate, CmfResponse, message_payload, from_modified,
}
use contextforge_data_plane.Plugins.Mcp.{CallToolResult, text_block, RmcpCrate}
use contextforge_data_plane.Plugins.Runtime.{
  CallState, before, invoke, apply, after, pre_hook_result,
}
use contextforge_data_plane.Plugins.Registry.{RuntimeState, current}

unfoldable pub tool_call_payload : NamedRequest → (tool_name backend_name id : Str) → MessagePayload
tool_call_payload request tool_name backend_name id = message_payload assistant (
    tool_call (record {
      tool_call_id = id;
      name = tool_name;
      arguments = entries (arguments_of request.arguments);
      namespace = some backend_name;
    })
    ∷ [])

unfoldable pub tool_json_result_payload : Str → Value → Bool → Str → MessagePayload
tool_json_result_payload tool_name content is_error id = message_payload tool_role (
    tool_result
      (record { tool_call_id = id; tool_name = tool_name; content = content; is_error = is_error })
    ∷ [])

abbrev pub value_or_null : Option Value → Value
value_or_null none = null
value_or_null (some v) = v

abbrev pub flag : Option Bool → Bool
flag none = false
flag (some b) = b

abbrev pub first {ℓ} : {A : Type ℓ} → List A → Option A
first [] = none
first (x ∷ _) = some x

-- A type that `serde` writes and reads, for the events of a stream.
pub record Serde (T : Type 0) : Type 0 where
  pub event_value : T → Option Value
  pub value_event : Value → Result Str T

module _ (rmcp : RmcpCrate) where
  unfoldable pub tool_result_payload : Str → CallToolResult → Str → MessagePayload
  unfolding tool_json_result_payload
  tool_result_payload tool_name response id =
      tool_json_result_payload tool_name (value_or_null (rmcp.result_value response))
        (flag response.is_error) id

  unfoldable pub raw_tool_result : Value → Bool → CallToolResult
  raw_tool_result (string content) false = rmcp.success (text_block content end ∷ [])
  raw_tool_result (string content) true = rmcp.failure (text_block content end ∷ [])
  raw_tool_result value false = rmcp.structured value
  raw_tool_result value true = rmcp.structured_error value

  abbrev edited_result : CallToolResult → Option ToolResult → CallToolResult
  unfolding raw_tool_result
  edited_result original none = original
  edited_result original (some edit) = elim (rmcp.value_result edit.content) [
    | none ↦ raw_tool_result edit.content edit.is_error
    | some result ↦ record result { is_error = some edit.is_error }
  ]

  abbrev pub push_text : Str → CallToolResult → CallToolResult
  push_text [] result = result
  push_text content result = record result {
    content = result.content ++ (text_block content end ∷ []);
  }

  module _ {M C : Type 0} (cpex : CpexCrate M C) where
    unfoldable pub tool_result_response : CallToolResult → MessagePayload → CallToolResult
    unfolding raw_tool_result
    tool_result_response original payload =
        push_text (cpex.get_text_content payload)
          (edited_result original (first (cpex.get_tool_results payload)))

    unfoldable pub tool_response : CmfResponse CallToolResult
    tool_response = record {
      operation = Operation.tool;
      to_payload = λ response name id. ok (tool_result_payload name response id);
      apply_payload = λ response payload name id. ok (tool_result_response response payload);
    }

    unfoldable pub after_tool_call :
        CallToolResult → CallState M C → CallState M C × Result ErrorData CallToolResult
    after_tool_call response state = after cpex tool_response response state

module _ {M C : Type 0} (cpex : CpexCrate M C) where
  unfoldable pub tool_result_content : MessagePayload → Option Value
  tool_result_content payload = elim (first (cpex.get_tool_results payload)) [
    | none ↦ none
    | some result ↦ some result.content
  ]

  unfoldable pub tool_call_arguments : MessagePayload → Option Fields
  tool_call_arguments payload = elim (first (cpex.get_tool_calls payload)) [
    | none ↦ none
    | some call ↦ some (of_entries call.arguments)
  ]

  module _ {T : Type 0} (serde : Serde T) where
    abbrev read_event : Result Str T → Result ErrorData T
    read_event (ok event) = ok event
    read_event (err message) = err (
        error invalid_params
          (str "Plugin modified stream event payload with invalid JSON: " ++ message))

    -- `ToolEvent`'s `CmfResponse`.
    unfoldable pub event_response : CmfResponse T
    event_response = record {
      operation = Operation.tool;
      to_payload = λ event name id.
          ok (tool_json_result_payload name (value_or_null (serde.event_value event)) false id);
      apply_payload = λ event payload name id. do
        content ←
            ok_or
              (error invalid_params
                (str "Plugin modified stream event payload without a tool result"))
              (tool_result_content payload)
        read_event (serde.value_event content);
    }

    abbrev pub if_not_denied : Bool → Result ErrorData T → Result ErrorData (Option T)
    if_not_denied true applied = ok none
    if_not_denied false applied = do event ← applied; ok (some event)

    -- No event is left where a plugin denies it.
    unfoldable pub after_stream_event :
        T → CallState M C → CallState M C × Result ErrorData (Option T)
    after_stream_event event state =
        let invoked = invoke cpex event_response event state in
        (
          invoked.0,
          do
            result ← invoked.1
            if_not_denied result.denied (apply cpex event_response event result invoked.0),
        )

  module _ (same_fields : Fields → Fields → Bool) where
    abbrev tool_update : NamedRequest → MessagePayload → Str → Result ErrorData ArgumentsUpdate
    tool_update request payload id = elim (tool_call_arguments payload) [
      | none ↦ err (error invalid_params (str "Plugin modified tool payload without a tool call"))
      | some arguments ↦ ok (from_modified same_fields request.arguments arguments)
    ]

    unfoldable pub before_tool_call :
        RuntimeState M
        → NamedRequest
        → (tool_name backend_name : Str) → ℕ
        → ℕ × Result ErrorData (PreHookResult (CallState M C))
    before_tool_call state request tool_name backend_name counter = elim (current state) [
      | err e ↦ (counter, err e)
      | ok runtime ↦ pre_hook_result (
          before cpex unchanged runtime Operation.tool
            (tool_call_payload request tool_name backend_name) (tool_update request) tool_name
            counter)
    ]
