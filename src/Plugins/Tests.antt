-- ===== src/Plugins/Tests.antt =====
-- The instances of the theorems.
use contextforge_data_plane.Prelude.{
  ℕ, Str, str, str_eq, true, false, [], ◌∷◌, map, none, some, ok, err, ◌≡◌, refl, ◌⊎◌, arith,
}
use contextforge_data_plane.Json.{string}
use contextforge_data_plane.Cmf.{assistant}
use contextforge_data_plane.Gateway.{unchanged, error, internal_error}
use contextforge_data_plane.Plugins.{Operation, PromptResult, message_payload}
use contextforge_data_plane.Plugins.Runtime.{correlation_id, before, after}
use contextforge_data_plane.Plugins.Runtime.Hooks.{Prepares, before-Prepares, Passes, after-Passes}
use contextforge_data_plane.Plugins.Runtime.{CallState}
use contextforge_data_plane.Plugins.Runtime.Ids.{HookedCall, counted-distinct}
use contextforge_data_plane.Plugins.Config.{config_store_unavailable, decode}
use contextforge_data_plane.Plugins.Registry.{
  poll, reload, from_config, current, tick, watch, initialize,
}
use contextforge_data_plane.Plugins.Registry.Reloads.{load, rebuild}
use contextforge_data_plane.Plugins.Registry.Watch.{
  watch-rebuild_initialized, watch-reload_refuses, current-tick_rejects,
}
use contextforge_data_plane.Plugins.Prompts.{
  prompt_result_payload, prompt_response, before_get_prompt,
}
use contextforge_data_plane.Plugins.Prompts.Edits.{
  AllPairs, Shows, prompt_response-Shows, prompt_response_echo,
}
use contextforge_data_plane.Plugins.Resources.{resource_response}
use contextforge_data_plane.Plugins.Resources.Edits.{
  shown, resource_response-shown, resource_response_echo,
}
use contextforge_data_plane.Plugins.Tools.{
  tool_json_result_payload, tool_result_payload, tool_response, event_response, after_stream_event,
}
use contextforge_data_plane.Plugins.Tools.Edits.{
  IsRelayed, event_result, tool_response_echo, event_response_echo, after_stream_event-cases,
}
use contextforge_data_plane.Plugins.Requests.{Asks, before_get_prompt-Asks}
use contextforge_data_plane.Plugins.Config.{
  connection, cpex_config, declares, decode_config_document, get_config,
  validate_gateway_supported_config, validate_plugins,
}
use contextforge_data_plane.Plugins.{from_modified, id_prefix, modified_message_payload}
use contextforge_data_plane.Plugins.Prompts.{
  apply_edit, cmf_prompt_message, prompt_request_arguments, prompt_request_payload,
  prompt_result_rejection, prompt_result_response,
}
use contextforge_data_plane.Plugins.Resources.{resource_result_payload, resource_result_response}
use contextforge_data_plane.Prelude.Decimal.{decimal}
use contextforge_data_plane.Plugins.Registry.{
  apply_runtime_config, reload_from, reload_runtime, settle, start_config_watcher,
}
use contextforge_data_plane.Plugins.Runtime.{finish}
use contextforge_data_plane.Plugins.Fixtures.{
  arguments_request, base64, base64_encoded, both_empty, both_empty_sound, contents,
  contents_payload, cpex, decoders, document, managers, prompt, prompt_payload, prompt_view,
  registry, result, results_view, rmcp, runtime, serde, state, values, values-IsReflexive, wakes,
  watcher, watcher-IsCurrent,
}

-- A tool call that nothing edits.
abbrev tool_call : HookedCall ℕ
tool_call = record {
  runtime = runtime;
  operation = Operation.tool;
  name = str "name";
  edits = Str;
  default = str "unedited";
  payload = λ id. contents_payload;
  update = λ p id. ok id;
}

abbrev tool_state : ℕ → CallState ℕ ℕ
tool_state counter = record {
  runtime = runtime;
  context_table = 7;
  name = str "name";
  id = correlation_id Operation.tool counter;
}

counted-distinct_example : ¬ ((tool_state 1).id ≡ (tool_state 3).id)
unfolding before modified_message_payload
counted-distinct_example =
    counted-distinct cpex tool_call tool_call (tool_call ∷ []) 1
      {edit = correlation_id Operation.tool 1} {edit_later = correlation_id Operation.tool 3}
      {state = tool_state 1} {state_later = tool_state 3} (omega arith) (omega arith) refl refl

before-Prepares_example :
    Prepares cpex
      (str "unedited")
      runtime
      Operation.tool
      (λ id. contents_payload)
      (λ p id. ok id)
      (runtime.hooks Operation.tool)
      (correlation_id Operation.tool 1)
      (correlation_id Operation.tool 1)
      (some (record {
        runtime = runtime;
        context_table = 7;
        name = str "name";
        id = correlation_id Operation.tool 1;
      }))
unfolding before modified_message_payload
before-Prepares_example =
    before-Prepares cpex (str "unedited") runtime Operation.tool (λ id. contents_payload)
      (λ p id. ok id) (str "name") 1 refl

after-Passes_example :
    (passes : Passes cpex (resource_response base64) contents state contents) × ((after cpex
        (resource_response base64)
        contents
        state).0
      ≡ record state { context_table = passes.result.context_table })
unfolding after finish resource_response resource_result_payload modified_message_payload
    resource_result_response str str_eq
after-Passes_example = after-Passes cpex (resource_response base64) contents state refl

after_stream_event-cases_example :
    (((event_result cpex serde (str "event") state).denied ≡ true)
      × (after_stream_event cpex serde (str "event") state ≡ (state, ok none)))
    ⊎ (((event_result cpex serde (str "event") state).denied ≡ false)
        × ((after_stream_event cpex serde (str "event") state).0 ≡ record state {
          context_table = (event_result cpex serde (str "event") state).context_table;
        })
        × IsRelayed cpex serde
            (str "event")
            state
            (after_stream_event cpex serde (str "event") state).1)
after_stream_event-cases_example = after_stream_event-cases cpex serde (str "event") state

tool_response_echo_example :
    (tool_response rmcp cpex).apply_payload result
      (tool_result_payload rmcp (str "name") result (str "id"))
      (str "name")
      (str "id")
    ≡ ok (record result { is_error = some false })
unfolding tool_response
tool_response_echo_example =
    tool_response_echo cpex results_view rmcp result
      (tool_result_payload rmcp (str "name") result (str "id")) (str "name") (str "id")
      (string (str "done")) refl refl refl

event_response_echo_example :
    (event_response cpex serde).apply_payload
      (str "event")
      (tool_json_result_payload (str "name") (string (str "event")) false (str "id"))
      (str "name")
      (str "id")
    ≡ ok (str "event")
unfolding event_response
event_response_echo_example =
    event_response_echo cpex results_view serde (str "event")
      (tool_json_result_payload (str "name") (string (str "event")) false (str "id")) (str "name")
      (str "id") (string (str "event")) refl refl refl

prompt_response-Shows_example :
    (answered : PromptResult) × (cpex.get_prompt_results prompt_payload ≡ answered ∷ [])
    × (answered.is_error ≡ false)
    × (answered.prompt_name ≡ str "name")
    × (answered.prompt_request_id ≡ str "id")
    × AllPairs (Shows values (str "id")) prompt.messages answered.messages
    × (prompt.other_fields ≡ prompt.other_fields)
unfolding prompt_response prompt_result_rejection prompt_result_payload prompt_result_response
    str_eq str apply_edit cmf_prompt_message
prompt_response-Shows_example =
    prompt_response-Shows cpex values prompt prompt prompt_payload (str "name") (str "id") refl

prompt_response_echo_example :
    (prompt_response cpex values).apply_payload prompt prompt_payload (str "name") (str "id")
    ≡ ok prompt
unfolding prompt_response
prompt_response_echo_example =
    prompt_response_echo cpex values values-IsReflexive prompt_view prompt prompt_payload
      (str "name") (str "id") refl

resource_response-shown_example :
    (resource_response base64).to_payload contents (str "name") (str "id")
    ≡ ok (message_payload assistant (map (shown (str "id")) contents_payload.content))
unfolding resource_response resource_result_response str str_eq
resource_response-shown_example =
    resource_response-shown base64 (str "id") base64_encoded (str "name") contents contents
      contents_payload refl

resource_response_echo_example :
    (resource_response base64).apply_payload contents contents_payload (str "name") (str "id")
    ≡ ok contents
unfolding resource_response resource_result_payload str
resource_response_echo_example =
    resource_response_echo base64 (str "id") (str "name") contents contents_payload refl

before_get_prompt-Asks_example :
    Asks cpex values both_empty runtime arguments_request
      (str "name")
      (str "backend")
      (correlation_id Operation.prompt 1)
      unchanged
unfolding before_get_prompt current before modified_message_payload prompt_request_arguments
    prompt_request_payload str_eq str correlation_id id_prefix decimal from_modified
before_get_prompt-Asks_example =
    before_get_prompt-Asks cpex values both_empty both_empty_sound runtime arguments_request
      (str "name") (str "backend") 1
      {hook = record {
        arguments = unchanged;
        state = some (record {
          runtime = runtime;
          context_table = 7;
          name = str "name";
          id = correlation_id Operation.prompt 1;
        });
      }}
      refl

watch-rebuild_initialized_example :
    (
      (watch cpex managers decoders registry.factories wakes watcher).connected,
      (watch cpex managers decoders registry.factories wakes watcher).runtime,
    )
    ≡ rebuild cpex managers decoders registry.factories wakes (watcher.connected, watcher.runtime)
unfolding initialize reload_runtime settle reload_from get_config connection decode
    decode_config_document str cpex_config apply_runtime_config from_config
    validate_gateway_supported_config validate_plugins str_eq start_config_watcher declares
watch-rebuild_initialized_example =
    watch-rebuild_initialized cpex managers decoders true (some (some (str "v1"))) registry watcher
      wakes refl

watch-reload_refuses_example :
    current
      (watch cpex managers decoders tt (poll true (some (some (str "v1"))) ∷ []) (record watcher {
        runtime =
            (reload cpex managers decoders true none
              (record registry { runtime = watcher.runtime })).0.runtime;
      })).runtime
    ≡ err (error internal_error (str "Runtime plugin reload failed"))
unfolding decode decode_config_document str reload reload_runtime reload_from settle get_config
    connection
watch-reload_refuses_example =
    watch-reload_refuses cpex managers decoders true none registry watcher (str "v1")
      (record { document = document; fingerprint = str "v1" })
      (poll true (some (some (str "v1"))) ∷ []) {e = config_store_unavailable} refl refl refl
      (refl, tt)

current-tick_rejects_example :
    current (tick cpex managers decoders tt true none watcher).runtime
    ≡ err (error internal_error (str "Runtime plugin reload failed"))
unfolding load get_config connection
current-tick_rejects_example =
    current-tick_rejects cpex managers decoders tt true none watcher {e = config_store_unavailable}
      watcher-IsCurrent refl
