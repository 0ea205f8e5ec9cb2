-- ===== src/Plugins/Tools/Edits.antt =====
-- The edits of tool results and stream events.
use contextforge_data_plane.Prelude.{
  ◌≡◌, refl, sym, subst, Str, true, false, [], ◌∷◌, Option, none, some, ◌⊎◌, inl, inr, Bool-cases,
  ok, err, ok-inj, Result, Result-cases, ap,
}
use contextforge_data_plane.Gateway.{ErrorData}
use contextforge_data_plane.Json.{Value}
use contextforge_data_plane.Cmf.{tool_role, tool_result, ToolResult, MessagePayload}
use contextforge_data_plane.Plugins.{
  CpexCrate, message_payload, PipelineResult, modified_message_payload,
}
use contextforge_data_plane.Plugins.Mcp.{CallToolResult, RmcpCrate}
use contextforge_data_plane.Plugins.Runtime.{CallState, invoke, apply, apply_edit, post_result}
use contextforge_data_plane.Plugins.Runtime.Hooks.{Passes}
use contextforge_data_plane.Plugins.Tools.{
  flag, value_or_null, Serde, tool_json_result_payload, tool_result_payload, tool_result_response,
  tool_response, if_not_denied, tool_result_content, event_response, after_stream_event,
}

-- A payload with one tool result has that result for its view, and no text.
pub record ViewsResults {M C : Type 0} (cpex : CpexCrate M C) : Type 0 where
  pub results :
      (r : ToolResult)
      → cpex.get_tool_results (message_payload tool_role (tool_result r ∷ [])) ≡ r ∷ []
  pub no_text :
      (r : ToolResult) → cpex.get_text_content (message_payload tool_role (tool_result r ∷ [])) ≡ []

module _ {M C : Type 0} (cpex : CpexCrate M C) (views : ViewsResults cpex) where
  -- A plugin that returns the payload of a tool result as it is leaves the result as it is, except that a
  -- result that does not say whether it is an error says then that it is none: the result is one that `serde`
  -- writes and reads back.
  pub tool_response_echo :
      (rmcp : RmcpCrate) (response : CallToolResult) (payload : MessagePayload) (name id : Str)
      (v : Value)
      → rmcp.result_value response ≡ some v
      → rmcp.value_result v ≡ some response
      → (tool_response rmcp cpex).to_payload response name id ≡ ok payload
      → (tool_response rmcp cpex).apply_payload response payload name id
        ≡ ok (record response { is_error = some (flag response.is_error) })
  unfolding tool_response tool_result_payload tool_json_result_payload tool_result_response
  tool_response_echo rmcp response payload name id v written read h =
      let result : ToolResult = record {
        tool_call_id = id;
        tool_name = name;
        content = v;
        is_error = flag response.is_error;
      } in
      let goal = λ (p : MessagePayload).
        (tool_response rmcp cpex).apply_payload response p name id
        ≡ ok (record response { is_error = some (flag response.is_error) }) in
      subst goal (ok-inj h) (rw (written, views.results result, views.no_text result, read) refl)

  -- A plugin that returns the payload of a stream event as it is leaves the event as it is, if `serde` writes
  -- it and reads it back.
  pub event_response_echo :
      {T : Type 0} (serde : Serde T) (event : T) (payload : MessagePayload) (name id : Str)
      (v : Value)
      → serde.event_value event ≡ some v
      → serde.value_event v ≡ ok event
      → (event_response cpex serde).to_payload event name id ≡ ok payload
      → (event_response cpex serde).apply_payload event payload name id ≡ ok event
  unfolding event_response tool_json_result_payload tool_result_content
  event_response_echo serde event payload name id v written read h =
      let goal = λ (p : MessagePayload).
        (event_response cpex serde).apply_payload event p name id ≡ ok event in
      let result : ToolResult = record {
        tool_call_id = id;
        tool_name = name;
        content = v;
        is_error = false;
      } in
      subst goal (ok-inj h) (rw (written, tool_result_content, views.results result, read) refl)

module _ {M C T : Type 0} (cpex : CpexCrate M C) (serde : Serde T) where
  abbrev pub event_result : T → CallState M C → PipelineResult C
  event_result event state =
      post_result cpex (event_response cpex serde)
        (tool_json_result_payload state.name (value_or_null (serde.event_value event)) false
          state.id)
        state

  -- What the hook makes of an event that it does not deny: the event as it is or its edit is relayed, or the
  -- edit cannot be applied, which is an error.
  abbrev pub IsRelayed : T → CallState M C → Result ErrorData (Option T) → Type 0
  IsRelayed event state outcome =
      ((relayed : T) × (outcome ≡ ok (some relayed))
        × Passes cpex (event_response cpex serde) event state relayed)
      ⊎ ((edited : MessagePayload) × (e : ErrorData) × (modified_message_payload
              (event_result event state)
            ≡ some edited)
          × ((event_response cpex serde).apply_payload event edited state.name state.id ≡ err e)
          × (outcome ≡ err e))

  apply_event-IsRelayed :
      (event : T) (state kept : CallState M C) (modified : Option MessagePayload)
      → modified_message_payload (event_result event state) ≡ modified
      → (event_result event state).denied ≡ false
      → kept.name ≡ state.name
      → kept.id ≡ state.id
      → IsRelayed event state (
          if_not_denied cpex serde false
            (apply_edit cpex (event_response cpex serde) modified event kept))
  unfolding event_response
  apply_event-IsRelayed event state kept none m allowed n i = inl (
    event,
    refl,
    record {
      payload =
          tool_json_result_payload state.name (value_or_null (serde.event_value event)) false
            state.id;
      shown = refl;
      result = event_result event state;
      ran = refl;
      allowed = allowed;
      edit = inl (m, refl);
    },
  )
  apply_event-IsRelayed event state kept (some edited) m allowed n i =
      let applied = (event_response cpex serde).apply_payload event edited kept.name kept.id in
      elim (Result-cases applied) [
        | inl (relayed, e) ↦ inl (
          relayed,
          ap (if_not_denied cpex serde false) e,
          record {
            payload =
                tool_json_result_payload state.name (value_or_null (serde.event_value event)) false
                  state.id;
            shown = refl;
            result = event_result event state;
            ran = refl;
            allowed = allowed;
            edit = inr (edited, m, e);
          },
        )
        | inr (x, e) ↦ inr (edited, x, m, e, ap (if_not_denied cpex serde false) e)
      ]

  -- An event of a tool call's stream: if the post hook's plugins deny it, then no event is left and the
  -- context that the tool's result will see stays as it was. Otherwise the call takes the context that they
  -- left, and the event is relayed as it is if they did not edit it and as their edit if they did; if their
  -- edit cannot be applied, the outcome is that error.
  pub after_stream_event-cases :
      (event : T) (state : CallState M C)
      → (((event_result event state).denied ≡ true)
          × (after_stream_event cpex serde event state ≡ (state, ok none)))
        ⊎ (((event_result event state).denied ≡ false)
            × ((after_stream_event cpex serde event state).0
                ≡ record state { context_table = (event_result event state).context_table })
            × IsRelayed event state (after_stream_event cpex serde event state).1)
  unfolding after_stream_event invoke apply event_response
  after_stream_event-cases event state =
      let result = event_result event state in
      elim (Bool-cases result.denied) [
        | inl denied ↦ inl (denied, rw denied refl)
        | inr allowed ↦ inr (
          allowed,
          rw allowed refl,
          subst
              (λ d. IsRelayed event state (
                if_not_denied cpex serde d (
                  apply_edit cpex (event_response cpex serde) (modified_message_payload result)
                    event (invoke cpex (event_response cpex serde) event state).0)))
              (sym allowed)
              (apply_event-IsRelayed event state _ (modified_message_payload result) refl allowed
                (rw allowed refl) (rw allowed refl)),
        )
      ]
