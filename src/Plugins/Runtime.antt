-- ===== src/Plugins/Runtime.antt =====
-- runtime.rs: the hooks around a call. `before` runs the pre hook and keeps what the post hook needs; the
-- static counter of correlation ids is passed in and out.
pub mod Hooks
pub mod Ids
use contextforge_data_plane.Prelude.{
  ℕ, ◌+◌, ◌%◌, ◌^◌, Str, str, Bool, true, false, not, ◌&&◌, ◌++◌, Option, none, some, if◌then◌else◌,
  Result, ok, err, ◌>>=◌,
}
use contextforge_data_plane.Prelude.Decimal.{decimal}
use contextforge_data_plane.Cmf.{MessagePayload}
use contextforge_data_plane.Gateway.{ErrorData, ArgumentsUpdate, PreHookResult}
use contextforge_data_plane.Plugins.{
  Operation, subject, id_prefix, PipelineResult, CpexCrate, modified_message_payload,
  plugin_denied_error, CmfResponse,
}

pub record HookPair : Type 0 where
  pub pre : Bool
  pub post : Bool

pub record GatewayPluginRuntime (M : Type 0) : Type 0 where
  pub manager : M
  pub hooks : Operation → HookPair

pub record CallState (M C : Type 0) : Type 0 where
  pub runtime : GatewayPluginRuntime M
  pub context_table : C
  pub name : Str
  pub id : Str

-- `fetch_add` on an `AtomicU64`.
abbrev pub fetch_add : ℕ → ℕ
fetch_add counter = (counter + 1) % 2 ^ 64

unfoldable pub correlation_id : Operation → ℕ → Str
correlation_id operation counter = id_prefix operation ++ str "-" ++ decimal counter

module _ {M C : Type 0} (cpex : CpexCrate M C) where
  module _ {U : Type 0} (default : U) (runtime : GatewayPluginRuntime M) (operation : Operation)
      (payload : Str → MessagePayload) (update : MessagePayload → Str → Result ErrorData U) where
    abbrev pub apply_update : Str → Option MessagePayload → Result ErrorData U
    apply_update id none = ok default
    apply_update id (some modified) = update modified id

    -- The pre hook: a denial is an error, an edit goes through `update`.
    unfoldable pub run_pre_hook : Str → Result ErrorData (U × C)
    run_pre_hook id =
        let result =
          cpex.invoke_named runtime.manager (cpex.pre_hook operation) (payload id) none in
        if result.denied then err (plugin_denied_error (subject operation) result) else do
          edit ← apply_update id (modified_message_payload result)
          ok (edit, result.context_table)

    abbrev pub call_state : Bool → Str → Str → C → Option (CallState M C)
    call_state post name id table =
        if post
        then some (record { runtime = runtime; context_table = table; name = name; id = id })
        else none

    abbrev pub run_hooks :
        HookPair → Str → Str → ℕ → ℕ × Result ErrorData (U × Option (CallState M C))
    run_hooks hooks name id counter =
        if not hooks.pre && not hooks.post then (counter, ok (default, none)) else (
          fetch_add counter,
          do
            r ← (if hooks.pre then run_pre_hook id else ok (default, cpex.empty_table))
            ok (r.0, call_state hooks.post name id r.1),
        )

    -- The edit, and the state for the post hook; beside them, the counter.
    unfoldable pub before : Str → ℕ → ℕ × Result ErrorData (U × Option (CallState M C))
    unfolding run_pre_hook
    before name counter =
        run_hooks (runtime.hooks operation) name (correlation_id operation counter) counter

  module _ {T : Type 0} (response : CmfResponse T) where
    abbrev pub post_result : MessagePayload → CallState M C → PipelineResult C
    post_result payload state =
        cpex.invoke_named state.runtime.manager (cpex.post_hook response.operation) payload
          (some state.context_table)

    abbrev keep_context : PipelineResult C → CallState M C → CallState M C
    keep_context result state =
        if result.denied then state else record state { context_table = result.context_table }

    abbrev pub run_post_hook :
        Result ErrorData MessagePayload
        → CallState M C
        → CallState M C × Result ErrorData (PipelineResult C)
    run_post_hook (err e) state = (state, err e)
    run_post_hook (ok payload) state =
        let result = post_result payload state in (keep_context result state, ok result)

    -- The post hook: its context is kept when the plugins do not deny.
    unfoldable pub invoke : T → CallState M C → CallState M C × Result ErrorData (PipelineResult C)
    invoke value state = run_post_hook (response.to_payload value state.name state.id) state

    abbrev pub apply_edit : Option MessagePayload → T → CallState M C → Result ErrorData T
    apply_edit none value state = ok value
    apply_edit (some payload) value state = response.apply_payload value payload state.name state.id

    unfoldable pub apply : T → PipelineResult C → CallState M C → Result ErrorData T
    apply value result state = apply_edit (modified_message_payload result) value state

    unfoldable pub finish :
        T → CallState M C × Result ErrorData (PipelineResult C) → CallState M C × Result ErrorData T
    unfolding apply
    finish value (state, outcome) = (
      state,
      do
        result ← outcome
        if result.denied
            then err (plugin_denied_error (subject response.operation) result)
            else apply value result state,
    )

    unfoldable pub after : T → CallState M C → CallState M C × Result ErrorData T
    unfolding invoke
    after value state = finish value (invoke value state)

-- The outcome of `before` as the argument edits and the state of a `PreHookResult`.
abbrev pub pre_hook_result :
    {S : Type 0}
    → ℕ × Result ErrorData (ArgumentsUpdate × Option S)
    → ℕ × Result ErrorData (PreHookResult S)
pre_hook_result (counter, err e) = (counter, err e)
pre_hook_result (counter, ok (arguments, state)) =
    (counter, ok (record { arguments = arguments; state = state }))
