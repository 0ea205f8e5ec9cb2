-- ===== src/Plugins/Requests.antt =====
-- What the hooks before a request let through: the arguments and the URI that go to the backend.
use contextforge_data_plane.Prelude.{
  ℕ, ◌≡◌, refl, sym, ap, subst, Str, str_eq, str_eq_iff, Bool, true, false, not, ◌||◌, [], ◌∷◌,
  Option, none, some, ◌⊎◌, inl, inr, Bool-cases, Result, ok, err, ok-inj, bind-eq-ok, ok_or,
  ok_or-eq-ok, arith,
}
use contextforge_data_plane.Prelude.Maybe.{bind-eq-some, some-inj, return_none-eq-some}
use contextforge_data_plane.Json.{Fields, end, of_entries}
use contextforge_data_plane.Cmf.{MessagePayload, PromptRequest}
use contextforge_data_plane.Gateway.{
  ErrorData, ArgumentsUpdate, unchanged, apply_to, NamedRequest, PreHookResult,
}
use contextforge_data_plane.Plugins.{
  arguments_of, Operation, PipelineResult, CpexCrate, modified_message_payload, from_modified,
}
use contextforge_data_plane.Plugins.Runtime.{
  GatewayPluginRuntime, CallState, correlation_id, before, pre_hook_result,
}
use contextforge_data_plane.Plugins.Runtime.Hooks.{pre_result, before-Prepares}
use contextforge_data_plane.Plugins.Registry.{active, current}
use contextforge_data_plane.Plugins.Prompts.{
  MessageJson, single, is_backend, prompt_request_payload, prompt_request_arguments, prompt_update,
  before_get_prompt,
}
use contextforge_data_plane.Plugins.Prompts.Edits.{single-eq}

-- The arguments that the backend gets are those that the plugin returned.
from_modified-apply_to :
    (same_fields : Fields → Fields → Bool) (original : Option Fields) (modified : Fields)
    → ((a b : Fields) → same_fields a b ≡ true → a ≡ b)
    → arguments_of (apply_to (from_modified same_fields original modified) original) ≡ modified
unfolding from_modified
from_modified-apply_to same (some a) m sound = elim (Bool-cases (same a m)) [
  | inl e ↦ rw e (sound a m e)
  | inr e ↦ rw e refl
]
from_modified-apply_to same none end sound = refl
from_modified-apply_to same none (Fields.field k v fs) sound = refl

module _ {M C : Type 0} (cpex : CpexCrate M C) (json : MessageJson)
    (same_fields : Fields → Fields → Bool) where
  -- The plugin's edit of a prompt request is for the same prompt, backend and correlation id.
  pub record EditsRequest (edited : MessagePayload) (prompt_name backend_name id : Str)
      (arguments : Fields) : Type 0 where
    pub edit : PromptRequest
    pub only : cpex.get_prompt_requests edited ≡ edit ∷ []
    pub same_name : edit.name ≡ prompt_name
    pub same_id : edit.prompt_request_id ≡ id
    pub same_backend : edit.server_id ≡ some backend_name
    pub asked : arguments ≡ of_entries edit.arguments

  is_backend-eq :
      (server : Option Str) (name : Str) → is_backend server name ≡ true → server ≡ some name
  is_backend-eq none name h = absurd cc
  is_backend-eq (some s) name h = ap some ((str_eq_iff s name).0 h)

  prompt_request_arguments-EditsRequest :
      (edited : MessagePayload) (prompt_name backend_name id : Str) {arguments : Fields}
      → prompt_request_arguments cpex json edited prompt_name backend_name id ≡ some arguments
      → EditsRequest edited prompt_name backend_name id arguments
  unfolding prompt_request_arguments
  prompt_request_arguments-EditsRequest edited prompt_name backend_name id h =
      let (edit, one, h1) = bind-eq-some (single (cpex.get_prompt_requests edited)) _ h in
      let (checks, made) =
        return_none-eq-some
          (not (str_eq edit.name prompt_name)
            || not (str_eq edit.prompt_request_id id)
            || not (is_backend edit.server_id backend_name))
          _ h1 in
      let name_same = (str_eq_iff edit.name prompt_name).0 (ground arith) in
      let id_same = (str_eq_iff edit.prompt_request_id id).0 (ground arith) in
      record {
        edit = edit;
        only = single-eq _ one;
        same_name = name_same;
        same_id = id_same;
        same_backend = is_backend-eq edit.server_id backend_name (ground arith);
        asked = sym (some-inj made);
      }

  abbrev pub request_result :
      GatewayPluginRuntime M → NamedRequest → (prompt_name backend_name id : Str) → PipelineResult C
  request_result runtime request prompt_name backend_name id =
      pre_result cpex unchanged runtime Operation.prompt
        (prompt_request_payload request prompt_name backend_name)
        (prompt_update cpex json same_fields request prompt_name backend_name) id

  -- What the hooks before a prompt is fetched ask for.
  pub record Asks (runtime : GatewayPluginRuntime M) (request : NamedRequest)
      (prompt_name backend_name id : Str) (update : ArgumentsUpdate) : Type 0 where
    pub origin :
        (update ≡ unchanged)
        ⊎ ((arguments : Fields) × ((request_result runtime request prompt_name backend_name
                id).denied
              ≡ false)
            × ((edited : MessagePayload) × (modified_message_payload
                    (request_result runtime request prompt_name backend_name id)
                  ≡ some edited)
                × EditsRequest edited prompt_name backend_name id arguments)
            × (arguments_of (apply_to update request.arguments) ≡ arguments))

  module _ (sound : (a b : Fields) → same_fields a b ≡ true → a ≡ b) where
    update-EditsRequest :
        (request : NamedRequest) (edited : MessagePayload) (prompt_name backend_name id : Str)
        {update : ArgumentsUpdate}
        → prompt_update cpex json same_fields request prompt_name backend_name edited id ≡ ok update
        → (arguments : Fields) × EditsRequest edited prompt_name backend_name id arguments
          × (arguments_of (apply_to update request.arguments) ≡ arguments)
    update-EditsRequest request edited prompt_name backend_name id h =
        let (arguments, found, same) =
          bind-eq-ok
            (ok_or _ (prompt_request_arguments cpex json edited prompt_name backend_name id)) _ h in
        let asked = ok_or-eq-ok _ _ found in
        (
          arguments,
          prompt_request_arguments-EditsRequest edited prompt_name backend_name id asked,
          subst (λ u. arguments_of (apply_to u request.arguments) ≡ arguments) (ok-inj same)
              (from_modified-apply_to same_fields request.arguments arguments sound),
        )

    hook_result-Asks :
        (runtime : GatewayPluginRuntime M) (request : NamedRequest) (prompt_name backend_name : Str)
        (id : Str) (run : ℕ × Result ErrorData (ArgumentsUpdate × Option (CallState M C)))
        {hook : PreHookResult (CallState M C)}
        → ((update : ArgumentsUpdate) (call : Option (CallState M C))
            → run.1 ≡ ok (update, call)
            → Asks runtime request prompt_name backend_name id update)
        → (pre_hook_result run).1 ≡ ok hook
        → Asks runtime request prompt_name backend_name id hook.arguments
    hook_result-Asks runtime request prompt_name backend_name id (counter, err e) f h = absurd cc
    hook_result-Asks runtime request prompt_name backend_name id (counter, ok (update, call)) f h =
        subst (λ a. Asks runtime request prompt_name backend_name id a.arguments) (ok-inj h)
          (f update call refl)

    -- If the map equality that the code uses is sound, and the hooks before a prompt is fetched let the
    -- request go on, then its arguments are unchanged, or the pre hook's plugins did not deny it and returned
    -- exactly one prompt request, for the same prompt, backend and correlation id, and the backend gets that
    -- request's arguments.
    pub before_get_prompt-Asks :
        (runtime : GatewayPluginRuntime M) (request : NamedRequest) (prompt_name backend_name : Str)
        (counter : ℕ) {hook : PreHookResult (CallState M C)}
        → (before_get_prompt cpex json same_fields
            (active runtime)
            request
            prompt_name
            backend_name
            counter).1
          ≡ ok hook
        → Asks runtime request prompt_name backend_name
            (correlation_id Operation.prompt counter)
            hook.arguments
    unfolding before_get_prompt current
    before_get_prompt-Asks runtime request prompt_name backend_name counter h =
        let run =
          before cpex unchanged runtime Operation.prompt
            (prompt_request_payload request prompt_name backend_name)
            (prompt_update cpex json same_fields request prompt_name backend_name) prompt_name
            counter in
        hook_result-Asks runtime request prompt_name backend_name _ run
          (λ update call e.
            let prepared =
              before-Prepares cpex unchanged runtime Operation.prompt _ _ prompt_name counter e in
            record {
              origin = elim prepared.origin [
                | inl unedited ↦ inl unedited
                | inr (edited, _, allowed, found, updated) ↦
                    let (arguments, edits, gets) =
                      update-EditsRequest request edited prompt_name backend_name _ updated in
                    inr (arguments, allowed, (edited, found, edits), gets)
              ];
            })
          h
