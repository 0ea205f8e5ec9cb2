-- ===== src/Plugins/Runtime/Hooks.antt =====
-- What the hooks around a call let through.
use contextforge_data_plane.Prelude.{
  ℕ, ◌<◌, ◌^◌, ◌≡◌, refl, sym, ap, ◌∙◌, Str, str, Bool, true, false, [], ◌∷◌, Option, none, some,
  ◌⊎◌, inl, inr, if◌then◌else◌, Result, ok, err, bind-eq-ok, return_err-eq-ok, ok-inj, arith, drop,
}
use contextforge_data_plane.Prelude.Decimal.{decimal, decimal-inj}
use contextforge_data_plane.Cmf.{MessagePayload}
use contextforge_data_plane.Gateway.{ErrorData}
use contextforge_data_plane.Plugins.{
  Operation, id_prefix, PipelineResult, CpexCrate, modified_message_payload, CmfResponse,
}
use contextforge_data_plane.Plugins.Runtime.{
  HookPair, GatewayPluginRuntime, CallState, correlation_id, run_pre_hook, before, invoke, apply,
  after, call_state, run_hooks, apply_update, apply_edit, finish, run_post_hook, post_result,
}

-- The ninth letter of an id tells its operation.
letter : Str → ℕ
letter s = elim (drop 8 s) [ [] ↦ 0 | b ∷ _ ↦ b ]

-- Ids tell apart the operations and the numbers.
pub correlation_id-inj :
    (o p : Operation) (n k : ℕ)
    → n < 2 ^ 64
    → k < 2 ^ 64
    → correlation_id o n ≡ correlation_id p k
    → (o ≡ p) × (n ≡ k)
unfolding correlation_id id_prefix letter decimal str
correlation_id-inj Operation.tool Operation.tool n k hn hk e =
    (refl, decimal-inj n k hn hk (ap (drop 18) e))
correlation_id-inj Operation.prompt Operation.prompt n k hn hk e =
    (refl, decimal-inj n k hn hk (ap (drop 23) e))
correlation_id-inj Operation.resource Operation.resource n k hn hk e =
    (refl, decimal-inj n k hn hk (ap (drop 25) e))
correlation_id-inj Operation.tool Operation.prompt n k hn hk e =
    absurd (let l = ap letter e in omega arith)
correlation_id-inj Operation.tool Operation.resource n k hn hk e =
    absurd (let l = ap letter e in omega arith)
correlation_id-inj Operation.prompt Operation.tool n k hn hk e =
    absurd (let l = ap letter e in omega arith)
correlation_id-inj Operation.prompt Operation.resource n k hn hk e =
    absurd (let l = ap letter e in omega arith)
correlation_id-inj Operation.resource Operation.tool n k hn hk e =
    absurd (let l = ap letter e in omega arith)
correlation_id-inj Operation.resource Operation.prompt n k hn hk e =
    absurd (let l = ap letter e in omega arith)

module _ {M C : Type 0} (cpex : CpexCrate M C) where
  module _ {T : Type 0} (response : CmfResponse T) where
    -- What the post hook says of a response that is passed on.
    pub record Passes (value : T) (state : CallState M C) (passed : T) : Type 0 where
      pub payload : MessagePayload
      pub shown : response.to_payload value state.name state.id ≡ ok payload
      pub result : PipelineResult C
      pub ran :
          cpex.invoke_named state.runtime.manager
            (cpex.post_hook response.operation)
            payload
            (some state.context_table)
          ≡ result
      pub allowed : result.denied ≡ false
      pub edit :
          ((modified_message_payload result ≡ none) × (passed ≡ value))
          ⊎ ((edited : MessagePayload) × (modified_message_payload result ≡ some edited)
              × (response.apply_payload value edited state.name state.id ≡ ok passed))

    pub edit-cases :
        (modified : Option MessagePayload) (value : T) (state kept : CallState M C) {passed : T}
        → kept.name ≡ state.name
        → kept.id ≡ state.id
        → apply_edit cpex response modified value kept ≡ ok passed
        → ((modified ≡ none) × (passed ≡ value))
          ⊎ ((edited : MessagePayload) × (modified ≡ some edited)
              × (response.apply_payload value edited state.name state.id ≡ ok passed))
    edit-cases none value state kept n i h = inl (refl, sym (ok-inj h))
    edit-cases (some edited) value state kept n i h = inr (edited, refl, rw (← n, ← i) h)

    shown-Passes :
        (payload : Result ErrorData MessagePayload) (value : T) (state : CallState M C) {passed : T}
        → response.to_payload value state.name state.id ≡ payload
        → (finish cpex response value (run_post_hook cpex response payload state)).1 ≡ ok passed
        → (passes : Passes value state passed) × ((finish cpex response value
              (run_post_hook cpex response payload state)).0
            ≡ record state { context_table = passes.result.context_table })
    unfolding apply finish
    shown-Passes (err e) value state f h = absurd cc
    shown-Passes (ok payload) value state f h =
        let result = post_result cpex response payload state in
        let (allowed, applied) = return_err-eq-ok result.denied _ _ h in
        (
          record {
            payload = payload;
            shown = f;
            result = result;
            ran = refl;
            allowed = allowed;
            edit =
                edit-cases (modified_message_payload result) value state _ (rw allowed refl)
                  (rw allowed refl) applied;
          },
          rw allowed refl,
        )

    -- A response is passed on only if the post hook's plugins ran on what they are shown of it and did not
    -- deny it; it is the response as it was if they did not edit it, and the applied edit if they did. The
    -- call then keeps its name, its id and its runtime, and has the context that the plugins left.
    pub after-Passes :
        (value : T) (state : CallState M C) {passed : T}
        → (after cpex response value state).1 ≡ ok passed
        → (passes : Passes value state passed) × ((after cpex response value state).0
            ≡ record state { context_table = passes.result.context_table })
    unfolding after invoke
    after-Passes value state h =
        shown-Passes (response.to_payload value state.name state.id) value state refl h

abbrev pub call_id : {M C : Type 0} → Option (CallState M C) → Option Str
call_id none = none
call_id (some call) = some call.id

module _ {M C : Type 0} (cpex : CpexCrate M C) {U : Type 0} (default : U)
    (runtime : GatewayPluginRuntime M) (operation : Operation) (payload : Str → MessagePayload)
    (update : MessagePayload → Str → Result ErrorData U) where
  abbrev pub pre_result : Str → PipelineResult C
  pre_result id = cpex.invoke_named runtime.manager (cpex.pre_hook operation) (payload id) none

  -- What the pre hook says of a call that goes on.
  pub record Prepares (hooks : HookPair) (id : Str) (edit : U) (call : Option (CallState M C))
      : Type 0 where
    pub origin :
        (edit ≡ default)
        ⊎ ((edited : MessagePayload) × (hooks.pre ≡ true)
            × ((pre_result id).denied ≡ false)
            × (modified_message_payload (pre_result id) ≡ some edited)
            × (update edited id ≡ ok edit))
    pub captured : call_id call ≡ (if hooks.post then some id else none)

  update-origin :
      (id : Str) (modified : Option MessagePayload) {edit : U}
      → apply_update cpex default runtime operation payload update id modified ≡ ok edit
      → (edit ≡ default)
        ⊎ ((edited : MessagePayload) × (modified ≡ some edited) × (update edited id ≡ ok edit))
  update-origin id none h = inl (sym (ok-inj h))
  update-origin id (some edited) h = inr (edited, refl, h)

  call_state-id :
      (post : Bool) (name id : Str) (table : C)
      → call_id (call_state cpex default runtime operation payload update post name id table)
        ≡ (if post then some id else none)
  call_state-id true name id table = refl
  call_state-id false name id table = refl

  run_hooks-Prepares :
      (pre post : Bool) (name id : Str) (counter : ℕ) {edit : U} {call : Option (CallState M C)}
      → (run_hooks cpex default runtime operation payload update
          (record { pre = pre; post = post })
          name
          id
          counter).1
        ≡ ok (edit, call)
      → Prepares (record { pre = pre; post = post }) id edit call
  unfolding run_pre_hook
  run_hooks-Prepares false false name id counter h = record {
    origin = inl (sym (ap (λ p. p.0) (ok-inj h)));
    captured = ap (λ p. call_id p.1) (sym (ok-inj h));
  }
  run_hooks-Prepares false true name id counter h = record {
    origin = inl (sym (ap (λ p. p.0) (ok-inj h)));
    captured = ap (λ p. call_id p.1) (sym (ok-inj h));
  }
  run_hooks-Prepares true post name id counter h =
      let (r, ran, same) =
        bind-eq-ok (run_pre_hook cpex default runtime operation payload update id) _ h in
      let (allowed, applied) = return_err-eq-ok (pre_result id).denied _ _ ran in
      let (u, updated, made) =
        bind-eq-ok
          (apply_update cpex default runtime operation payload update id
            (modified_message_payload (pre_result id)))
          _ applied in
      let edit_same = ap (λ p. p.0) (ok-inj made) ∙ ap (λ p. p.0) (ok-inj same) in
      record {
        origin = elim (update-origin id _ (updated ∙ ap ok edit_same)) [
          | inl unedited ↦ inl unedited
          | inr (edited, found, asked) ↦ inr (edited, refl, allowed, found, asked)
        ];
        captured = ap (λ p. call_id p.1) (sym (ok-inj same)) ∙ call_state-id post name id r.1;
      }

  -- If the hooks before a call let it go on, then the edit of the call is none or the one that the pre hook's
  -- plugins ask for without denying the call, and a state is captured for the post hook exactly if the
  -- runtime has one, under the correlation id that the pre hook saw.
  pub before-Prepares :
      (name : Str) (counter : ℕ) {edit : U} {call : Option (CallState M C)}
      → (before cpex default runtime operation payload update name counter).1 ≡ ok (edit, call)
      → Prepares (runtime.hooks operation) (correlation_id operation counter) edit call
  unfolding before
  before-Prepares name counter h =
      run_hooks-Prepares (runtime.hooks operation).pre (runtime.hooks operation).post name _ counter
        h
