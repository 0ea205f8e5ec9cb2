-- ===== src/Plugins/Prompts/Edits.antt =====
-- The edits of a prompt's messages: what is applied shows the plugin's payload, and an echo changes nothing.
use contextforge_data_plane.Prelude.{
  ◌≡◌, refl, sym, ap, Str, str_eq, str_eq_iff, str_eq_refl, Bool, true, false, not, ◌||◌, List, [],
  ◌∷◌, map, Option, none, some, if◌then◌else◌, ◌==◌, ==_iff, length, ok, ok_or-eq-ok, ok-inj,
  length-map, arith, subst,
}
use contextforge_data_plane.Prelude.Maybe.{bind-eq-some, some-inj, return_none-eq-some}
use contextforge_data_plane.Json.{Value}
use contextforge_data_plane.Cmf.{assistant, prompt_result, Message, of_messages, MessagePayload}
use contextforge_data_plane.Plugins.{CpexCrate, PromptResult, message_payload}
use contextforge_data_plane.Plugins.Mcp.{PromptMessage, GetPromptResult}
use contextforge_data_plane.Plugins.Prompts.{
  MessageJson, single, mcp_prompt_message, is_some, cmf_prompt_message, rebuild, apply_edit,
  apply_edits, prompt_result_payload, prompt_result_rejection, prompt_result_response,
  prompt_response, unless_rejected,
}

abbrev pub AllPairs : {A B : Type 0} → (A → B → Type 0) → List A → List B → Type 0
AllPairs R [] [] = Unit {0}
AllPairs R (x ∷ xs) (y ∷ ys) = R x y × AllPairs R xs ys
AllPairs R _ _ = ⊥

pub single-eq : {A : Type 0} (xs : List A) {x : A} → single xs ≡ some x → xs ≡ x ∷ []
single-eq [] h = absurd cc
single-eq (y ∷ []) h = cc
single-eq (y ∷ z ∷ xs) h = absurd cc

module _ (json : MessageJson) (id : Str) where
  -- A message of the result has, for a plugin, the JSON value of the edited message.
  pub record Shows (message : PromptMessage) (edited : Message) : Type 0 where
    pub value : Value
    pub expected : Value
    pub shown : json.message_value (cmf_prompt_message message id) ≡ some value
    pub wanted : json.message_value edited ≡ some expected
    pub same : json.value_eq value expected ≡ true

  chosen-Shows :
      (c : Bool) (edited : Message) {message : PromptMessage} {other : Option PromptMessage}
      {applied : PromptMessage}
      → (c ≡ true → Shows message edited)
      → ((r : PromptMessage) → other ≡ some r → Shows r edited)
      → (if c then some message else other) ≡ some applied
      → Shows applied edited
  chosen-Shows true edited f g h = subst (λ a. Shows a edited) (some-inj h) (f refl)
  chosen-Shows false edited f g h = g _ h

  rebuild-Shows :
      (edited : Message) {message : PromptMessage}
      → rebuild json id edited ≡ some message
      → Shows message edited
  unfolding rebuild
  rebuild-Shows edited h =
      let (rebuilt, _, h1) = bind-eq-some (mcp_prompt_message edited) _ h in
      let (v, shown, h2) = bind-eq-some (json.message_value (cmf_prompt_message rebuilt id)) _ h1 in
      let (w, wanted, h3) = bind-eq-some (json.message_value edited) _ h2 in
      chosen-Shows (json.value_eq v w) edited
        (λ e. record { value = v; expected = w; shown = shown; wanted = wanted; same = e })
        (λ r e. absurd cc) h3

  apply_edit-Shows :
      (message : PromptMessage) (edited : Message) {applied : PromptMessage}
      → apply_edit json id message edited ≡ some applied
      → Shows applied edited
  unfolding apply_edit
  apply_edit-Shows message edited h =
      let (v, shown, h1) = bind-eq-some (json.message_value (cmf_prompt_message message id)) _ h in
      let (w, wanted, h2) = bind-eq-some (json.message_value edited) _ h1 in
      chosen-Shows (json.value_eq v w) edited
        (λ e. record { value = v; expected = w; shown = shown; wanted = wanted; same = e })
        (λ r e. rebuild-Shows edited e) h2

  apply_edits-Shows :
      (messages : List PromptMessage) (edits : List Message) {applied : List PromptMessage}
      → length edits ≡ length messages
      → apply_edits json id messages edits ≡ some applied
      → AllPairs Shows applied edits
  unfolding apply_edits
  apply_edits-Shows [] [] n h = subst (λ a. AllPairs Shows a []) (some-inj h) tt
  apply_edits-Shows [] (e ∷ es) n h = absurd (omega arith)
  apply_edits-Shows (m ∷ ms) [] n h = absurd (omega arith)
  apply_edits-Shows (m ∷ ms) (e ∷ es) n h =
      let (applied, shows, h1) = bind-eq-some (apply_edit json id m e) _ h in
      let (rest, r, made) = bind-eq-some (apply_edits json id ms es) _ h1 in
      subst (λ a. AllPairs Shows a (e ∷ es)) (some-inj made)
        (apply_edit-Shows m e shows, apply_edits-Shows ms es (omega arith) r)

-- A message has a JSON value, which equals itself.
pub record IsReflexive (json : MessageJson) : Type 0 where
  pub value_of : Message → Value
  pub has_value : (m : Message) → json.message_value m ≡ some (value_of m)
  pub same : (v : Value) → json.value_eq v v ≡ true

module _ (json : MessageJson) (laws : IsReflexive json) (id : Str) where
  apply_edit_echo :
      (message : PromptMessage)
      → apply_edit json id message (cmf_prompt_message message id) ≡ some message
  unfolding apply_edit
  apply_edit_echo message =
      rw (laws.has_value (cmf_prompt_message message id), laws.same (laws.value_of _)) refl

  apply_edits_echo :
      (messages : List PromptMessage)
      → apply_edits json id messages (map (λ m. cmf_prompt_message m id) messages) ≡ some messages
  unfolding apply_edits
  apply_edits_echo [] = refl
  apply_edits_echo (m ∷ ms) = rw (apply_edit_echo m, apply_edits_echo ms) refl

module _ {M C : Type 0} (cpex : CpexCrate M C) (json : MessageJson) where
  unless_rejected-eq-ok :
      (rejection : Option Str) (applied : Option GetPromptResult) {edited : GetPromptResult}
      → unless_rejected cpex json rejection applied ≡ ok edited
      → (rejection ≡ none) × (applied ≡ some edited)
  unless_rejected-eq-ok (some message) applied h = absurd cc
  unless_rejected-eq-ok none applied h = (refl, ok_or-eq-ok _ applied h)

  rejection-is_error :
      (payload : MessagePayload) (result : PromptResult)
      → single (cpex.get_prompt_results payload) ≡ some result
      → prompt_result_rejection cpex json payload ≡ none
      → result.is_error ≡ false
  unfolding prompt_result_rejection
  rejection-is_error payload result one h = ground arith

  -- If an edited payload is applied to a prompt, then the payload has exactly one prompt result, which the
  -- plugin did not mark as an error; the new prompt shows exactly that result's messages, in its order, to
  -- a plugin; and the other fields are those of the prompt.
  pub prompt_response-Shows :
      (response edited : GetPromptResult) (payload : MessagePayload) (name id : Str)
      → (prompt_response cpex json).apply_payload response payload name id ≡ ok edited
      → (result : PromptResult) × (cpex.get_prompt_results payload ≡ result ∷ [])
        × (result.is_error ≡ false)
        × (result.prompt_name ≡ name)
        × (result.prompt_request_id ≡ id)
        × AllPairs (Shows json id) edited.messages result.messages
        × (edited.other_fields ≡ response.other_fields)
  unfolding prompt_response prompt_result_response
  prompt_response-Shows response edited payload name id h =
      let (rejection, applied) = unless_rejected-eq-ok _ _ h in
      let (result, one, h1) = bind-eq-some (single (cpex.get_prompt_results payload)) _ applied in
      let (checks, h2) =
        return_none-eq-some
          (not (str_eq result.prompt_name name)
            || not (str_eq result.prompt_request_id id)
            || is_some result.content
            || is_some result.error_message)
          _ h1 in
      let (lengths, h3) =
        return_none-eq-some (not (length result.messages == length response.messages)) _ h2 in
      let (messages, edits, made) =
        bind-eq-some (apply_edits json id response.messages result.messages) _ h3 in
      let shows =
        apply_edits-Shows json id response.messages result.messages (ground arith) edits in
      let name_same = (str_eq_iff result.prompt_name name).0 (ground arith) in
      let id_same = (str_eq_iff result.prompt_request_id id).0 (ground arith) in
      (
        result,
        single-eq _ one,
        rejection-is_error payload result one rejection,
        name_same,
        id_same,
        subst (λ e. AllPairs (Shows json id) e.messages result.messages) (some-inj made) shows,
        ap (λ e. e.other_fields) (sym (some-inj made)),
      )

  module _ (laws : IsReflexive json)
      (view : (r : PromptResult)
        → cpex.get_prompt_results (
            message_payload assistant (
              prompt_result r.prompt_request_id r.prompt_name
                (of_messages r.messages)
                r.content
                r.is_error
                r.error_message
              ∷ []))
          ≡ r ∷ []) where
    -- If a message's JSON value equals itself, and the view of a payload with one prompt result is that
    -- result, then a plugin that returns the payload of a prompt as it is leaves the prompt as it is.
    pub prompt_response_echo :
        (response : GetPromptResult) (payload : MessagePayload) (name id : Str)
        → (prompt_response cpex json).to_payload response name id ≡ ok payload
        → (prompt_response cpex json).apply_payload response payload name id ≡ ok response
    unfolding prompt_response prompt_result_payload prompt_result_rejection prompt_result_response
    prompt_response_echo response payload name id h =
        let shown = map (λ m. cmf_prompt_message m id) response.messages in
        let result : PromptResult = record {
          prompt_request_id = id;
          prompt_name = name;
          messages = shown;
          content = none;
          is_error = false;
          error_message = none;
        } in
        let lengths =
          (==_iff (length shown) (length response.messages)).1 (length-map _ response.messages) in
        subst (λ p. (prompt_response cpex json).apply_payload response p name id ≡ ok response)
          (ok-inj h)
          (rw
            (
              view result,
              str_eq_refl name,
              str_eq_refl id,
              lengths,
              apply_edits_echo json laws id response.messages,
            )
            refl)
