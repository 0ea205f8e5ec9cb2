-- ===== src/Gateway/Progress/Relay.antt =====
-- When a progress notification is relayed.
use contextforge_data_plane.Prelude.{
  Result-cases, Option-cases, Bool-cases, str_eq_iff, err, subst, sym, ◌⊎◌, inl, inr, Str, str_eq,
  ◌≡◌, refl, ap, ◌∙◌, Bool, true, false, Option, none, some, if◌then◌else◌, Result, ok,
}
use contextforge_data_plane.Prelude.Map.{Map, lookup, insert, remove, lookup-insert, lookup-remove}
use contextforge_data_plane.Gateway.{ErrorData}
use contextforge_data_plane.Gateway.Progress.{
  stream_event_post_hook, InFlightToolCall, Progress, start_tool_call, stop_tracking_tool_call,
  progress_call, forward, on_progress,
}

module _ {S : Type 0} (after : S → Progress → Result ErrorData (Option Progress)) where
  abbrev relayed : Progress → Option (InFlightToolCall S) → Option (Str × Progress)
  relayed p none = none
  relayed p (some call) = forward after p call

  on_progress-lookup :
      (calls : Map (InFlightToolCall S)) (p : Progress)
      → on_progress after calls p ≡ relayed p (lookup p.progress_token calls)
  unfolding on_progress progress_call
  on_progress-lookup calls p = refl

  relayed-if :
      (p : Progress) (b : Bool) (m n : Option (InFlightToolCall S))
      → relayed p (if b then m else n) ≡ (if b then relayed p m else relayed p n)
  relayed-if p true m n = refl
  relayed-if p false m n = refl

  on_progress-insert :
      (t : Str) (call : InFlightToolCall S) (calls : Map (InFlightToolCall S)) (p : Progress)
      → on_progress after (insert t call calls) p
        ≡ (if str_eq t p.progress_token then forward after p call else on_progress after calls p)
  unfolding on_progress progress_call
  on_progress-insert t call calls p =
      ap (relayed p) (lookup-insert t p.progress_token call calls)
      ∙ relayed-if p (str_eq t p.progress_token) (some call) (lookup p.progress_token calls)

  on_progress-remove :
      (t : Str) (calls : Map (InFlightToolCall S)) (p : Progress)
      → on_progress after (remove t calls) p
        ≡ (if str_eq t p.progress_token then none else on_progress after calls p)
  unfolding on_progress progress_call
  on_progress-remove t calls p =
      ap (relayed p) (lookup-remove t p.progress_token calls)
      ∙ relayed-if p (str_eq t p.progress_token) none (lookup p.progress_token calls)

  stopped :
      (t : Str) (calls : Map (InFlightToolCall S)) (p : Progress)
      → on_progress after (stop_tracking_tool_call t calls) p
        ≡ (if str_eq t p.progress_token then none else on_progress after calls p)
  unfolding stop_tracking_tool_call
  stopped t calls p = on_progress-remove t calls p

  tracked-insert :
      (t token downstream : Str) (post_state : Option S) (calls tracked : Map (InFlightToolCall S))
      → start_tool_call (ok t) (some token) downstream post_state calls ≡ ok (t, tracked)
      → tracked
        ≡ insert t
            (record {
              downstream_progress_token = token;
              post_state = post_state;
              downstream = downstream;
            })
            calls
  unfolding start_tool_call
  tracked-insert t token downstream post_state calls tracked h = cc

  -- What is sent to a peer of an event: the event, or what the call's hook makes of it; nothing if the hook
  -- drops the event or fails.
  abbrev pub Relays : Str → Progress → Option S → Option (Str × Progress) → Type 0
  Relays downstream event none outcome = outcome ≡ some (downstream, event)
  Relays downstream event (some state) outcome =
      ((edited : Progress) × (after state event ≡ ok (some edited))
        × (outcome ≡ some (downstream, edited)))
      ⊎ (((after state event ≡ ok none) ⊎ ((e : ErrorData) × (after state event ≡ err e)))
          × (outcome ≡ none))

  forward-Relays :
      (p : Progress) (token downstream : Str) (post_state : Option S)
      → Relays downstream
          (record { progress_token = token; progress = p.progress })
          post_state
          (forward after p (record {
            downstream_progress_token = token;
            post_state = post_state;
            downstream = downstream;
          }))
  unfolding stream_event_post_hook
  forward-Relays p token downstream none = refl
  forward-Relays p token downstream (some state) =
      let event : Progress = record { progress_token = token; progress = p.progress } in
      elim (Result-cases (after state event)) [
        | inr (e, h) ↦ inr (inr (e, h), rw (forward, stream_event_post_hook, h) refl)
        | inl (o, h) ↦ elim (Option-cases o) [
          | inl k ↦ inr (inl (h ∙ ap ok k), rw (forward, stream_event_post_hook, h, k) refl)
          | inr (edited, k) ↦
              inl (edited, h ∙ ap ok k, rw (forward, stream_event_post_hook, h, k) refl)
        ]
      ]

  -- A notification while a tool call with a progress token is in flight, and once it is no longer tracked.
  -- With the token that the call's backend uses, it is sent to the call's downstream peer under the token of
  -- the downstream request, with the progress as the backend reported it: as it is if the call has no hook,
  -- as the hook's edit if it has one, and not at all if that drops it or fails; and it is dropped when the
  -- call is no longer tracked. With another token, it goes in both cases as it went before the call.
  pub on_progress-start_stop :
      (calls : Map (InFlightToolCall S)) (backend_token token downstream : Str)
      (post_state : Option S) (p : Progress) (tracked : Map (InFlightToolCall S))
      → start_tool_call (ok backend_token) (some token) downstream post_state calls
        ≡ ok (backend_token, tracked)
      → ((backend_token ≡ p.progress_token)
          × Relays downstream
              (record { progress_token = token; progress = p.progress })
              post_state
              (on_progress after tracked p)
          × (on_progress after (stop_tracking_tool_call backend_token tracked) p ≡ none))
        ⊎ ((¬ (backend_token ≡ p.progress_token))
            × (on_progress after tracked p ≡ on_progress after calls p)
            × (on_progress after (stop_tracking_tool_call backend_token tracked) p
                ≡ on_progress after calls p))
  on_progress-start_stop calls backend_token token downstream post_state p tracked h =
      let call : InFlightToolCall S = record {
        downstream_progress_token = token;
        post_state = post_state;
        downstream = downstream;
      } in
      let event : Progress = record { progress_token = token; progress = p.progress } in
      let e = tracked-insert backend_token token downstream post_state calls tracked h in
      let first =
        ap (λ m. on_progress after m p) e ∙ on_progress-insert backend_token call calls p in
      let last = stopped backend_token tracked p in
      let pick = λ (b : Bool) (x y : Option (Str × Progress)). if b then x else y in
      elim (Bool-cases (str_eq backend_token p.progress_token)) [
        | inl same ↦ inl (
          (str_eq_iff backend_token p.progress_token).0 same,
          subst (Relays downstream event post_state)
              (sym
                (first ∙ ap (λ b. pick b (forward after p call) (on_progress after calls p)) same))
              (forward-Relays p token downstream post_state),
          last ∙ ap (λ b. pick b none (on_progress after tracked p)) same,
        )
        | inr other ↦
            let before =
              first ∙ ap (λ b. pick b (forward after p call) (on_progress after calls p)) other in
            inr (
              (λ k. let l = (str_eq_iff backend_token p.progress_token).1 k in cc),
              before,
              last ∙ ap (λ b. pick b none (on_progress after tracked p)) other ∙ before,
            )
      ]
