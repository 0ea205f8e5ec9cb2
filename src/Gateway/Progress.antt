-- ===== src/Gateway/Progress.antt =====
-- gateway/backend_client.rs: the tool calls in flight on a backend's connection, and the relay of their
-- progress notifications. A token and a peer are texts; what sending a request returns is an argument.
pub mod Relay
use contextforge_data_plane.Prelude.{Str, Option, none, some, Result, ok, err}
use contextforge_data_plane.Prelude.Map.{Map, lookup, insert, remove}
use contextforge_data_plane.Json.{Value}
use contextforge_data_plane.Gateway.{
  ErrorData, ServiceError, cancelled, transport_closed, unexpected_response,
}

pub record InFlightToolCall (S : Type 0) : Type 0 where
  pub downstream_progress_token : Str
  pub post_state : Option S
  pub downstream : Str

pub record Progress : Type 0 where
  pub progress_token : Str
  pub progress : Value

-- What `send_cancellable_request` returns: the token of the handle, or an error.
abbrev pub Sent : Type 0
Sent = Result ServiceError Str

module _ {S : Type 0} where
  -- The token that the backend uses, and the calls in flight.
  unfoldable pub start_tool_call :
      Sent
      → Option Str
      → Str
      → Option S
      → Map (InFlightToolCall S)
      → Result ServiceError (Str × Map (InFlightToolCall S))
  start_tool_call (err e) token downstream post_state calls = err e
  start_tool_call (ok backend_token) none downstream post_state calls = ok (backend_token, calls)
  start_tool_call (ok backend_token) (some token) downstream post_state calls = ok (
    backend_token,
    insert backend_token
        (record {
          downstream_progress_token = token;
          post_state = post_state;
          downstream = downstream;
        })
        calls,
  )

  unfoldable pub stop_tracking_tool_call : Str → Map (InFlightToolCall S) → Map (InFlightToolCall S)
  stop_tracking_tool_call backend_token calls = remove backend_token calls

  unfoldable pub progress_call : Str → Map (InFlightToolCall S) → Option (InFlightToolCall S)
  progress_call token calls = lookup token calls

  -- The hook on a stream event: an error drops it.
  unfoldable pub stream_event_post_hook :
      (S → Progress → Result ErrorData (Option Progress))
      → InFlightToolCall S
      → Progress
      → Option Progress
  stream_event_post_hook after call event = elim call.post_state [
    | none ↦ some event
    | some state ↦ elim (after state event) [ ok result ↦ result | err _ ↦ none ]
  ]

  -- What is sent downstream, and to whom.
  abbrev pub forward :
      (S → Progress → Result ErrorData (Option Progress))
      → Progress
      → InFlightToolCall S
      → Option (Str × Progress)
  forward after p call =
      elim (stream_event_post_hook after call
        (record { progress_token = call.downstream_progress_token; progress = p.progress })) [
          | none ↦ none
          | some event ↦ some (call.downstream, event)
        ]

  unfoldable pub on_progress :
      (S → Progress → Result ErrorData (Option Progress))
      → Map (InFlightToolCall S)
      → Progress
      → Option (Str × Progress)
  on_progress after calls p = elim (progress_call p.progress_token calls) [
    | none ↦ none
    | some call ↦ forward after p call
  ]

-- `call_backend_tool`: what the race of the reply with the cancellation gives. A reply is none when the
-- channel is closed, and holds no value when it is of another kind than a tool's result.
pub data Race : Type 0 where
  cancelled_first : Race
  replied : Option (Result ServiceError (Option Value)) → Race

unfoldable pub call_backend_tool : Str → Race → Result ServiceError Value
call_backend_tool reason cancelled_first = err (cancelled reason)
call_backend_tool reason (replied none) = err transport_closed
call_backend_tool reason (replied (some (err e))) = err e
call_backend_tool reason (replied (some (ok none))) = err unexpected_response
call_backend_tool reason (replied (some (ok (some v)))) = ok v
