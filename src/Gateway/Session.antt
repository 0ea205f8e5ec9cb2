-- ===== src/Gateway/Session.antt =====
-- The life of a connection to a backend, as an automaton over a handler's events, and the rules that
-- carry a statement on a run through its steps.
pub mod Steps
use contextforge_data_plane.Prelude.{◌≡◌, List, [], ◌∷◌, Option, none, some, Result, ok, err, All}
use contextforge_data_plane.Gateway.{
  ErrorData, Event, before_hook, connecting, opened, refused, sent, not_sent, closed, after_hook,
  Run,
}

pub data Phase : Type 0 where
  guarded : Phase
  fresh : Phase
  hooked : Phase
  waiting : Phase
  open_idle : Phase
  open_used : Phase
  ended : Phase
  finished : Phase
  dropped : Phase

-- What may follow what: where a hook guards the connection, it runs before it is made; one call on a
-- connection, at most one hook after it is closed, and nothing after one that was refused or dropped.
unfoldable pub step : Phase → Event → Option Phase
step guarded before_hook = some hooked
step fresh (connecting _ _) = some waiting
step hooked (connecting _ _) = some waiting
step waiting opened = some open_idle
step waiting refused = some dropped
step open_idle (sent _ _) = some open_used
step open_idle not_sent = some dropped
step open_used closed = some ended
step ended after_hook = some finished
step _ _ = none

unfoldable pub steps : Phase → List Event → Option Phase
unfolding step
steps p [] = some p
steps p (e ∷ events) = elim (step p e) [ none ↦ none | some q ↦ steps q events ]

-- No connection is left open.
abbrev pub IsSettled : Phase → Type 0
IsSettled waiting = ⊥
IsSettled open_idle = ⊥
IsSettled open_used = ⊥
IsSettled _ = Unit

-- How a handler that calls no hook may end: with a result only after a call whose connection is closed.
abbrev pub Ends : {A : Type 0} → Phase → Result ErrorData A → Type 0
Ends p (ok _) = p ≡ ended
Ends p (err _) = IsSettled p
