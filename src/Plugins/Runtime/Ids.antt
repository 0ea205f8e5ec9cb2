-- ===== src/Plugins/Runtime/Ids.antt =====
-- The correlation ids of the calls that the hooks see, over the shared counter.
use contextforge_data_plane.Prelude.{
  ℕ, ◌+◌, ◌<◌, ◌≤◌, ◌%◌, ◌^◌, ◌≡◌, refl, sym, ap, ◌∙◌, Str, false, Option, List, [], ◌∷◌, length,
  some, ◌⊎◌, inl, inr, Bool-cases, not, ◌&&◌, none, if◌then◌else◌, Result, ok, arith,
}
use contextforge_data_plane.Prelude.Maybe.{some-inj}
use contextforge_data_plane.Cmf.{MessagePayload}
use contextforge_data_plane.Gateway.{ErrorData}
use contextforge_data_plane.Plugins.{Operation, CpexCrate}
use contextforge_data_plane.Plugins.Runtime.{
  GatewayPluginRuntime, CallState, correlation_id, fetch_add, before,
}
use contextforge_data_plane.Plugins.Runtime.Hooks.{before-Prepares, correlation_id-inj}

-- A call of any operation, under the runtime that is current when it comes.
pub record HookedCall (M : Type 0) : Type 1 where
  pub runtime : GatewayPluginRuntime M
  pub operation : Operation
  pub name : Str
  pub edits : Type 0
  pub default : edits
  pub payload : Str → MessagePayload
  pub update : MessagePayload → Str → Result ErrorData edits

module _ {M C : Type 0} (cpex : CpexCrate M C) where
  abbrev pub prepared :
      (call : HookedCall M) → ℕ → ℕ × Result ErrorData (call.edits × Option (CallState M C))
  prepared call counter =
      before cpex call.default call.runtime call.operation call.payload call.update call.name
        counter

  -- The counter after some calls.
  abbrev pub counted : List (HookedCall M) → ℕ → ℕ
  counted [] counter = counter
  counted (call ∷ calls) counter = counted calls (prepared call counter).0

  -- The counter moves on by one or, for a call without hooks, stays.
  counter-cases :
      (call : HookedCall M) (counter : ℕ)
      → ((prepared call counter).0 ≡ counter) ⊎ ((prepared call counter).0 ≡ fetch_add counter)
  unfolding before
  counter-cases call counter =
      let hooks = call.runtime.hooks call.operation in
      elim (Bool-cases (not hooks.pre && not hooks.post)) [
        | inl e ↦ inl (rw e refl)
        | inr e ↦ inr (rw e refl)
      ]

  -- A call that leaves a state for the hook after it moves the counter on, and has the id of its turn.
  captured-counter :
      (call : HookedCall M) (counter : ℕ) {edit : call.edits} {state : CallState M C}
      → (prepared call counter).1 ≡ ok (edit, some state)
      → ((prepared call counter).0 ≡ fetch_add counter)
        × (state.id ≡ correlation_id call.operation counter)
  unfolding before
  captured-counter call counter {state} h =
      let hooks = call.runtime.hooks call.operation in
      let prepares =
        before-Prepares cpex call.default call.runtime call.operation call.payload call.update
          call.name counter h in
      let id = correlation_id call.operation counter in
      elim (Bool-cases hooks.post) [
        | inl e ↦
            let one : (not hooks.pre && not hooks.post) ≡ false = (ground arith) in
            (rw one refl, some-inj (prepares.captured ∙ ap (λ b. if b then some id else none) e))
        | inr e ↦ absurd (let k = prepares.captured ∙ ap (λ b. if b then some id else none) e in cc)
      ]

  shift : (n k c : ℕ) → (c + k) % 2 ^ 64 ≡ n → fetch_add n ≡ (c + (k + 1)) % 2 ^ 64
  shift n k c h = omega arith

  counted-shift :
      (calls : List (HookedCall M)) (c k n : ℕ)
      → n ≡ (c + k) % 2 ^ 64
      → (j : ℕ) × (j ≤ k + length calls) × (k ≤ j) × (counted calls n ≡ (c + j) % 2 ^ 64)
  counted-shift [] c k n h = (k, omega arith, omega arith, h)
  counted-shift (call ∷ calls) c k n h = elim (counter-cases call n) [
    | inl e ↦ let (j, le, ge, f) = counted-shift calls c k _ (e ∙ h) in (j, omega arith, ge, f)
    | inr e ↦
        let (j, le, ge, f) = counted-shift calls c (k + 1) _ (e ∙ shift n k c (sym h)) in
        (j, omega arith, omega arith, f)
  ]

  distinct : (c j : ℕ) → c < 2 ^ 64 → 1 ≤ j → j < 2 ^ 64 → ¬ ((c + j) % 2 ^ 64 ≡ c)
  distinct c j h k l e = omega arith

  wrapped : (c j n : ℕ) → n ≡ (c + j) % 2 ^ 64 → n < 2 ^ 64
  wrapped c j n h = omega arith

  -- No two calls that the hooks before them let go on, with a state for the hook after them, have the same
  -- correlation id in that state, if the counter is a `u64`, fewer than 2^64 - 1 other calls come between
  -- them, and each call starts from the counter that the one before it left: whatever the operations, the runtimes and the calls
  -- between, which may have hooks or not.
  pub counted-distinct :
      (first later : HookedCall M) (between : List (HookedCall M)) (counter : ℕ)
      {edit : first.edits} {edit_later : later.edits} {state state_later : CallState M C}
      → counter < 2 ^ 64
      → length between + 1 < 2 ^ 64
      → (prepared first counter).1 ≡ ok (edit, some state)
      → (prepared later (counted (first ∷ between) counter)).1 ≡ ok (edit_later, some state_later)
      → ¬ (state.id ≡ state_later.id)
  counted-distinct first later between counter c l h k e =
      let (moved, id) = captured-counter first counter h in
      let (_, id_later) = captured-counter later _ k in
      let (j, le, ge, at) = counted-shift between counter 1 _ moved in
      let same =
        correlation_id-inj first.operation later.operation counter _ c (wrapped counter j _ at)
          (sym id ∙ e ∙ id_later) in
      distinct counter j c ge (omega arith) (sym at ∙ sym same.1)
