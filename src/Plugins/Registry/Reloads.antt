-- ===== src/Plugins/Registry/Reloads.antt =====
-- What a reload does, and the machine without a memory that the watcher refines.
use contextforge_data_plane.Prelude.{
  ◌≡◌, refl, sym, ap, ◌∙◌, Str, str_eq_iff, str_eq_refl, Bool, true, false, List, [], ◌∷◌, Option,
  none, some, ◌⊎◌, inl, inr, if◌then◌else◌, Bool-cases, Result-cases, ok, err, ok_or, ◌>>=◌,
  bind-eq-ok, subst,
}
use contextforge_data_plane.Prelude.{arith}
use contextforge_data_plane.Plugins.{CpexCrate}
use contextforge_data_plane.Plugins.Runtime.{GatewayPluginRuntime}
use contextforge_data_plane.Plugins.Config.{
  GatewayPluginRuntimeError, display, config_missing, LoadedRuntimePluginConfig, Decoders, Loading,
  cpex_config, get_config, decode, decode_config_document, connection,
}
use contextforge_data_plane.Plugins.Registry.{
  Managers, RuntimeState, active, failed, Watcher, Wake, gone, poll, is_applied, from_config,
  apply_runtime_config, reload_from, reload_runtime, settle, remember, start_config_watcher,
  started, CpexRuntimeRegistry, current, tick, watch,
}

module _ {M C F : Type 0} (cpex : CpexCrate M C) (managers : Managers M F) (decoders : Decoders)
    (factories : F) where
  -- The runtime of what was read, built anew.
  unfoldable pub load :
      Loading (Option LoadedRuntimePluginConfig) → Loading (GatewayPluginRuntime M)
  load fetched = do
    config ← fetched >>= ok_or config_missing
    document ← cpex_config config.document
    from_config cpex managers decoders document factories

  abbrev pub status : Loading (GatewayPluginRuntime M) → RuntimeState M
  status (ok runtime) = active runtime
  status (err e) = failed (display e)

  unfoldable pub serve : Loading (Option LoadedRuntimePluginConfig) → RuntimeState M
  unfolding load
  serve fetched = status (load fetched)

  -- The machine without a memory: each wake builds the runtime anew.
  unfoldable pub rebuild : List Wake → Bool × RuntimeState M → Bool × RuntimeState M
  unfolding serve
  rebuild [] state = state
  rebuild (gone ∷ _) state = state
  rebuild (poll reachable answer ∷ wakes) state =
      let fetched = get_config decoders state.0 reachable answer in
      rebuild wakes (fetched.0, serve fetched.1)

  -- The runtime is the one that the configuration applied last gives.
  pub record IsCurrent (last : Option Str) (runtime : RuntimeState M) : Type 0 where
    pub serves :
        (loaded : LoadedRuntimePluginConfig)
        → decode decoders loaded.fingerprint ≡ ok loaded
        → last ≡ some loaded.fingerprint
        → runtime ≡ serve (ok (some loaded))

  remembered-IsCurrent :
      (initial : Option Str) {runtime : RuntimeState M}
      → IsCurrent (remember cpex managers decoders none (ok initial)) runtime
      → IsCurrent initial runtime
  remembered-IsCurrent none h = h
  remembered-IsCurrent (some s) h = h

  -- What is read was decoded from its fingerprint.
  pub record IsDecoded (fetched : Loading (Option LoadedRuntimePluginConfig)) : Type 0 where
    pub decoded :
        (loaded : LoadedRuntimePluginConfig)
        → fetched ≡ ok (some loaded)
        → decode decoders loaded.fingerprint ≡ ok loaded

  -- What a reload from the store does to the runtime, and to what is remembered.
  pub record Reloads (last : Option Str) (fetched : Loading (Option LoadedRuntimePluginConfig))
      (result : RuntimeState M × Loading (Option Str)) : Type 0 where
    served : result.0 ≡ serve fetched
    current : IsCurrent (remember cpex managers decoders last result.1) result.0

  is_applied-eq : (last : Option Str) (s : Str) → is_applied last s ≡ true → last ≡ some s
  is_applied-eq (some t) s h = ap some ((str_eq_iff t s).0 h)
  is_applied-eq none s h = cc

  nothing-IsCurrent : (runtime : RuntimeState M) → IsCurrent none runtime
  nothing-IsCurrent runtime = record { serves = λ loaded d e. absurd cc }

  pub applied-IsCurrent :
      (loaded : LoadedRuntimePluginConfig) (runtime : RuntimeState M)
      → decode decoders loaded.fingerprint ≡ ok loaded
      → runtime ≡ serve (ok (some loaded))
      → IsCurrent (some loaded.fingerprint) runtime
  applied-IsCurrent loaded runtime d e = record {
    serves = λ other f g. e ∙ ap (λ l. serve (ok (some l))) cc;
  }

  module _ (last : Option Str) (loaded : LoadedRuntimePluginConfig) (runtime : RuntimeState M) where
    reload : RuntimeState M × Loading (Option Str)
    reload = reload_from cpex managers decoders factories last (ok (some loaded)) runtime

    reload_same : is_applied last loaded.fingerprint ≡ true → reload ≡ (runtime, ok none)
    unfolding reload reload_from
    reload_same same = rw same refl

    reload_changed :
        is_applied last loaded.fingerprint ≡ false
        → ((r : GatewayPluginRuntime M) × (reload ≡ (active r, ok (some loaded.fingerprint)))
            × (load (ok (some loaded)) ≡ ok r))
          ⊎ ((e : GatewayPluginRuntimeError) × (reload ≡ (runtime, err e))
              × (load (ok (some loaded)) ≡ err e))
    unfolding reload reload_from load apply_runtime_config
    reload_changed new = elim (Result-cases (cpex_config loaded.document)) [
      | inr (e, c) ↦ inr (e, rw (new, c) refl, rw c refl)
      | inl (document, c) ↦
          elim (Result-cases (from_config cpex managers decoders document factories)) [
            | inl (r, b) ↦ inl (r, rw (new, c, apply_runtime_config, b) refl, rw (c, b) refl)
            | inr (e, b) ↦ inr (e, rw (new, c, apply_runtime_config, b) refl, rw (c, b) refl)
          ]
    ]

  settle-Reloads :
      (last : Option Str) (loaded : LoadedRuntimePluginConfig) (runtime : RuntimeState M)
      {result : RuntimeState M × Loading (Option Str)}
      → reload last loaded runtime ≡ result
      → Reloads last (ok (some loaded)) (settle result)
      → Reloads last
          (ok (some loaded))
          (reload_runtime cpex managers decoders factories last (some (ok (some loaded))) runtime)
  unfolding reload_runtime reload
  settle-Reloads last loaded runtime e h =
      subst (λ r. Reloads last (ok (some loaded)) (settle r)) (sym e) h

  reload-Reloads :
      (last : Option Str) (fetched : Loading (Option LoadedRuntimePluginConfig))
      (runtime : RuntimeState M)
      → IsDecoded fetched
      → IsCurrent last runtime
      → Reloads last fetched
          (reload_runtime cpex managers decoders factories last (some fetched) runtime)
  unfolding reload_runtime reload_from settle serve load
  reload-Reloads last (err e) runtime d h = record { served = refl; current = nothing-IsCurrent _ }
  reload-Reloads last (ok none) runtime d h = record {
    served = refl;
    current = nothing-IsCurrent _;
  }
  reload-Reloads last (ok (some loaded)) runtime d h =
      let decoded = d.decoded loaded refl in
      elim (Bool-cases (is_applied last loaded.fingerprint)) [
        | inl same ↦
            settle-Reloads last loaded runtime (reload_same last loaded runtime same)
              (record { served = h.serves loaded decoded (is_applied-eq last _ same); current = h })
        | inr new ↦ elim (reload_changed last loaded runtime new) [
          | inl (r, e, f) ↦ settle-Reloads last loaded runtime e (record {
            served = rw f refl;
            current = applied-IsCurrent loaded (active r) decoded (rw f refl);
          })
          | inr (x, e, f) ↦
              settle-Reloads last loaded runtime e
                (record { served = rw f refl; current = nothing-IsCurrent _ })
        ]
      ]

  pub decode-fingerprint :
      (bytes : Str) (loaded : LoadedRuntimePluginConfig)
      → decode decoders bytes ≡ ok loaded
      → bytes ≡ loaded.fingerprint
  unfolding decode
  decode-fingerprint bytes loaded h =
      let (document, _, made) = bind-eq-ok (decode_config_document decoders bytes) _ h in cc

  answered-IsDecoded :
      (bytes : Str) → IsDecoded (do loaded ← decode decoders bytes; ok (some loaded))
  answered-IsDecoded bytes = record {
    decoded = λ other f.
        let (loaded, e, same) = bind-eq-ok (decode decoders bytes) _ f in
        let g : decode decoders bytes ≡ ok other = e ∙ cc in
        subst (λ b. decode decoders b ≡ ok other) (decode-fingerprint bytes other g) g;
  }

  pub get_config-IsDecoded :
      (connected reachable : Bool) (answer : Option (Option Str))
      → IsDecoded (get_config decoders connected reachable answer).1
  unfolding get_config connection
  get_config-IsDecoded true reachable none = record { decoded = λ other f. absurd cc }
  get_config-IsDecoded true reachable (some none) = record { decoded = λ other f. absurd cc }
  get_config-IsDecoded true reachable (some (some bytes)) = answered-IsDecoded bytes
  get_config-IsDecoded false true none = record { decoded = λ other f. absurd cc }
  get_config-IsDecoded false true (some none) = record { decoded = λ other f. absurd cc }
  get_config-IsDecoded false true (some (some bytes)) = answered-IsDecoded bytes
  get_config-IsDecoded false false answer = record { decoded = λ other f. absurd cc }

  pub tick-serve :
      (reachable : Bool) (answer : Option (Option Str)) (watcher : Watcher M)
      → IsCurrent watcher.last_applied watcher.runtime
      → ((tick cpex managers decoders factories reachable answer watcher).runtime
          ≡ serve (get_config decoders watcher.connected reachable answer).1)
        × IsCurrent
            (tick cpex managers decoders factories reachable answer watcher).last_applied
            (tick cpex managers decoders factories reachable answer watcher).runtime
  unfolding tick
  tick-serve reachable answer watcher h =
      let reloaded =
        reload-Reloads watcher.last_applied _ watcher.runtime
          (get_config-IsDecoded watcher.connected reachable answer) h in
      (reloaded.served, reloaded.current)

  pub watch-rebuild :
      (wakes : List Wake) (watcher : Watcher M)
      → IsCurrent watcher.last_applied watcher.runtime
      → (
        (watch cpex managers decoders factories wakes watcher).connected,
        (watch cpex managers decoders factories wakes watcher).runtime,
      )
        ≡ rebuild wakes (watcher.connected, watcher.runtime)
  unfolding watch rebuild tick
  watch-rebuild [] watcher h = refl
  watch-rebuild (gone ∷ _) watcher h = refl
  watch-rebuild (poll reachable answer ∷ wakes) watcher h =
      let next = tick cpex managers decoders factories reachable answer watcher in
      let (served, current) = tick-serve reachable answer watcher h in
      watch-rebuild wakes next current ∙ ap (λ s. rebuild wakes (next.connected, s)) served

  pub initial-IsCurrent :
      (has_store : Bool) (fetched : Loading (Option LoadedRuntimePluginConfig))
      (runtime : RuntimeState M)
      → IsDecoded fetched
      → (let result =
            reload_runtime cpex managers decoders factories none
              (if has_store then some fetched else none)
              runtime in
          IsCurrent (remember cpex managers decoders none result.1) result.0)
  unfolding reload_runtime
  initial-IsCurrent true fetched runtime d =
      (reload-Reloads none fetched runtime d (nothing-IsCurrent runtime)).current
  initial-IsCurrent false fetched runtime d = nothing-IsCurrent runtime

  pub reload-applied :
      (loaded : LoadedRuntimePluginConfig) (runtime : RuntimeState M)
      → reload_runtime cpex managers decoders factories
          (some loaded.fingerprint)
          (some (ok (some loaded)))
          runtime
        ≡ (runtime, ok none)
  unfolding reload_runtime reload settle
  reload-applied loaded runtime =
      ap settle
        (reload_same (some loaded.fingerprint) loaded runtime (str_eq_refl loaded.fingerprint))

  start_config_watcher-fields :
      (registry : CpexRuntimeRegistry M F) (initial : Option Str) {watcher : Watcher M}
      → (start_config_watcher cpex managers decoders registry initial).1 ≡ some watcher
      → (watcher.last_applied ≡ initial) × (watcher.runtime ≡ registry.runtime)
  unfolding start_config_watcher
  start_config_watcher-fields registry initial s = ground arith

  pub started-IsCurrent :
      (registry : CpexRuntimeRegistry M F) (result : Loading (Option Str)) {watcher : Watcher M}
      → IsCurrent (remember cpex managers decoders none result) registry.runtime
      → (started cpex managers decoders registry result).1 ≡ ok (some watcher)
      → IsCurrent watcher.last_applied watcher.runtime
  started-IsCurrent registry (err e) h s = absurd cc
  started-IsCurrent registry (ok initial) {watcher} h s =
      let (last, runtime) = start_config_watcher-fields registry initial {watcher = watcher} cc in
      rw (last, runtime) (remembered-IsCurrent initial h)
