-- ===== src/Plugins/Registry/Watch.antt =====
-- What the watcher serves: after every wake, the runtime of the configuration that the store answered last.
use contextforge_data_plane.Prelude.{
  All, Bool-cases, inl, inr, sym, subst, none, [], ◌∷◌, ◌>>=◌, if◌then◌else◌, ◌≡◌, refl, ap, ◌∙◌,
  Str, Bool, true, List, Option, some, ok, err,
}
use contextforge_data_plane.Prelude.{str}
use contextforge_data_plane.Gateway.{error, internal_error}
use contextforge_data_plane.Plugins.{CpexCrate}
use contextforge_data_plane.Plugins.Config.{
  Loading, display, GatewayPluginRuntimeError, LoadedRuntimePluginConfig, Decoders, get_config,
  decode, connection,
}
use contextforge_data_plane.Plugins.Registry.{
  reload, reload_runtime, poll, settle, RuntimeState, Managers, failed, Watcher, Wake, advance,
  initialize, CpexRuntimeRegistry, current, tick, watch,
}
use contextforge_data_plane.Plugins.Registry.Reloads.{
  IsCurrent, decode-fingerprint, get_config-IsDecoded, initial-IsCurrent, load, rebuild,
  reload-applied, serve, started-IsCurrent, tick-serve, watch-rebuild,
}

module _ {M C F : Type 0} (cpex : CpexCrate M C) (managers : Managers M F)
    (decoders : Decoders) where
  -- The watcher that a successful `initialize` starts: after any wakes, the connection and the runtime are
  -- those of the machine that builds the runtime anew at each wake from what the store answers then, a
  -- failed runtime where the answer gives none.
  pub watch-rebuild_initialized :
      (reachable : Bool) (answer : Option (Option Str)) (registry : CpexRuntimeRegistry M F)
      (watcher : Watcher M) (wakes : List Wake)
      → (initialize cpex managers decoders reachable answer registry).1 ≡ ok (some watcher)
      → (
        (watch cpex managers decoders registry.factories wakes watcher).connected,
        (watch cpex managers decoders registry.factories wakes watcher).runtime,
      )
        ≡ rebuild cpex managers decoders registry.factories wakes
            (watcher.connected, watcher.runtime)
  unfolding initialize
  watch-rebuild_initialized reachable answer registry watcher wakes h =
      watch-rebuild cpex managers decoders registry.factories wakes watcher (
        started-IsCurrent cpex managers decoders registry.factories _ _
          (initial-IsCurrent cpex managers decoders registry.factories registry.has_store _
            registry.runtime
            (get_config-IsDecoded cpex managers decoders registry.factories registry.connected
              reachable answer))
          h)

  -- A wake that reads the configuration applied last changes nothing but the connection.
  tick_same :
      (factories : F) (bytes : Str) (loaded : LoadedRuntimePluginConfig) (watcher : Watcher M)
      → decode decoders bytes ≡ ok loaded
      → watcher.last_applied ≡ some bytes
      → tick cpex managers decoders factories true (some (some bytes)) watcher
        ≡ record watcher { connected = true }
  unfolding tick get_config connection
  tick_same factories bytes loaded watcher d l =
      let same = decode-fingerprint cpex managers decoders factories bytes loaded d in
      elim (Bool-cases watcher.connected) [
        | inl c ↦
            rw (c, d, l, same)
              (ap (advance cpex managers decoders true (some loaded.fingerprint))
                (reload-applied cpex managers decoders factories loaded watcher.runtime))
        | inr c ↦
            rw (c, d, l, same)
              (ap (advance cpex managers decoders true (some loaded.fingerprint))
                (reload-applied cpex managers decoders factories loaded watcher.runtime))
      ]

  watch_same :
      (factories : F) (bytes : Str) (loaded : LoadedRuntimePluginConfig) (wakes : List Wake)
      (watcher : Watcher M)
      → decode decoders bytes ≡ ok loaded
      → watcher.last_applied ≡ some bytes
      → All (λ wake. wake ≡ poll true (some (some bytes))) wakes
      → (watch cpex managers decoders factories wakes watcher).runtime ≡ watcher.runtime
  unfolding watch
  watch_same factories bytes loaded [] watcher d l h = refl
  watch_same factories bytes loaded (wake ∷ wakes) watcher d l (e, h) =
      subst
        (λ w.
          (watch cpex managers decoders factories (w ∷ wakes) watcher).runtime ≡ watcher.runtime)
        (sym e)
        (ap (λ w. (watch cpex managers decoders factories wakes w).runtime)
            (tick_same factories bytes loaded watcher d l)
          ∙ watch_same factories bytes loaded wakes (record watcher { connected = true }) d l h)

  settled_failed :
      (settling : RuntimeState M × Loading (Option Str)) (e : GatewayPluginRuntimeError)
      → (settle settling).1 ≡ err e
      → (settle settling).0 ≡ failed (display e)
  unfolding settle
  settled_failed (runtime, ok applied) e h = absurd cc
  settled_failed (runtime, err x) e h = let k : x ≡ e = cc in ap (λ y. failed (display y)) k

  reload_runtime_failed :
      (factories : F) (source : Option (Loading (Option LoadedRuntimePluginConfig)))
      (runtime : RuntimeState M) (e : GatewayPluginRuntimeError)
      → (reload_runtime cpex managers decoders factories none source runtime).1 ≡ err e
      → (reload_runtime cpex managers decoders factories none source runtime).0 ≡ failed (display e)
  unfolding reload_runtime
  reload_runtime_failed factories none runtime e h = absurd cc
  reload_runtime_failed factories (some fetched) runtime e h = settled_failed _ e h

  forget_applied :
      (r : Loading (Option Str)) (e : GatewayPluginRuntimeError)
      → ◌≡◌ {A = Loading (Unit {0})} (r >>= λ _. ok tt) (err e)
      → r ≡ err e
  forget_applied (ok applied) e h = absurd cc
  forget_applied (err x) e h = cc

  reload_failed :
      (reachable : Bool) (answer : Option (Option Str)) (registry : CpexRuntimeRegistry M F)
      (e : GatewayPluginRuntimeError)
      → (reload cpex managers decoders reachable answer registry).1 ≡ err e
      → (reload cpex managers decoders reachable answer registry).0.runtime ≡ failed (display e)
  unfolding reload
  reload_failed reachable answer registry e h =
      reload_runtime_failed registry.factories
        (if registry.has_store
          then some (get_config decoders registry.connected reachable answer).1
          else none)
        registry.runtime e (forget_applied _ e h)

  -- The watcher does not recover from a public reload that fails: if the reload ends in an error, on the
  -- runtime that the registry shares with the watcher, then after any wakes that read the bytes applied last
  -- again, which decode, every request is refused with an internal error.
  pub watch-reload_refuses :
      (reachable : Bool) (answer : Option (Option Str)) (registry : CpexRuntimeRegistry M F)
      (watcher : Watcher M) (bytes : Str) (loaded : LoadedRuntimePluginConfig) (wakes : List Wake)
      {e : GatewayPluginRuntimeError}
      → decode decoders bytes ≡ ok loaded
      → watcher.last_applied ≡ some bytes
      → (reload cpex managers decoders reachable answer
          (record registry { runtime = watcher.runtime })).1
        ≡ err e
      → All (λ wake. wake ≡ poll true (some (some bytes))) wakes
      → current
          (watch cpex managers decoders registry.factories wakes (record watcher {
            runtime =
                (reload cpex managers decoders reachable answer
                  (record registry { runtime = watcher.runtime })).0.runtime;
          })).runtime
        ≡ err (error internal_error (str "Runtime plugin reload failed"))
  unfolding current
  watch-reload_refuses reachable answer registry watcher bytes loaded wakes {e} d l h w =
      ap current (
        watch_same registry.factories bytes loaded wakes _ d l w
        ∙ reload_failed reachable answer (record registry { runtime = watcher.runtime }) e h)

  -- A wake whose answer gives no runtime, an error of the store or of the configuration, leaves a failed
  -- runtime, so every request is refused with an internal error until a later wake gives one.
  pub current-tick_rejects :
      (factories : F) (reachable : Bool) (answer : Option (Option Str)) (watcher : Watcher M)
      {e : GatewayPluginRuntimeError}
      → IsCurrent cpex managers decoders factories watcher.last_applied watcher.runtime
      → load cpex managers decoders factories
          (get_config decoders watcher.connected reachable answer).1
        ≡ err e
      → current (tick cpex managers decoders factories reachable answer watcher).runtime
        ≡ err (error internal_error (str "Runtime plugin reload failed"))
  unfolding serve current
  current-tick_rejects factories reachable answer watcher h f =
      ap current ((tick-serve cpex managers decoders factories reachable answer watcher h).0)
      ∙ rw (serve, f) refl
