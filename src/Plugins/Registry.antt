-- ===== src/Plugins/Registry.antt =====
-- registry/mod.rs and `from_config` of runtime.rs: the runtime that requests use, its reload from the store,
-- and the watcher that reloads it periodically. The plugin manager's construction is `build` and `initialize`
-- of a record; a wake of the watcher carries what the store would answer.
pub mod Reloads
pub mod Watch
use contextforge_data_plane.Prelude.{
  Str, str, str_eq, Bool, true, false, not, List, [], ◌∷◌, Option, none, some, if◌then◌else◌,
  Result, ok, err, ok_or, ◌>>=◌,
}
use contextforge_data_plane.Gateway.{ErrorData, internal_error, error}
use contextforge_data_plane.Plugins.{Operation, CpexCrate}
use contextforge_data_plane.Plugins.Runtime.{HookPair, GatewayPluginRuntime}
use contextforge_data_plane.Plugins.Config.{
  GatewayPluginRuntimeError, configuration, initialization, config_missing, factory_registry_shared,
  display, CpexConfig, LoadedRuntimePluginConfig, Decoders, Loading, cpex_config, get_config,
  validate_gateway_supported_config, declares,
}

-- `PluginManager`: its default, its construction from a configuration, and its start.
pub record Managers (M F : Type 0) : Type 0 where
  pub empty : M
  pub build : CpexConfig → F → Result Str M
  pub initialize : M → Result Str (Unit {0})

pub data RuntimeState (M : Type 0) : Type 0 where
  active : GatewayPluginRuntime M → RuntimeState M
  failed : Str → RuntimeState M

abbrev pub map_err : {A : Type 0} → (Str → GatewayPluginRuntimeError) → Result Str A → Loading A
map_err f (ok a) = ok a
map_err f (err e) = err (f e)

pub record CpexRuntimeRegistry (M F : Type 0) : Type 0 where
  pub runtime : RuntimeState M
  pub has_store : Bool
  pub connected : Bool
  pub factories : F
  pub shared : Bool
  pub watcher_started : Bool

-- The watcher's view: the runtime, the configuration it applied last, and the store's connection.
pub record Watcher (M : Type 0) : Type 0 where
  pub runtime : RuntimeState M
  pub last_applied : Option Str
  pub connected : Bool

-- A wake of the watcher: the registry is gone, or Redis can be reached or not and answers.
pub data Wake : Type 0 where
  gone : Wake
  poll : (reachable : Bool) (answer : Option (Option Str)) → Wake

abbrev pub is_applied : Option Str → Str → Bool
is_applied none fingerprint = false
is_applied (some bytes) fingerprint = str_eq bytes fingerprint

-- `set_runtime_failed` on an error.
unfoldable pub settle :
    {M : Type 0} → RuntimeState M × Loading (Option Str) → RuntimeState M × Loading (Option Str)
settle (runtime, ok applied) = (runtime, ok applied)
settle (runtime, err e) = (failed (display e), err e)

-- `GatewayPluginRuntimeHandle::current`.
unfoldable pub current : {M : Type 0} → RuntimeState M → Result ErrorData (GatewayPluginRuntime M)
current (active runtime) = ok runtime
current (failed message) = err (error internal_error (str "Runtime plugin reload failed"))

-- `Arc::get_mut` fails once the watcher holds the factories.
unfoldable pub register_factory :
    {M F : Type 0} → (F → F) → CpexRuntimeRegistry M F → Loading (CpexRuntimeRegistry M F)
register_factory register registry =
    if registry.shared
    then err factory_registry_shared
    else ok (record registry { factories = register registry.factories })

module _ {M C F : Type 0} (cpex : CpexCrate M C) (managers : Managers M F)
    (decoders : Decoders) where
  abbrev default_runtime : GatewayPluginRuntime M
  default_runtime = record {
    manager = managers.empty;
    hooks = λ operation. record { pre = false; post = false };
  }

  unfoldable pub from_config : CpexConfig → F → Loading (GatewayPluginRuntime M)
  from_config config factories = do
    _ ← validate_gateway_supported_config cpex config
    manager ← map_err (configuration (str "config")) (managers.build config factories)
    _ ← map_err initialization (managers.initialize manager)
    ok (record {
      manager = manager;
      hooks = λ operation. record {
        pre = declares config (cpex.pre_hook operation);
        post = declares config (cpex.post_hook operation);
      };
    })

  unfoldable pub apply_runtime_config :
      F → Option CpexConfig → RuntimeState M → RuntimeState M × Loading (Unit {0})
  apply_runtime_config factories none runtime = (active default_runtime, ok tt)
  apply_runtime_config factories (some config) runtime = elim (from_config config factories) [
    | ok built ↦ (active built, ok tt)
    | err e ↦ (runtime, err e)
  ]

  abbrev apply_document :
      F → Loading CpexConfig → RuntimeState M → RuntimeState M × Loading (Unit {0})
  apply_document factories (err e) runtime = (runtime, err e)
  apply_document factories (ok config) runtime =
      apply_runtime_config factories (some config) runtime

  -- The configuration read is applied unless it is the last one applied.
  unfoldable pub reload_from :
      F
      → Option Str
      → Loading (Option LoadedRuntimePluginConfig)
      → RuntimeState M
      → RuntimeState M × Loading (Option Str)
  reload_from factories last fetched runtime = elim (fetched >>= ok_or config_missing) [
    | err e ↦ (runtime, err e)
    | ok config ↦
        let applied = apply_document factories (cpex_config config.document) runtime in
        if is_applied last config.fingerprint
        then (runtime, ok none)
        else (applied.0, do _ ← applied.1; ok (some config.fingerprint))
  ]

  unfoldable pub reload_runtime :
      F
      → Option Str
      → Option (Loading (Option LoadedRuntimePluginConfig))
      → RuntimeState M
      → RuntimeState M × Loading (Option Str)
  reload_runtime factories last none runtime = (runtime, ok none)
  reload_runtime factories last (some fetched) runtime =
      settle (reload_from factories last fetched runtime)

  -- `start_config_watcher`: at most one watcher, and only with a store; it shares the factories.
  unfoldable pub start_config_watcher :
      CpexRuntimeRegistry M F → Option Str → CpexRuntimeRegistry M F × Option (Watcher M)
  start_config_watcher registry initial =
      if not registry.has_store
      then (registry, none)
      else if registry.watcher_started
      then (registry, none)
      else (
        record registry { watcher_started = true; shared = true },
        some (record {
          runtime = registry.runtime;
          last_applied = initial;
          connected = registry.connected;
        }),
      )

  abbrev pub started :
      CpexRuntimeRegistry M F
      → Loading (Option Str)
      → CpexRuntimeRegistry M F × Loading (Option (Watcher M))
  started registry (err e) = (registry, err e)
  started registry (ok initial) =
      let watching = start_config_watcher registry initial in (watching.0, ok watching.1)

  -- The configuration is read anew, whatever the watcher applied last.
  unfoldable pub reload :
      Bool
      → Option (Option Str)
      → CpexRuntimeRegistry M F
      → CpexRuntimeRegistry M F × Loading (Unit {0})
  reload reachable answer registry =
      let fetched = get_config decoders registry.connected reachable answer in
      let source = if registry.has_store then some fetched.1 else none in
      let result = reload_runtime registry.factories none source registry.runtime in
      let connected = if registry.has_store then fetched.0 else registry.connected in
      (record registry { runtime = result.0; connected = connected }, do _ ← result.1; ok tt)

  unfoldable pub apply_config :
      Option CpexConfig → CpexRuntimeRegistry M F → CpexRuntimeRegistry M F × Loading (Unit {0})
  apply_config config registry =
      let applied = apply_runtime_config registry.factories config registry.runtime in
      (record registry { runtime = applied.0 }, applied.1)

  -- `CpexRuntimeRegistry::initialize`: the first load must succeed for a watcher to start.
  unfoldable pub initialize :
      Bool
      → Option (Option Str)
      → CpexRuntimeRegistry M F
      → CpexRuntimeRegistry M F × Loading (Option (Watcher M))
  initialize reachable answer registry =
      let fetched = get_config decoders registry.connected reachable answer in
      let source = if registry.has_store then some fetched.1 else none in
      let result = reload_runtime registry.factories none source registry.runtime in
      let connected = if registry.has_store then fetched.0 else registry.connected in
      started (record registry { runtime = result.0; connected = connected }) result.1

  abbrev pub remember : Option Str → Loading (Option Str) → Option Str
  remember last (ok (some fingerprint)) = some fingerprint
  remember last (ok none) = last
  remember last (err e) = none

  abbrev pub advance : Bool → Option Str → RuntimeState M × Loading (Option Str) → Watcher M
  advance connected last result = record {
    runtime = result.0;
    last_applied = remember last result.1;
    connected = connected;
  }

  -- The body of the watcher's loop, after its sleep.
  unfoldable pub tick : F → Bool → Option (Option Str) → Watcher M → Watcher M
  tick factories reachable answer watcher =
      let fetched = get_config decoders watcher.connected reachable answer in
      advance fetched.0 watcher.last_applied
        (reload_runtime factories watcher.last_applied (some fetched.1) watcher.runtime)

  unfoldable pub watch : F → List Wake → Watcher M → Watcher M
  watch factories [] watcher = watcher
  watch factories (gone ∷ _) watcher = watcher
  watch factories (poll reachable answer ∷ wakes) watcher =
      watch factories wakes (tick factories reachable answer watcher)
