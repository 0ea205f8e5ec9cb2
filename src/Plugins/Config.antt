-- ===== src/Plugins/Config.antt =====
-- config.rs, factory.rs and error.rs: the plugin configuration in Redis, which configurations the gateway
-- supports, and the handlers that a factory makes. A document is decoded by `serde_json` or `rmp_serde`.
pub mod Support
use contextforge_data_plane.Prelude.{
  ℕ, Str, str, str_eq, Bool, true, false, not, ◌&&◌, ◌||◌, List, [], ◌∷◌, ◌++◌, Option, none, some,
  if◌then◌else◌, ◌==◌, Result, ok, err, ok_or, ◌>>=◌,
}
use contextforge_data_plane.Prelude.Map.{Map}
use contextforge_data_plane.Json.{Value}
use contextforge_data_plane.Plugins.{Operation, operations, CpexCrate}

pub data GatewayPluginRuntimeError : Type 0 where
  configuration : (hook source : Str) → GatewayPluginRuntimeError
  initialization : (source : Str) → GatewayPluginRuntimeError
  config_store_unavailable : GatewayPluginRuntimeError
  config_wrong_format : GatewayPluginRuntimeError
  config_missing : GatewayPluginRuntimeError
  config_unsupported : GatewayPluginRuntimeError
  factory_registry_shared : GatewayPluginRuntimeError

-- `to_string`.
unfoldable pub display : GatewayPluginRuntimeError → Str
display (configuration hook source) = str "failed to register runtime " ++ hook ++ str " hook"
display (initialization source) = str "failed to initialize plugin runtime"
display config_store_unavailable = str "runtime plugin config store disconnected"
display config_wrong_format = str "runtime plugin config is in wrong format"
display config_missing = str "runtime plugin config is missing"
display config_unsupported = str "runtime plugin config is unsupported"
display factory_registry_shared = str "runtime plugin factories are already shared"

pub record PluginConfig : Type 0 where
  pub name : Str
  pub hooks : List Str
  pub conditions : List Value

-- The parts of `CpexConfig` that the gateway looks at.
pub record CpexConfig : Type 0 where
  pub plugins : List PluginConfig
  pub routing_enabled : Bool
  pub fail_on_plugin_error : Bool
  pub routes : List Value
  pub plugin_dirs : List Str
  pub policies : Map Value
  pub defaults : Map Value

pub record RuntimePluginConfigDocument : Type 0 where
  pub version : ℕ
  pub cpex : CpexConfig

pub record LoadedRuntimePluginConfig : Type 0 where
  pub document : RuntimePluginConfigDocument
  pub fingerprint : Str

pub record Decoders : Type 0 where
  pub from_json : Str → Option RuntimePluginConfigDocument
  pub from_message_pack : Str → Option RuntimePluginConfigDocument

abbrev runtime_plugin_config_version : ℕ
runtime_plugin_config_version = 1

abbrev pub Loading {ℓ} : Type ℓ → Type ℓ
Loading A = Result GatewayPluginRuntimeError A

-- `cpex_config`.
unfoldable pub cpex_config : RuntimePluginConfigDocument → Loading CpexConfig
cpex_config document =
    if document.version == runtime_plugin_config_version
    then ok document.cpex
    else err config_wrong_format

module _ (decoders : Decoders) where
  unfoldable pub decode_config_document : Str → Loading RuntimePluginConfigDocument
  decode_config_document config = elim (decoders.from_json config) [
    | some document ↦ ok document
    | none ↦ ok_or config_wrong_format (decoders.from_message_pack config)
  ]

  unfoldable pub decode : Str → Loading LoadedRuntimePluginConfig
  decode config = do
    document ← decode_config_document config
    ok (record { document = document; fingerprint = config })

  -- `get_config` on a store that has a connection already or not, where Redis can be reached or not and
  -- answers `GET` with an error, nothing, or bytes. Beside the result: is there a connection now?
  unfoldable pub connection : Bool → Bool → Bool × Loading (Unit {0})
  connection true reachable = (true, ok tt)
  connection false true = (true, ok tt)
  connection false false = (false, err config_store_unavailable)

  unfoldable pub get_config :
      Bool → Bool → Option (Option Str) → Bool × Loading (Option LoadedRuntimePluginConfig)
  get_config connected reachable answer =
      let opened = connection connected reachable in
      (
        opened.0,
        do
          _ ← opened.1
          config ← ok_or config_store_unavailable answer
          elim config [ none ↦ ok none | some bytes ↦ do loaded ← decode bytes; ok (some loaded) ],
      )

abbrev pub is_empty {ℓ} : {A : Type ℓ} → List A → Bool
is_empty [] = true
is_empty (_ ∷ _) = false

unfoldable pub any {ℓ} : {A : Type ℓ} → (A → Bool) → List A → Bool
any f [] = false
any f (x ∷ xs) = f x || any f xs

abbrev pub keep {ℓ} : {A : Type ℓ} → Option A → List A → List A
keep none xs = xs
keep (some x) xs = x ∷ xs

unfoldable pub declares : CpexConfig → Str → Bool
unfolding any
declares config hook_name =
    any (λ plugin. any (λ hook. str_eq hook hook_name) plugin.hooks) config.plugins

abbrev pub no_hooks : PluginConfig → Str
no_hooks config = str "plugin '" ++ config.name ++ str "' does not declare supported CMF hooks"

module _ {M C : Type 0} (cpex : CpexCrate M C) where
  abbrev pub hook_names : List Operation → List Str
  hook_names [] = []
  hook_names (o ∷ os) = cpex.pre_hook o ∷ cpex.post_hook o ∷ hook_names os

  abbrev pub find : Str → List Str → Option Str
  find hook [] = none
  find hook (name ∷ names) =
      let rest = find hook names in if str_eq name hook then some name else rest

  unfoldable pub supported_cmf_hook_name : Str → Option Str
  supported_cmf_hook_name hook = find hook (hook_names operations)

  abbrev pub is_unsupported : Str → Bool
  is_unsupported hook = elim (supported_cmf_hook_name hook) [ none ↦ true | some _ ↦ false ]

  unfoldable pub validate_plugins : List PluginConfig → Loading (Unit {0})
  unfolding any supported_cmf_hook_name
  validate_plugins [] = ok tt
  validate_plugins (plugin ∷ plugins) =
      let rest = validate_plugins plugins in
      if not (is_empty plugin.conditions)
      then err config_unsupported
      else if any is_unsupported plugin.hooks
      then err config_unsupported
      else rest

  unfoldable pub validate_gateway_supported_config : CpexConfig → Loading (Unit {0})
  validate_gateway_supported_config config =
      if config.routing_enabled
        || config.fail_on_plugin_error
        || not (is_empty config.routes)
        || not (is_empty config.plugin_dirs)
        || not (is_empty config.policies)
        || not (is_empty config.defaults)
      then err config_unsupported
      else validate_plugins config.plugins

  -- `CmfPluginFactory::create`: the hooks that the plugin's handlers are registered for, or an error.
  abbrev pub supported_hooks : List Str → List Str
  supported_hooks [] = []
  supported_hooks (hook ∷ hooks) = keep (supported_cmf_hook_name hook) (supported_hooks hooks)

  unfoldable pub create : PluginConfig → Result Str (List Str)
  create config =
      let handlers = supported_hooks config.hooks in
      if is_empty handlers then err (no_hooks config) else ok handlers
