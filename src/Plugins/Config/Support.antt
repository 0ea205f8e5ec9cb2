-- ===== src/Plugins/Config/Support.antt =====
-- The hooks that the plugins of an accepted configuration declare.
use contextforge_data_plane.Prelude.{◌≡◌, Str, str_eq, true, ◌⊎◌, List, [], ◌∷◌}
use contextforge_data_plane.Plugins.{CpexCrate, Operation}
use contextforge_data_plane.Plugins.Config.{declares, PluginConfig, CpexConfig, any}
use contextforge_data_plane.Plugins.Runtime.{GatewayPluginRuntime}

module _ {M C : Type 0} (cpex : CpexCrate M C) where
  -- The hook is one that the gateway calls around an operation.
  abbrev IsHook : List Operation → Str → Type 0
  IsHook [] hook = ⊥
  IsHook (o ∷ os) hook = ((hook ≡ cpex.pre_hook o) ⊎ (hook ≡ cpex.post_hook o)) ⊎ IsHook os hook

  -- The runtime calls the hook around an operation.
  abbrev pub IsRun : GatewayPluginRuntime M → Str → Type 0
  IsRun runtime hook =
      (operation : Operation) × (((hook ≡ cpex.pre_hook operation)
          × ((runtime.hooks operation).pre ≡ true))
        ⊎ ((hook ≡ cpex.post_hook operation) × ((runtime.hooks operation).post ≡ true)))

  abbrev Declared : List PluginConfig → Str → Type 0
  Declared plugins hook = any (λ plugin. any (λ h. str_eq h hook) plugin.hooks) plugins ≡ true

  -- The hooks of the runtime are those that the configuration declares.
  record RunsDeclared (config : CpexConfig) (runtime : GatewayPluginRuntime M) : Type 0 where
    pre : (o : Operation) → (runtime.hooks o).pre ≡ declares config (cpex.pre_hook o)
    post : (o : Operation) → (runtime.hooks o).post ≡ declares config (cpex.post_hook o)
