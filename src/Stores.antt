-- ===== src/Stores.antt =====
-- crates/contextforge-data-plane-lib/src/config_stores: the store of configurations in Redis, with a cache in
-- front of it. `lru_time_cache` is a record of functions; times are natural numbers, and an operation is given
-- the time and what Redis answers then. The errors are those of `Layers`.
pub mod Steps
pub mod Recent
mod Tests
use contextforge_data_plane.Prelude.{
  ℕ, ◌-◌, Str, str, Bool, List, Option, none, some, if◌then◌else◌, ltb, ◌==◌, Result, ok, err,
  ok_or, ◌>>=◌,
}
use contextforge_data_plane.Layers.{
  ConfigStoreError, no_data_for_key, data_wrong_format, data_encoding, cant_write_data,
  invalid_configuration,
}

pub record CachedEntry (V : Type 0) : Type 0 where
  pub inserted_at : ℕ
  pub config : V

-- `LruCache`: `get_mut` and `insert` at a time, each of which may drop other entries.
pub record Cache (V S : Type 0) : Type 0 where
  pub empty : S
  pub get_mut : ℕ → Str → S → Option (CachedEntry V) × S
  pub insert : ℕ → Str → CachedEntry V → S → S

-- The `rmp_serde` encoding of keys and values.
pub record Encoding (V : Type 0) : Type 0 where
  pub encode_key : Str → Option Str
  pub encode : V → Option Str
  pub decode : Str → Option V

-- `None` if caching is disabled.
pub record RedisStore (S : Type 0) : Type 0 where
  pub cache : Option S
  pub cache_expiry : ℕ

module _ {V S : Type 0} (lru : Cache V S) (encoding : Encoding V) where
  unfoldable pub new : ℕ → RedisStore S
  new cache_expiry = record {
    cache = if cache_expiry == 0 then none else some lru.empty;
    cache_expiry = cache_expiry;
  }

  -- `elapsed` is 0 for a time that is not past.
  unfoldable pub is_fresh : ℕ → ℕ → CachedEntry V → Bool
  is_fresh now expiry entry = ltb (now - entry.inserted_at) expiry

  unfoldable pub fresh_config : ℕ → ℕ → Option (CachedEntry V) → Option V
  unfolding is_fresh
  fresh_config now expiry none = none
  fresh_config now expiry (some entry) =
      if is_fresh now expiry entry then some entry.config else none

  unfoldable pub cached : ℕ → ℕ → Str → Option S → Option V × Option S
  cached now expiry subject none = (none, none)
  cached now expiry subject (some cache) =
      let found = lru.get_mut now subject cache in (fresh_config now expiry found.0, some found.1)

  abbrev pub remember : ℕ → Str → V → Option S → Option S
  remember now subject config none = none
  remember now subject config (some cache) =
      some (lru.insert now subject (record { inserted_at = now; config = config }) cache)

  -- What Redis answers: an error, nothing, or bytes.
  abbrev answered : Option (Option Str) → Result ConfigStoreError Str
  answered (some (some bytes)) = ok bytes
  answered _ = err no_data_for_key

  unfoldable pub load : Str → Option (Option Str) → Result ConfigStoreError V
  load subject answer = do
    _ ← ok_or data_encoding (encoding.encode_key subject)
    bytes ← answered answer
    ok_or data_wrong_format (encoding.decode bytes)

  abbrev pub keep : ℕ → Str → Option S → Result ConfigStoreError V → Option S
  keep now subject cache (ok config) = remember now subject config cache
  keep now subject cache (err _) = cache

  abbrev pub answer_with :
      ℕ
      → Str
      → Option V × Option S
      → Result ConfigStoreError V
      → Result ConfigStoreError V × Option S
  answer_with now subject (some config, cache) loaded = (ok config, cache)
  answer_with now subject (none, cache) loaded = (loaded, keep now subject cache loaded)

  unfoldable pub get_config :
      ℕ → Str → Option (Option Str) → RedisStore S → Result ConfigStoreError V × RedisStore S
  unfolding cached load fresh_config
  get_config now subject answer store =
      let result =
        answer_with now subject (cached now store.cache_expiry subject store.cache)
          (load subject answer) in
      (result.0, record store { cache = result.1 })

  -- Is the write to Redis successful?
  abbrev written : Bool → Result ConfigStoreError (Unit {0})
  written success = if success then ok tt else err cant_write_data

  unfoldable pub save : Str → V → Bool → Result ConfigStoreError (Unit {0})
  save subject config success = do
    _ ← ok_or data_encoding (encoding.encode_key subject)
    _ ← ok_or data_encoding (encoding.encode config)
    written success

  abbrev pub store_saved :
      ℕ → Str → V → RedisStore S → Result ConfigStoreError (Unit {0}) → RedisStore S
  store_saved now subject config store (ok _) = record store {
    cache = remember now subject config store.cache;
  }
  store_saved now subject config store (err _) = store

  unfoldable pub set_config :
      ℕ → Str → V → Bool → RedisStore S → Result ConfigStoreError (Unit {0}) × RedisStore S
  unfolding save
  set_config now subject config success store =
      let saved = save subject config success in (saved, store_saved now subject config store saved)

  -- A store of its own for one use: the client is made from the configuration or not, Redis can be reached or
  -- not; the cache keeps its entries for five seconds.
  unfoldable pub open_global : Result Str (Unit {0}) → Bool → Result ConfigStoreError (RedisStore S)
  unfolding new
  open_global (err e) reachable = err (invalid_configuration e)
  open_global (ok _) reachable =
      if reachable then ok (new 5) else err (invalid_configuration (str "data store disconnected"))

  abbrev global_config_key : Str
  global_config_key = str "CONTEXT_FORGE_GLOBAL_CONFIG"

  unfoldable pub get_global_config :
      ℕ → Result Str (Unit {0}) → Bool → Option (Option Str) → Result ConfigStoreError V
  unfolding open_global get_config
  get_global_config now client reachable answer = do
    store ← open_global client reachable
    (get_config now global_config_key answer store).0

  unfoldable pub set_global_config :
      ℕ → Result Str (Unit {0}) → Bool → V → Bool → Result ConfigStoreError (Unit {0})
  unfolding open_global set_config
  set_global_config now client reachable config success = do
    store ← open_global client reachable
    (set_config now global_config_key config success store).0
