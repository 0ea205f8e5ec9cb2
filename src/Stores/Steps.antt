-- ===== src/Stores/Steps.antt =====
-- The law of a cache, and the requests to a store with the configurations that Redis held.
use contextforge_data_plane.Prelude.{ℕ, ◌≡◌, ◌≢◌, Str, Bool, List, [], ◌∷◌, Option, some, ◌⊎◌, ok}
use contextforge_data_plane.Stores.{
  CachedEntry, Cache, Encoding, RedisStore, new, load, get_config, save, set_config,
}

-- What the code relies on of the cache: an entry that it gives out was put in under its key, and by the
-- last insertion under it. `content` is what it may give out.
pub record IsCache {V S : Type 0} (lru : Cache V S) : Type 1 where
  pub content : S → Str → CachedEntry V → Type 0
  pub empty_holds : (k : Str) (e : CachedEntry V) → ¬ content lru.empty k e
  pub get_gives :
      (now : ℕ) (k : Str) (s : S) (e : CachedEntry V)
      → (lru.get_mut now k s).0 ≡ some e
      → content s k e
  pub get_keeps :
      (now : ℕ) (k j : Str) (s : S) (e : CachedEntry V)
      → content (lru.get_mut now k s).1 j e
      → content s j e
  pub insert_holds :
      (now : ℕ) (k j : Str) (f e : CachedEntry V) (s : S)
      → content (lru.insert now k f s) j e
      → ((k ≡ j) × (e ≡ f)) ⊎ ((k ≢ j) × content s j e)

-- A request to the store: when, for what, and what Redis answers then.
pub data Step (V : Type 0) : Type 0 where
  get : (now : ℕ) (subject : Str) (answer : Option (Option Str)) → Step V
  set : (now : ℕ) (subject : Str) (config : V) (success : Bool) → Step V

module _ {V S : Type 0} (lru : Cache V S) (encoding : Encoding V) where
  unfoldable pub perform : Step V → RedisStore S → RedisStore S
  perform (get now subject answer) store = (get_config lru encoding now subject answer store).1
  perform (set now subject config success) store =
      (set_config lru encoding now subject config success store).1

  -- The store after steps, the last one first.
  unfoldable pub after : List (Step V) → ℕ → RedisStore S
  unfolding perform
  after [] expiry = new lru encoding expiry
  after (step ∷ steps) expiry = perform step (after steps expiry)

  -- At that time Redis held the configuration under the subject's key, or it was written there.
  unfoldable pub Holds : Step V → ℕ → Str → V → Type 0
  Holds (get now subject answer) at k config =
      (now ≡ at) × (subject ≡ k) × (load lru encoding subject answer ≡ ok config)
  Holds (set now subject written success) at k config =
      (now ≡ at)
      × (subject ≡ k)
      × (written ≡ config)
      × (save lru encoding subject written success ≡ ok tt)

  unfoldable pub Held : List (Step V) → ℕ → Str → V → Type 0
  unfolding Holds
  Held [] at k config = ⊥
  Held (step ∷ steps) at k config = Holds step at k config ⊎ Held steps at k config
