-- ===== src/Stores/Recent.antt =====
-- How old a configuration from the store may be.
use contextforge_data_plane.Prelude.{
  ℕ, ◌-◌, ◌<◌, ◌≡◌, refl, sym, ap, ◌∙◌, subst, Str, Bool, true, List, [], ◌∷◌, Option, none, some,
  ◌⊎◌, inl, inr, Bool-cases, Result, ok, err, ok-inj, ◌==◌, if◌then◌else◌, ltb, ltb→lt,
}
use contextforge_data_plane.Prelude.Maybe.{some-inj}
use contextforge_data_plane.Layers.{ConfigStoreError}
use contextforge_data_plane.Stores.{
  CachedEntry, Cache, Encoding, RedisStore, new, is_fresh, cached, fresh_config, remember,
  answer_with, load, get_config, save, set_config, store_saved,
}
use contextforge_data_plane.Stores.Steps.{IsCache, Step, get, set, perform, after, Holds, Held}

module _ {V S : Type 0} (lru : Cache V S) (laws : IsCache lru) (encoding : Encoding V) where
  -- Every entry that the cache may give out was in Redis when it was put in.
  record IsBacked (steps : List (Step V)) (cache : Option S) : Type 0 where
    backed :
        (s : S) (k : Str) (e : CachedEntry V)
        → cache ≡ some s
        → laws.content s k e
        → Held lru encoding steps e.inserted_at k e.config

  nothing-IsBacked : (steps : List (Step V)) → IsBacked steps none
  nothing-IsBacked steps = record { backed = λ s k e c h. absurd cc }

  some-IsBacked :
      (steps : List (Step V)) (s : S)
      → ((k : Str) (e : CachedEntry V)
          → laws.content s k e
          → Held lru encoding steps e.inserted_at k e.config)
      → IsBacked steps (some s)
  some-IsBacked steps s f = record {
    backed = λ t k e c h. f k e (subst (λ x. laws.content x k e) (sym (some-inj c)) h);
  }

  later-IsBacked :
      (step : Step V) (steps : List (Step V)) (cache : Option S)
      → IsBacked steps cache
      → IsBacked (step ∷ steps) cache
  unfolding Held
  later-IsBacked step steps cache h = record { backed = λ s k e c i. inr (h.backed s k e c i) }

  cached-IsBacked :
      (steps : List (Step V)) (now expiry : ℕ) (k : Str) (cache : Option S)
      → IsBacked steps cache
      → IsBacked steps (cached lru encoding now expiry k cache).1
  unfolding cached
  cached-IsBacked steps now expiry k none h = h
  cached-IsBacked steps now expiry k (some s) h =
      some-IsBacked steps _ (λ j e c. h.backed s j e refl (laws.get_keeps now k j s e c))

  remember-IsBacked :
      (step : Step V) (steps : List (Step V)) (now : ℕ) (k : Str) (config : V) (cache : Option S)
      → IsBacked steps cache
      → Holds lru encoding step now k config
      → IsBacked (step ∷ steps) (remember lru encoding now k config cache)
  unfolding Held
  remember-IsBacked step steps now k config none h i = nothing-IsBacked _
  remember-IsBacked step steps now k config (some s) h i =
      let entry : CachedEntry V = record { inserted_at = now; config = config } in
      some-IsBacked (step ∷ steps) (lru.insert now k entry s) (λ j e c.
        elim (laws.insert_holds now k j entry e s c) [
          | inl (same, new_entry) ↦ inl (
              subst (λ f. Holds lru encoding step f.inserted_at j f.config) (sym new_entry)
                (subst (λ x. Holds lru encoding step now x config) same i))
          | inr (_, old) ↦ inr (h.backed s j e refl old)
        ])

  answer-IsBacked :
      (steps : List (Step V)) (now : ℕ) (k : Str) (answer : Option (Option Str))
      (found : Option V × Option S) (loaded : Result ConfigStoreError V)
      → loaded ≡ load lru encoding k answer
      → IsBacked steps found.1
      → IsBacked (get now k answer ∷ steps) (answer_with lru encoding now k found loaded).1
  unfolding Holds
  answer-IsBacked steps now k answer (some config, cache) loaded e h =
      later-IsBacked _ steps cache h
  answer-IsBacked steps now k answer (none, cache) (ok config) e h =
      remember-IsBacked _ steps now k config cache h (refl, refl, sym e)
  answer-IsBacked steps now k answer (none, cache) (err _) e h = later-IsBacked _ steps cache h

  saved-IsBacked :
      (steps : List (Step V)) (now : ℕ) (k : Str) (config : V) (success : Bool)
      (store : RedisStore S) (saved : Result ConfigStoreError (Unit {0}))
      → saved ≡ save lru encoding k config success
      → IsBacked steps store.cache
      → IsBacked
          (set now k config success ∷ steps)
          (store_saved lru encoding now k config store saved).cache
  unfolding Holds
  saved-IsBacked steps now k config success store (ok _) e h =
      remember-IsBacked _ steps now k config store.cache h (refl, refl, refl, sym e)
  saved-IsBacked steps now k config success store (err _) e h = later-IsBacked _ steps store.cache h

  perform-IsBacked :
      (step : Step V) (steps : List (Step V)) (store : RedisStore S)
      → IsBacked steps store.cache
      → IsBacked (step ∷ steps) (perform lru encoding step store).cache
  unfolding perform get_config set_config
  perform-IsBacked (get now k answer) steps store h =
      answer-IsBacked steps now k answer _ _ refl
        (cached-IsBacked steps now store.cache_expiry k _ h)
  perform-IsBacked (set now k config success) steps store h =
      saved-IsBacked steps now k config success store _ refl h

  new-IsBacked : (expiry : ℕ) → IsBacked [] (new lru encoding expiry).cache
  unfolding new
  new-IsBacked expiry = elim (Bool-cases (expiry == 0)) [
    | inl e ↦ rw e (nothing-IsBacked [])
    | inr e ↦ rw e (some-IsBacked [] lru.empty (λ k f c. absurd (laws.empty_holds k f c)))
  ]

  after-IsBacked :
      (steps : List (Step V)) (expiry : ℕ) → IsBacked steps (after lru encoding steps expiry).cache
  unfolding after
  after-IsBacked [] expiry = new-IsBacked expiry
  after-IsBacked (step ∷ steps) expiry =
      perform-IsBacked step steps (after lru encoding steps expiry) (after-IsBacked steps expiry)

  store_saved-expiry :
      (now : ℕ) (k : Str) (config : V) (store : RedisStore S)
      (saved : Result ConfigStoreError (Unit {0}))
      → (store_saved lru encoding now k config store saved).cache_expiry ≡ store.cache_expiry
  store_saved-expiry now k config store (ok _) = refl
  store_saved-expiry now k config store (err _) = refl

  perform-expiry :
      (step : Step V) (store : RedisStore S)
      → (perform lru encoding step store).cache_expiry ≡ store.cache_expiry
  unfolding perform get_config set_config
  perform-expiry (get now k answer) store = refl
  perform-expiry (set now k config success) store = store_saved-expiry now k config store _

  after-expiry :
      (steps : List (Step V)) (expiry : ℕ) → (after lru encoding steps expiry).cache_expiry ≡ expiry
  unfolding after new
  after-expiry [] expiry = refl
  after-expiry (step ∷ steps) expiry =
      perform-expiry step (after lru encoding steps expiry) ∙ after-expiry steps expiry

  fresh_config-eq-some :
      (now expiry : ℕ) (found : Option (CachedEntry V)) {config : V}
      → fresh_config lru encoding now expiry found ≡ some config
      → (e : CachedEntry V) × (found ≡ some e)
        × (e.config ≡ config)
        × (now - e.inserted_at < expiry)
  unfolding fresh_config is_fresh
  fresh_config-eq-some now expiry none h = absurd cc
  fresh_config-eq-some now expiry (some e) {config} h =
      elim (Bool-cases (ltb (now - e.inserted_at) expiry)) [
        | inl f ↦
            let g = subst (λ b. (if b then some e.config else none) ≡ some config) f h in
            (e, refl, some-inj g, ltb→lt _ _ f)
        | inr f ↦
            let g = subst (λ b. (if b then some e.config else none) ≡ some config) f h in absurd cc
      ]

  cached-fresh :
      (now expiry : ℕ) (k : Str) (cache : Option S) {config : V}
      → (cached lru encoding now expiry k cache).0 ≡ some config
      → (s : S) × (e : CachedEntry V) × (cache ≡ some s)
        × laws.content s k e
        × (e.config ≡ config)
        × (now - e.inserted_at < expiry)
  unfolding cached
  cached-fresh now expiry k none h = absurd cc
  cached-fresh now expiry k (some s) h =
      let (e, found, same, fresh) = fresh_config-eq-some now expiry (lru.get_mut now k s).0 h in
      (s, e, refl, laws.get_gives now k s e found, same, fresh)

  answer_with-eq-ok :
      (now : ℕ) (k : Str) (found : Option V × Option S) (loaded : Result ConfigStoreError V)
      {config : V}
      → (answer_with lru encoding now k found loaded).0 ≡ ok config
      → (found.0 ≡ some config) ⊎ (loaded ≡ ok config)
  answer_with-eq-ok now k (some v, cache) loaded h = inl (ap some (ok-inj h))
  answer_with-eq-ok now k (none, cache) loaded h = inr h

  -- If the cache gives out only what was put in last under a key, then a configuration that the store
  -- returns after any requests is one that Redis holds now, or held, or was given, for the same subject,
  -- less than the expiry ago.
  pub get_config-recent :
      (steps : List (Step V)) (expiry now : ℕ) (k : Str) (answer : Option (Option Str)) {config : V}
      → (get_config lru encoding now k answer (after lru encoding steps expiry)).0 ≡ ok config
      → (load lru encoding k answer ≡ ok config)
        ⊎ ((at : ℕ) × Held lru encoding steps at k config × (now - at < expiry))
  unfolding get_config
  get_config-recent steps expiry now k answer {config} h =
      let store = after lru encoding steps expiry in
      elim (answer_with-eq-ok now k (cached lru encoding now store.cache_expiry k store.cache) _
        h) [
          | inr loaded ↦ inl loaded
          | inl hit ↦
              let (s, e, holds, content, same, fresh) =
                cached-fresh now store.cache_expiry k store.cache hit in
              let held = (after-IsBacked steps expiry).backed s k e holds content in
              inr (
                e.inserted_at,
                subst (λ v. Held lru encoding steps e.inserted_at k v) same held,
                subst (λ x. now - e.inserted_at < x) (after-expiry steps expiry) fresh,
              )
        ]

  answer_with_same :
      (later : ℕ) (k : Str) (config : V) (found : Option V) (cache : Option S)
      → ((v : V) → found ≡ some v → v ≡ config)
      → (answer_with lru encoding later k (found, cache) (ok config)).0 ≡ ok config
  answer_with_same later k config none cache f = refl
  answer_with_same later k config (some v) cache f = ap ok (f v refl)

  remembered-served :
      (now later expiry : ℕ) (k : Str) (config : V) (cache : Option S)
      → (answer_with lru encoding later k
          (cached lru encoding later expiry k (remember lru encoding now k config cache))
          (ok config)).0
        ≡ ok config
  unfolding cached
  remembered-served now later expiry k config none = refl
  remembered-served now later expiry k config (some s) =
      let entry : CachedEntry V = record { inserted_at = now; config = config } in
      let put = lru.insert now k entry s in
      answer_with_same later k config _ _ (λ v found.
        let (e, given, same, _) =
          fresh_config-eq-some later expiry (lru.get_mut later k put).0 found in
        let holds = laws.get_gives later k put e given in
        elim (laws.insert_holds now k k entry e s holds) [
          | inl (_, new_entry) ↦ sym same ∙ ap (λ f. f.config) new_entry
          | inr (other, _) ↦ absurd (other refl)
        ])

  -- If the cache gives out only what was put in last under a key, and a value is encoded to bytes that decode
  -- to it, then after a successful write any read under the same key, for which Redis answers those bytes or
  -- which the cache serves, gives the value back, at any time.
  pub get_config-set_config :
      (store : RedisStore S) (now later : ℕ) (k key bytes : Str) (config : V)
      → encoding.encode_key k ≡ some key
      → encoding.encode config ≡ some bytes
      → encoding.decode bytes ≡ some config
      → (get_config lru encoding later k
          (some (some bytes))
          (set_config lru encoding now k config true store).1).0
        ≡ ok config
  unfolding get_config set_config save load
  get_config-set_config store now later k key bytes config ek ev dv =
      let saved : save lru encoding k config true ≡ ok tt = rw (ek, ev) refl in
      let loaded : load lru encoding k (some (some bytes)) ≡ ok config = rw (ek, dv) refl in
      rw (saved) (rw (loaded) (remembered-served now later store.cache_expiry k config store.cache))
