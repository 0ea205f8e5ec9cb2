-- ===== src/Stores/Tests.antt =====
-- A cache that is a map, and the instances of the theorems.
use contextforge_data_plane.Prelude.{
  ℕ, ◌-◌, ◌<◌, ◌≡◌, ◌≢◌, refl, sym, subst, ◌∙◌, Str, str, str_eq, str_eq_iff, true, [], ◌∷◌, none,
  some, ◌⊎◌, inl, inr, Bool-cases, if◌then◌else◌, ok,
}
use contextforge_data_plane.Prelude.Maybe.{some-inj}
use contextforge_data_plane.Prelude.Map.{Map, lookup, insert, lookup-insert}
use contextforge_data_plane.Stores.{CachedEntry, Cache, Encoding, load, get_config, set_config, new}
use contextforge_data_plane.Stores.Steps.{IsCache, set, after, Held}
use contextforge_data_plane.Stores.Recent.{get_config-recent, get_config-set_config}

abbrev maps : Cache Str (Map (CachedEntry Str))
maps = record {
  empty = [];
  get_mut = λ now k s. (lookup k s, s);
  insert = λ now k e s. insert k e s;
}

insert_holds :
    (k j : Str) (f e : CachedEntry Str) (s : Map (CachedEntry Str))
    → lookup j (insert k f s) ≡ some e
    → ((k ≡ j) × (e ≡ f)) ⊎ ((k ≢ j) × (lookup j s ≡ some e))
insert_holds k j f e s h =
    let chosen : (if str_eq k j then some f else lookup j s) ≡ some e =
      sym (lookup-insert k j f s) ∙ h in
    elim (Bool-cases (str_eq k j)) [
      | inl same ↦ inl (
        (str_eq_iff k j).0 same,
        sym (some-inj (subst (λ b. (if b then some f else lookup j s) ≡ some e) same chosen)),
      )
      | inr different ↦ inr (
        λ p. let same = (str_eq_iff k j).1 p in cc,
        subst (λ b. (if b then some f else lookup j s) ≡ some e) different chosen,
      )
    ]

maps-IsCache : IsCache maps
unfolding lookup
maps-IsCache = record {
  content = λ s k e. lookup k s ≡ some e;
  empty_holds = λ k e h. cc;
  get_gives = λ now k s e h. h;
  get_keeps = λ now k j s e h. h;
  insert_holds = λ now k j f e s h. insert_holds k j f e s h;
}

abbrev encoding : Encoding Str
encoding = record { encode_key = λ k. some k; encode = λ v. some v; decode = λ bytes. some bytes }

get_config-recent_example :
    (load maps encoding (str "alice") none ≡ ok (str "config"))
    ⊎ ((at : ℕ) × Held maps encoding
          (set 3 (str "alice") (str "config") true ∷ [])
          at
          (str "alice")
          (str "config")
        × (7 - at < 300))
unfolding get_config after set_config new lookup insert str_eq str
get_config-recent_example =
    get_config-recent maps maps-IsCache encoding (set 3 (str "alice") (str "config") true ∷ []) 300
      7 (str "alice") none refl

get_config-set_config_example :
    (get_config maps encoding 9
      (str "alice")
      (some (some (str "config")))
      (set_config maps encoding 3 (str "alice") (str "config") true (new maps encoding 300)).1).0
    ≡ ok (str "config")
get_config-set_config_example =
    get_config-set_config maps maps-IsCache encoding (new maps encoding 300) 3 9 (str "alice")
      (str "alice") (str "config") (str "config") refl refl refl
