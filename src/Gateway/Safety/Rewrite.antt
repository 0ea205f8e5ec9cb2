-- ===== src/Gateway/Safety/Rewrite.antt =====
-- The route that a plugin's URI selects in place of the requested one.
use contextforge_data_plane.Prelude.{
  Str, str_eq, str_eq_iff, arith, any, not, All, Bool-cases, ◌≡◌, refl, sym, ◌∙◌, ap, subst, ◌⊎◌,
  inl, inr, true, false, List, [], ◌∷◌, ◌++◌, some, ok,
}
use contextforge_data_plane.Prelude.Map.{Map}
use contextforge_data_plane.UserStore.{ServiceRoute, VirtualHost}
use contextforge_data_plane.Gateway.Handlers.{rewrite_route, candidates, select_candidate}

any-All :
    (name : Str) (routes : List ServiceRoute)
    → any (λ c. not (str_eq c.backend_name name)) routes ≡ false
    → All (λ c. c.backend_name ≡ name) routes
any-All name [] h = tt
any-All name (c ∷ routes) h =
    (ground (arith, str_eq_iff c.backend_name name), any-All name routes (ground arith))

select_candidate-candidates :
    (host : VirtualHost) (route : ServiceRoute) (uri : Str)
    → str_eq uri route.upstream_name ≡ false
    → select_candidate (candidates uri host.resources) ≡ rewrite_route host route (some uri)
unfolding rewrite_route
select_candidate-candidates host route uri h = rw h refl

select_unique :
    (selected : ServiceRoute) (found : List ServiceRoute)
    → select_candidate found ≡ ok selected
    → (others : List ServiceRoute) × (found ≡ selected ∷ others)
      × All (λ c. c.backend_name ≡ selected.backend_name) others
unfolding select_candidate
select_unique selected [] h = cc
select_unique selected (first ∷ others) h =
    elim (Bool-cases (any (λ c. not (str_eq c.backend_name first.backend_name)) others)) [
      | inl e ↦ cc
      | inr e ↦
          let k : first ≡ selected = cc in
          (
            others,
            ap (λ c. c ∷ others) k,
            subst (λ x. All (λ c. c.backend_name ≡ x.backend_name) others) k
                (any-All first.backend_name others e),
          )
    ]

-- The first resource with the URI as its upstream name is on the route.
abbrev pub IsFirst : Str → ServiceRoute → Map ServiceRoute → Type 0
IsFirst uri selected resources =
    (earlier : Map ServiceRoute) × (key : Str) × (later : Map ServiceRoute) × (resources
      ≡ earlier ++ (key, selected) ∷ later)
    × (selected.upstream_name ≡ uri)
    × All (λ r. ¬ (r.1.upstream_name ≡ uri)) earlier

-- A resource has another upstream name than the URI, or is on the backend.
abbrev pub IsOn : Str → Str → Str × ServiceRoute → Type 0
IsOn uri backend_name (_, route) =
    (¬ (route.upstream_name ≡ uri)) ⊎ (route.backend_name ≡ backend_name)

candidates-skip :
    (uri key : Str) (route : ServiceRoute) (resources : Map ServiceRoute)
    → str_eq route.upstream_name uri ≡ false
    → candidates uri ((key, route) ∷ resources) ≡ candidates uri resources
unfolding candidates
candidates-skip uri key route resources h = rw h refl

candidates-take :
    (uri key : Str) (route : ServiceRoute) (resources : Map ServiceRoute)
    → str_eq route.upstream_name uri ≡ true
    → candidates uri ((key, route) ∷ resources) ≡ route ∷ candidates uri resources
unfolding candidates
candidates-take uri key route resources h = rw h refl

candidates-IsFirst :
    (uri : Str) (resources : Map ServiceRoute) (selected : ServiceRoute)
    (others : List ServiceRoute)
    → candidates uri resources ≡ selected ∷ others
    → IsFirst uri selected resources
unfolding candidates
candidates-IsFirst uri [] selected others h = absurd cc
candidates-IsFirst uri ((key, route) ∷ resources) selected others h =
    elim (Bool-cases (str_eq route.upstream_name uri)) [
      | inl e ↦
          let same : route ≡ selected =
            (let k = sym (candidates-take uri key route resources e) ∙ h in cc) in
          (
            [],
            key,
            resources,
            ap (λ r. (key, r) ∷ resources) same,
            ap (λ r. r.upstream_name) (sym same) ∙ (str_eq_iff route.upstream_name uri).0 e,
            tt,
          )
      | inr e ↦
          let (earlier, other, later, split, named, unnamed) =
            candidates-IsFirst uri resources selected others
              (sym (candidates-skip uri key route resources e) ∙ h) in
          (
            (key, route) ∷ earlier,
            other,
            later,
            ap (λ r. (key, route) ∷ r) split,
            named,
            ((λ k. let l = (str_eq_iff route.upstream_name uri).1 k in cc), unnamed),
          )
    ]

candidates-IsOn :
    (uri name : Str) (resources : Map ServiceRoute)
    → All (λ c. c.backend_name ≡ name) (candidates uri resources)
    → All (IsOn uri name) resources
candidates-IsOn uri name [] h = tt
candidates-IsOn uri name ((key, route) ∷ resources) h =
    let P = All (λ (c : ServiceRoute). c.backend_name ≡ name) in
    elim (Bool-cases (str_eq route.upstream_name uri)) [
      | inl e ↦
          let (on, rest) = subst P (candidates-take uri key route resources e) h in
          (inr on, candidates-IsOn uri name resources rest)
      | inr e ↦ (
        inl (λ k. let l = (str_eq_iff route.upstream_name uri).1 k in cc),
        candidates-IsOn uri name resources (subst P (candidates-skip uri key route resources e) h),
      )
    ]

-- A plugin's URI never selects a backend by the order in which the resources are listed: the route that
-- stands in for the requested one, when the URI is not the upstream name of that one, is the first resource
-- of the virtual host with that URI as its upstream name, and every other resource of the virtual host
-- with that upstream name is on the same backend.
pub rewrite_route_unique :
    (host : VirtualHost) (route selected : ServiceRoute) (uri : Str)
    → str_eq uri route.upstream_name ≡ false
    → rewrite_route host route (some uri) ≡ ok selected
    → IsFirst uri selected host.resources × All (IsOn uri selected.backend_name) host.resources
rewrite_route_unique host route selected uri h k =
    let (others, found, on) =
      select_unique selected (candidates uri host.resources)
        (select_candidate-candidates host route uri h ∙ k) in
    (
      candidates-IsFirst uri host.resources selected others found,
      candidates-IsOn uri selected.backend_name host.resources
          (subst (All (λ c. c.backend_name ≡ selected.backend_name)) (sym found) (refl, on)),
    )
