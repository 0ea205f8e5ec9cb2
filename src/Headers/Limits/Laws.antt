-- ===== src/Headers/Limits/Laws.antt =====
-- When a request is within its budget.
use contextforge_data_plane.Prelude.{
  ℕ, ◌+◌, ◌≤◌, ◌<◌, min, Str, ◌≡◌, refl, ◌↔◌, inl, inr, true, [], ◌∷◌, none, if◌then◌else◌, length,
  arith, Bool-cases,
}
use contextforge_data_plane.Headers.{HeaderConstants, HeaderMap, is_limited}
use contextforge_data_plane.Headers.Limits.{
  StandardHeaderLimits, StandardHeaderUsage, usize_max, exceeds, add_usage, usage_from,
  mcp_standard_header_usage, exceeded_limits,
}

module _ (constants : HeaderConstants) where
  -- The MCP headers of a request: how many, and the bytes of their names and values.
  abbrev pub limited_count : HeaderMap → ℕ
  limited_count [] = 0
  limited_count ((name, value) ∷ headers) =
      (if is_limited constants name then 1 else 0) + limited_count headers

  abbrev pub limited_bytes : HeaderMap → ℕ
  limited_bytes [] = 0
  limited_bytes ((name, value) ∷ headers) =
      (if is_limited constants name then length name + length value else 0) + limited_bytes headers

  abbrev pub Fits : ℕ → HeaderMap → Type 0
  Fits bound [] = Unit
  Fits bound ((name, value) ∷ headers) =
      (is_limited constants name ≡ true → length value ≤ bound) × Fits bound headers

  abbrev pub IsBelowMax : StandardHeaderUsage → Type 0
  IsBelowMax u = (u.count ≤ usize_max) × (u.total_bytes ≤ usize_max)

  usage_from-cons :
      (u : StandardHeaderUsage) (name value : Str) (headers : HeaderMap)
      → usage_from constants u ((name, value) ∷ headers)
        ≡ usage_from constants
            (if is_limited constants name then add_usage constants u name value else u)
            headers
  unfolding usage_from
  usage_from-cons _ _ _ _ = refl

  usage_from-nil :
      (u : StandardHeaderUsage)
      → IsBelowMax u
      → ((usage_from constants u []).count ≡ min (u.count + 0) usize_max)
        × ((usage_from constants u []).total_bytes ≡ min (u.total_bytes + 0) usize_max)
  unfolding usage_from
  usage_from-nil u h = (omega arith, omega arith)

  usage_from-Fits-nil :
      (u : StandardHeaderUsage) (bound : ℕ)
      → ((usage_from constants u []).value_bytes ≤ bound)
        ↔ ((u.value_bytes ≤ bound) × Fits bound [])
  unfolding usage_from
  usage_from-Fits-nil u bound = ((λ h. (h, tt)), (λ h. h.0))

  -- The saturating loop computes the sums, capped, and a maximum.
  usage_from-sums :
      (u : StandardHeaderUsage) (headers : HeaderMap)
      → IsBelowMax u
      → ((usage_from constants u headers).count ≡ min (u.count + limited_count headers) usize_max)
        × ((usage_from constants u headers).total_bytes
            ≡ min (u.total_bytes + limited_bytes headers) usize_max)
  usage_from-sums u [] h = usage_from-nil u h
  usage_from-sums u ((name, value) ∷ headers) h = elim (Bool-cases (is_limited constants name)) [
    | inl e ↦
        let (a, b) =
          usage_from-sums (add_usage constants u name value) headers (omega arith, omega arith) in
        rw (usage_from-cons u name value headers, e) (omega arith, omega arith)
    | inr e ↦
        let (a, b) = usage_from-sums u headers h in
        rw (usage_from-cons u name value headers, e) (omega arith, omega arith)
  ]

  usage_from-Fits :
      (u : StandardHeaderUsage) (headers : HeaderMap) (bound : ℕ)
      → ((usage_from constants u headers).value_bytes ≤ bound)
        ↔ ((u.value_bytes ≤ bound) × Fits bound headers)
  usage_from-Fits u [] bound = usage_from-Fits-nil u bound
  usage_from-Fits u ((name, value) ∷ headers) bound =
      elim (Bool-cases (is_limited constants name)) [
        | inl e ↦
            let ih = usage_from-Fits (add_usage constants u name value) headers bound in
            rw (usage_from-cons u name value headers, e)
              (
                (λ h. let (a, b) = ih.0 h in (omega arith, ((λ _. omega arith), b))),
                (λ h. ih.1 (let k = h.1.0 refl in omega arith, h.1.1)),
              )
        | inr e ↦
            let ih = usage_from-Fits u headers bound in
            rw (usage_from-cons u name value headers, e)
              ((λ h. let (a, b) = ih.0 h in (a, ((λ f. cc), b))), (λ h. ih.1 (h.0, h.1.1)))
      ]

  exceeded-eq-none_iff :
      (headers : HeaderMap) (limits : StandardHeaderLimits)
      → (exceeded_limits constants headers limits ≡ none) ↔ (
          ((usage_from constants
              (record { count = 0; value_bytes = 0; total_bytes = 0 })
              headers).count
            ≤ limits.count)
          × ((usage_from constants
                (record { count = 0; value_bytes = 0; total_bytes = 0 })
                headers).value_bytes
              ≤ limits.value_bytes)
          × ((usage_from constants
                (record { count = 0; value_bytes = 0; total_bytes = 0 })
                headers).total_bytes
              ≤ limits.total_bytes))
  unfolding exceeded_limits mcp_standard_header_usage exceeds
  exceeded-eq-none_iff headers limits =
      let u =
        usage_from constants (record { count = 0; value_bytes = 0; total_bytes = 0 }) headers in
      ground arith

  -- A request is let through exactly when its MCP headers are at most `limits.count`, no value of them
  -- is longer than `limits.value_bytes`, and their names and values have at most `limits.total_bytes`
  -- bytes; for limits below the machine's maximum, where saturation would hide the excess.
  pub exceeded_limits-eq-none_iff :
      (headers : HeaderMap) (limits : StandardHeaderLimits)
      → limits.count < usize_max
      → limits.total_bytes < usize_max
      → (exceeded_limits constants headers limits ≡ none) ↔ (
          (limited_count headers ≤ limits.count)
          × Fits limits.value_bytes headers
          × (limited_bytes headers ≤ limits.total_bytes))
  exceeded_limits-eq-none_iff headers limits h k =
      let u : StandardHeaderUsage = record { count = 0; value_bytes = 0; total_bytes = 0 } in
      let (a, b) = usage_from-sums u headers (omega arith, omega arith) in
      let f = usage_from-Fits u headers limits.value_bytes in
      let e = exceeded-eq-none_iff headers limits in
      (
        (λ r. let (x, y, z) = e.0 r in (omega arith, (f.0 y).1, omega arith)),
        (λ (x, y, z). e.1 (omega arith, f.1 (omega arith, y), omega arith)),
      )
