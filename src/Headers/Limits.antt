-- ===== src/Headers/Limits.antt =====
-- layers/mcp_header_limits.rs: the budget of MCP headers on one request.
pub mod Laws
use contextforge_data_plane.Prelude.{
  ℕ, zero, ◌+◌, ◌^◌, ◌-◌, ◌*◌, min, max, Str, Bool, ◌||◌, List, [], ◌∷◌, Option, none, some,
  if◌then◌else◌, ltb, ◌==◌, length,
}
use contextforge_data_plane.Headers.{HeaderConstants, HeaderMap, is_limited}

abbrev pub usize_max : ℕ
usize_max = 2 ^ 64 - 1

pub record StandardHeaderLimits : Type 0 where
  pub count : ℕ
  pub value_bytes : ℕ
  pub total_bytes : ℕ

pub record StandardHeaderUsage : Type 0 where
  pub count : ℕ
  pub value_bytes : ℕ
  pub total_bytes : ℕ

-- common/config.rs
abbrev pub default_max_count : ℕ
default_max_count = 32

abbrev pub default_max_value_bytes : ℕ
default_max_value_bytes = 8 * 1024

abbrev pub default_max_total_bytes : ℕ
default_max_total_bytes = 64 * 1024

configured_or_default : ℕ → ℕ → ℕ
configured_or_default configured default = if configured == 0 then default else configured

-- `From<&Config>`, from the three fields of the configuration that it reads.
pub limits_of_config : ℕ → ℕ → ℕ → StandardHeaderLimits
limits_of_config count value_bytes total_bytes = record {
  count = configured_or_default count default_max_count;
  value_bytes = configured_or_default value_bytes default_max_value_bytes;
  total_bytes = configured_or_default total_bytes default_max_total_bytes;
}

abbrev saturating_add : ℕ → ℕ → ℕ
saturating_add a b = min (a + b) usize_max

exceeds : StandardHeaderUsage → StandardHeaderLimits → Bool
exceeds usage limits =
    ltb limits.count usage.count
    || ltb limits.value_bytes usage.value_bytes
    || ltb limits.total_bytes usage.total_bytes

module _ (constants : HeaderConstants) where
  abbrev add_usage : StandardHeaderUsage → Str → Str → StandardHeaderUsage
  add_usage usage name value = record {
    count = saturating_add usage.count 1;
    value_bytes = max usage.value_bytes (length value);
    total_bytes = saturating_add (saturating_add usage.total_bytes (length name)) (length value);
  }

  usage_from : StandardHeaderUsage → HeaderMap → StandardHeaderUsage
  usage_from usage [] = usage
  usage_from usage ((name, value) ∷ headers) =
      usage_from (if is_limited constants name then add_usage usage name value else usage) headers

  pub mcp_standard_header_usage : HeaderMap → StandardHeaderUsage
  mcp_standard_header_usage headers =
      usage_from (record { count = 0; value_bytes = 0; total_bytes = 0 }) headers

  unfoldable pub exceeded_limits : HeaderMap → StandardHeaderLimits → Option StandardHeaderUsage
  unfolding usage_from mcp_standard_header_usage exceeds
  exceeded_limits headers limits =
      let usage = mcp_standard_header_usage headers in
      if exceeds usage limits then some usage else none
