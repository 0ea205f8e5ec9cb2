-- ===== src/Headers.antt =====
-- MCP standard headers (crates/contextforge-data-plane-lib/src/mcp_standard_headers.rs): which names
-- they are. An HTTP header name is a text in lower case; a header map is the list of its entries in
-- iteration order, a name with several values standing several times. The names themselves are
-- constants of the `rmcp` crate, hence a parameter.
pub mod Limits
pub mod Integer
pub mod Annotations
pub mod Params
pub mod Backend
mod Tests
use contextforge_data_plane.Prelude.{
  Option, Str, Bool, ◌&&◌, ◌||◌, List, leb, length, take, eq_ignore_ascii_case,
}

pub record HeaderConstants : Type 0 where
  pub mcp_method : Str
  pub mcp_name : Str
  pub mcp_protocol_version : Str
  pub session_id : Str
  pub mcp_param_prefix : Str
  pub base64_prefix : Str
  pub base64_suffix : Str

abbrev pub HeaderMap : Type 0
HeaderMap = List (Str × Str)

unfoldable pub is_exact : Str → Str → Bool
is_exact name expected = eq_ignore_ascii_case name expected

module _ (constants : HeaderConstants) where
  unfoldable pub is_param : Str → Bool
  is_param name =
      leb (length constants.mcp_param_prefix) (length name)
      && eq_ignore_ascii_case (take (length constants.mcp_param_prefix) name)
          constants.mcp_param_prefix

  unfoldable pub is_limited : Str → Bool
  is_limited name =
      is_exact name constants.mcp_method
      || is_exact name constants.mcp_name
      || is_exact name constants.mcp_protocol_version
      || is_exact name constants.session_id
      || is_param name

  unfoldable pub is_computed : Str → Bool
  is_computed name =
      is_exact name constants.mcp_method
      || is_exact name constants.mcp_name
      || is_exact name constants.mcp_protocol_version
      || is_param name

-- What the code uses of the `http` and `base64` crates.
pub record HttpCrates : Type 0 where
  pub constants : HeaderConstants
  pub name_from_bytes : Str → Option Str
  pub value_from_str : Str → Option Str
  pub base64_decode : Str → Option Str
