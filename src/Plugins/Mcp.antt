-- ===== src/Plugins/Mcp.antt =====
-- The results of `rmcp` that the plugins see, with the fields that the gateway reads or writes; the others,
-- annotations and metadata among them, are `other_fields`, and a variant that it does not name is `other`.
use contextforge_data_plane.Prelude.{Str, Bool, List, Option}
use contextforge_data_plane.Json.{Value, Fields}

pub data ResourceContents : Type 0 where
  text_contents :
      (uri : Str) (mime_type : Option Str) (content : Str) (meta : Option Fields) → ResourceContents
  blob_contents :
      (uri : Str) (mime_type : Option Str) (content : Str) (meta : Option Fields) → ResourceContents
  other_contents : ResourceContents

pub data ContentBlock : Type 0 where
  text_block : (content : Str) (other_fields : Fields) → ContentBlock
  image_block : (content mime_type : Str) (other_fields : Fields) → ContentBlock
  audio_block : (content mime_type : Str) (other_fields : Fields) → ContentBlock
  resource_block : (contents : ResourceContents) (other_fields : Fields) → ContentBlock
  link_block : (uri name : Str) (other_fields : Fields) → ContentBlock
  other_block : ContentBlock

pub data McpRole : Type 0 where
  mcp_assistant mcp_user : McpRole

pub record PromptMessage : Type 0 where
  pub role : McpRole
  pub content : ContentBlock

pub record GetPromptResult : Type 0 where
  pub messages : List PromptMessage
  pub other_fields : Fields

pub record ReadResourceResult : Type 0 where
  pub contents : List ResourceContents
  pub other_fields : Fields

pub record CallToolResult : Type 0 where
  pub content : List ContentBlock
  pub is_error : Option Bool
  pub other_fields : Fields

-- `CallToolResult`'s constructors for a text or a value, and its JSON form.
pub record RmcpCrate : Type 0 where
  pub success : List ContentBlock → CallToolResult
  pub failure : List ContentBlock → CallToolResult
  pub structured : Value → CallToolResult
  pub structured_error : Value → CallToolResult
  pub result_value : CallToolResult → Option Value
  pub value_result : Value → Option CallToolResult
