-- ===== src/Cmf.antt =====
-- The CMF message types of the `cpex` crate, with the fields that the source reads or writes
-- (crates/contextforge-data-plane-cpex/src, crates/plugins/cpex-secrets-detection/src/lib.rs). Every
-- variant of a content part that the source does not name is `other`. Lists inside the recursive
-- types are types of their own. `other_fields` holds the fields that the source sets to their defaults
-- and never reads.
use contextforge_data_plane.Prelude.{Str, Bool, List, [], ◌∷◌, Option}
use contextforge_data_plane.Prelude.Map.{Map}
use contextforge_data_plane.Json.{Value, Fields}

pub data Role : Type 0 where
  assistant user tool_role other_role : Role

pub record ToolCall : Type 0 where
  pub tool_call_id : Str
  pub name : Str
  pub arguments : Map Value
  pub namespace : Option Str

pub record ToolResult : Type 0 where
  pub tool_call_id : Str
  pub tool_name : Str
  pub content : Value
  pub is_error : Bool

pub record PromptRequest : Type 0 where
  pub prompt_request_id : Str
  pub name : Str
  pub arguments : Map Value
  pub server_id : Option Str

pub record Resource : Type 0 where
  pub resource_request_id : Str
  pub uri : Str
  pub content : Option Str
  pub blob : Option Str
  pub mime_type : Option Str
  pub other_fields : Fields

pub record ResourceReference : Type 0 where
  pub resource_request_id : Str
  pub uri : Str
  pub name : Option Str
  pub other_fields : Fields

-- `ImageSource` and `AudioSource`.
pub record MediaSource : Type 0 where
  pub source_type : Str
  pub content : Str
  pub media_type : Option Str
  pub other_fields : Fields

mutual
  pub data ContentPart : Type 0 where
    text : Str → ContentPart
    image : MediaSource → ContentPart
    audio : MediaSource → ContentPart
    resource : Resource → ContentPart
    resource_ref : ResourceReference → ContentPart
    tool_call : ToolCall → ContentPart
    tool_result : ToolResult → ContentPart
    prompt_request : PromptRequest → ContentPart
    prompt_result :
        (prompt_request_id prompt_name : Str) (messages : Messages) (content : Option Str)
        (is_error : Bool) (error_message : Option Str)
        → ContentPart
    other : ContentPart

  pub data Parts : Type 0 where
    no_parts : Parts
    part : ContentPart → Parts → Parts

  pub data Message : Type 0 where
    cmf_message :
        (schema_version : Str) (role : Role) (content : Parts) (channel : Option Str) → Message

  pub data Messages : Type 0 where
    no_messages : Messages
    message : Message → Messages → Messages

abbrev pub parts : Parts → List ContentPart
parts no_parts = []
parts (part p ps) = p ∷ parts ps

abbrev pub messages : Messages → List Message
messages no_messages = []
messages (message m ms) = m ∷ messages ms

abbrev pub of_messages : List Message → Messages
of_messages [] = no_messages
of_messages (m ∷ ms) = message m (of_messages ms)

-- The message of a payload; `schema_version` is constant and `channel` is never set.
pub record MessagePayload : Type 0 where
  pub role : Role
  pub content : List ContentPart
