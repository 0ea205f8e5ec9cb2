-- ===== src/Plugins/Resources.antt =====
-- resources/mod.rs: what a plugin sees of a resource that is read, and how its edit is applied. `base64` is a
-- record.
pub mod Edits
use contextforge_data_plane.Prelude.{
  ℕ, Str, str, str_eq, Bool, true, false, not, List, [], ◌∷◌, Option, none, some, if◌then◌else◌,
  ◌==◌, length, Result, ok, err, ok_or,
}
use contextforge_data_plane.Prelude.Maybe.{◌>>=◌}
use contextforge_data_plane.Json.{Fields, end}
use contextforge_data_plane.Cmf.{
  assistant, user, ContentPart, resource, resource_ref, Resource, MessagePayload,
}
use contextforge_data_plane.Gateway.{ErrorData, error, internal_error}
use contextforge_data_plane.Plugins.{Operation, CpexCrate, CmfResponse, message_payload}
use contextforge_data_plane.Plugins.Mcp.{
  ResourceContents, text_contents, blob_contents, other_contents, ReadResourceResult,
}
use contextforge_data_plane.Plugins.Runtime.{CallState, before, after}
use contextforge_data_plane.Plugins.Registry.{RuntimeState, current}

pub record Base64 : Type 0 where
  pub encode : Str → Str
  pub decode : Str → Option Str

unfoldable pub resource_request_payload : (resource_uri id : Str) → MessagePayload
resource_request_payload resource_uri id = message_payload user (
    resource_ref
      (record { resource_request_id = id; uri = resource_uri; name = none; other_fields = end })
    ∷ [])

pub record ResourceHookState (M C : Type 0) : Type 0 where
  pub rewritten_uri : Option Str
  pub call : Option (CallState M C)

module _ (base64 : Base64) where
  unfoldable pub cmf_resource_content : ResourceContents → Str → Option Resource
  cmf_resource_content (text_contents uri mime_type content _) id = some (record {
    resource_request_id = id;
    uri = uri;
    content = some content;
    blob = none;
    mime_type = mime_type;
    other_fields = end;
  })
  cmf_resource_content (blob_contents uri mime_type content _) id = do
    bytes ← base64.decode content
    some (record {
      resource_request_id = id;
      uri = uri;
      content = none;
      blob = some bytes;
      mime_type = mime_type;
      other_fields = end;
    })
  cmf_resource_content other_contents id = none

  unfoldable pub cmf_contents : List ResourceContents → Str → Option (List ContentPart)
  unfolding cmf_resource_content
  cmf_contents [] id = some []
  cmf_contents (c ∷ cs) id = do
    content ← cmf_resource_content c id
    rest ← cmf_contents cs id
    some (resource content ∷ rest)

  unfoldable pub resource_result_payload : ReadResourceResult → Str → Option MessagePayload
  unfolding cmf_contents
  resource_result_payload response id = do
    content ← cmf_contents response.contents id
    some (message_payload assistant content)

  abbrev pub meta_of : ResourceContents → Option (Option Fields)
  meta_of (text_contents _ _ _ meta) = some meta
  meta_of (blob_contents _ _ _ meta) = some meta
  meta_of other_contents = none

  abbrev pub decodes_to : Option Str → Str → Bool
  decodes_to none bytes = false
  decodes_to (some decoded) bytes = str_eq decoded bytes

  -- The blob that bytes are written as: the original one if it stands for the same bytes.
  abbrev pub blob_for : ResourceContents → Str → Str
  blob_for (blob_contents _ _ content _) bytes =
      if decodes_to (base64.decode content) bytes then content else base64.encode bytes
  blob_for _ bytes = base64.encode bytes

  abbrev pub replaced :
      ResourceContents
      → Option Fields
      → Resource
      → Option Str
      → Option Str
      → Option ResourceContents
  replaced original meta edit (some content) _ =
      some (text_contents edit.uri edit.mime_type content meta)
  replaced original meta edit none (some bytes) =
      some (blob_contents edit.uri edit.mime_type (blob_for original bytes) meta)
  replaced original meta edit none none = none

  unfoldable pub apply_resource : ResourceContents → ContentPart → Option ResourceContents
  apply_resource original (resource edit) = do
    meta ← meta_of original
    replaced original meta edit edit.content edit.blob
  apply_resource original _ = none

  unfoldable pub apply_resources :
      List ResourceContents → List ContentPart → Option (List ResourceContents)
  unfolding apply_resource
  apply_resources (c ∷ cs) (p ∷ ps) = do
    content ← apply_resource c p
    rest ← apply_resources cs ps
    some (content ∷ rest)
  apply_resources cs _ = some cs

  unfoldable pub resource_result_response :
      ReadResourceResult → MessagePayload → Option ReadResourceResult
  unfolding apply_resources
  resource_result_response original payload =
      if not (length payload.content == length original.contents) then none else do
        contents ← apply_resources original.contents payload.content
        some (record original { contents = contents })

  unfoldable pub resource_response : CmfResponse ReadResourceResult
  resource_response = record {
    operation = Operation.resource;
    to_payload = λ response name id.
        ok_or (error internal_error (str "Resource response contains an unsupported content type"))
          (resource_result_payload response id);
    apply_payload = λ response payload name id.
        ok_or
          (error internal_error (str "Plugin returned a resource result the gateway cannot apply"))
          (resource_result_response response payload);
  }

module _ {M C : Type 0} (cpex : CpexCrate M C) where
  -- The edit of a request: the URI of its only part.
  abbrev resource_update : List ContentPart → Result ErrorData (Option Str)
  resource_update (resource_ref content ∷ []) = ok (some content.uri)
  resource_update _ = err (error internal_error (str "Plugin returned an invalid resource request"))

  abbrev hook_state :
      ℕ × Result ErrorData (Option Str × Option (CallState M C))
      → ℕ × Result ErrorData (ResourceHookState M C)
  hook_state (counter, err e) = (counter, err e)
  hook_state (counter, ok (uri, call)) = (counter, ok (record { rewritten_uri = uri; call = call }))

  unfoldable pub before_read_resource :
      RuntimeState M → Str → ℕ → ℕ × Result ErrorData (ResourceHookState M C)
  before_read_resource state resource_uri counter = elim (current state) [
    | err e ↦ (counter, err e)
    | ok runtime ↦ hook_state (
        before cpex none runtime Operation.resource (resource_request_payload resource_uri)
          (λ payload id. resource_update payload.content) resource_uri counter)
  ]

  unfoldable pub after_read_resource :
      Base64 → ReadResourceResult → ResourceHookState M C → Result ErrorData ReadResourceResult
  after_read_resource base64 response state = elim state.call [
    | none ↦ ok response
    | some call ↦ (after cpex (resource_response base64) response call).1
  ]
