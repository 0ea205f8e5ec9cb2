-- ===== src/Plugins/Resources/Edits.antt =====
-- The edits of a resource read: what is applied shows the plugin's payload, and an echo changes nothing.
use contextforge_data_plane.Prelude.{
  ◌≡◌, refl, ap, Str, str_eq_refl, true, not, List, [], ◌∷◌, Option, none, some, subst, suc, map,
  inl, inr, ◌==◌, length, ok, ok_or-eq-ok, arith, ==_iff, Bool-cases, str_eq_iff,
}
use contextforge_data_plane.Prelude.Maybe.{bind-eq-some, some-inj, return_none-eq-some}
use contextforge_data_plane.Json.{Fields, end}
use contextforge_data_plane.Cmf.{assistant, ContentPart, resource, Resource, MessagePayload}
use contextforge_data_plane.Plugins.{message_payload}
use contextforge_data_plane.Plugins.Mcp.{
  ResourceContents, text_contents, blob_contents, other_contents, ReadResourceResult,
}
use contextforge_data_plane.Plugins.Resources.{
  Base64, cmf_resource_content, cmf_contents, decodes_to, blob_for, replaced, meta_of,
  resource_result_payload, apply_resource, apply_resources, resource_result_response,
  resource_response,
}

module _ (base64 : Base64) (id : Str) where
  resource_echo :
      (c : ResourceContents) {edit : Resource}
      → cmf_resource_content base64 c id ≡ some edit
      → apply_resource base64 c (resource edit) ≡ some c
  unfolding cmf_resource_content apply_resource
  resource_echo (text_contents uri mime_type content meta) h =
      subst
        (λ e.
          apply_resource base64 (text_contents uri mime_type content meta) (resource e)
          ≡ some (text_contents uri mime_type content meta))
        (some-inj h) refl
  resource_echo (blob_contents uri mime_type content meta) h =
      let (bytes, d, made) = bind-eq-some (base64.decode content) _ h in
      subst
        (λ e.
          apply_resource base64 (blob_contents uri mime_type content meta) (resource e)
          ≡ some (blob_contents uri mime_type content meta))
        (some-inj made) (rw (d, str_eq_refl bytes) refl)
  resource_echo other_contents h = absurd cc

  contents_echo :
      (cs : List ResourceContents) {ps : List ContentPart}
      → cmf_contents base64 cs id ≡ some ps
      → (length ps ≡ length cs) × (apply_resources base64 cs ps ≡ some cs)
  unfolding cmf_contents apply_resources
  contents_echo [] h =
      subst (λ ps. (length ps ≡ 0) × (apply_resources base64 [] ps ≡ some [])) (some-inj h)
        (refl, refl)
  contents_echo (c ∷ cs) h =
      let (edit, e, h2) = bind-eq-some (cmf_resource_content base64 c id) _ h in
      let (rest, r, made) = bind-eq-some (cmf_contents base64 cs id) _ h2 in
      let (n, applied) = contents_echo cs r in
      subst
        (λ ps. (length ps ≡ length (c ∷ cs)) × (apply_resources base64 (c ∷ cs) ps ≡ some (c ∷ cs)))
        (some-inj made) (ap (λ k. suc k) n, rw (resource_echo c e, applied) refl)

  -- A plugin that returns the payload of a resource response as it is leaves the response as it is, the blobs
  -- and the metadata included.
  pub resource_response_echo :
      (name : Str) (response : ReadResourceResult) (payload : MessagePayload)
      → (resource_response base64).to_payload response name id ≡ ok payload
      → (resource_response base64).apply_payload response payload name id ≡ ok response
  unfolding resource_response resource_result_payload resource_result_response
  resource_response_echo name response payload h =
      let made = ok_or-eq-ok _ (resource_result_payload base64 response id) h in
      let (content, e, same) = bind-eq-some (cmf_contents base64 response.contents id) _ made in
      let (n, applied) = contents_echo response.contents e in
      subst (λ p. (resource_response base64).apply_payload response p name id ≡ ok response)
        (some-inj same) (rw ((==_iff _ _).1 n, applied) refl)

-- What the gateway shows of an edit: its text, or its blob if it has no text.
abbrev shown_blob : Option Str → Option Str → Option Str
shown_blob none blob = blob
shown_blob (some _) blob = none

abbrev shown_resource : Str → Resource → Option Str → Option Str → Resource
shown_resource id edit content blob = record {
  resource_request_id = id;
  uri = edit.uri;
  content = content;
  blob = shown_blob content blob;
  mime_type = edit.mime_type;
  other_fields = end;
}

abbrev pub shown : Str → ContentPart → ContentPart
shown id (resource edit) = resource (shown_resource id edit edit.content edit.blob)
shown id p = p

module _ (base64 : Base64) (id : Str)
    (encoded : (bytes : Str) → base64.decode (base64.encode bytes) ≡ some bytes) where
  decodes_to-eq :
      (decoded : Option Str) (bytes : Str)
      → decodes_to base64 decoded bytes ≡ true
      → decoded ≡ some bytes
  decodes_to-eq none bytes h = absurd cc
  decodes_to-eq (some decoded) bytes h = ap some ((str_eq_iff decoded bytes).0 h)

  decode-blob_for :
      (c : ResourceContents) (bytes : Str) → base64.decode (blob_for base64 c bytes) ≡ some bytes
  decode-blob_for (blob_contents uri mime_type content meta) bytes =
      elim (Bool-cases (decodes_to base64 (base64.decode content) bytes)) [
        | inl e ↦ rw e (decodes_to-eq _ bytes e)
        | inr e ↦ rw e (encoded bytes)
      ]
  decode-blob_for (text_contents _ _ _ _) bytes = encoded bytes
  decode-blob_for other_contents bytes = encoded bytes

  replaced-shown :
      (c : ResourceContents) (meta : Option Fields) (edit : Resource) (content blob : Option Str)
      {d : ResourceContents}
      → replaced base64 c meta edit content blob ≡ some d
      → cmf_resource_content base64 d id ≡ some (shown_resource id edit content blob)
  unfolding cmf_resource_content
  replaced-shown c meta edit (some content) blob h =
      subst
        (λ d. cmf_resource_content base64 d id ≡ some (shown_resource id edit (some content) blob))
        (some-inj h) refl
  replaced-shown c meta edit none (some bytes) h =
      subst
        (λ d. cmf_resource_content base64 d id ≡ some (shown_resource id edit none (some bytes)))
        (some-inj h) (rw (decode-blob_for c bytes) refl)
  replaced-shown c meta edit none none h = absurd cc

  apply_resource-shown :
      (c : ResourceContents) (p : ContentPart) {d : ResourceContents}
      → apply_resource base64 c p ≡ some d
      → (edit : Resource) × (cmf_resource_content base64 d id ≡ some edit)
        × (resource edit ≡ shown id p)
  unfolding apply_resource
  apply_resource-shown c (resource edit) h =
      let (meta, _, made) = bind-eq-some (meta_of base64 c) _ h in
      (_, replaced-shown c meta edit edit.content edit.blob made, refl)
  apply_resource-shown c _ h = absurd cc

  resources-shown :
      (cs : List ResourceContents) (ps : List ContentPart) {ds : List ResourceContents}
      → length ps ≡ length cs
      → apply_resources base64 cs ps ≡ some ds
      → cmf_contents base64 ds id ≡ some (map (shown id) ps)
  unfolding apply_resources cmf_contents
  resources-shown [] [] n h = subst (λ ds. cmf_contents base64 ds id ≡ some []) (some-inj h) refl
  resources-shown [] (p ∷ ps) n h = absurd (omega arith)
  resources-shown (c ∷ cs) [] n h = absurd (omega arith)
  resources-shown (c ∷ cs) (p ∷ ps) n h =
      let (d, e, h2) = bind-eq-some (apply_resource base64 c p) _ h in
      let (rest, r, made) = bind-eq-some (apply_resources base64 cs ps) _ h2 in
      let (edit, shows, same) = apply_resource-shown c p e in
      subst (λ ds. cmf_contents base64 ds id ≡ some (map (shown id) (p ∷ ps))) (some-inj made)
        (rw (shows, resources-shown cs ps (omega arith) r, same) refl)

  -- If base64 decodes what it encodes, and an edited payload is applied to a response, then the payload that
  -- the new response would show to a plugin has exactly the resources of the edit, in its order: each with
  -- its URI, its type, and its text or else its bytes.
  pub resource_response-shown :
      (name : Str) (response edited : ReadResourceResult) (payload : MessagePayload)
      → (resource_response base64).apply_payload response payload name id ≡ ok edited
      → (resource_response base64).to_payload edited name id
        ≡ ok (message_payload assistant (map (shown id) payload.content))
  unfolding resource_response resource_result_payload resource_result_response
  resource_response-shown name response edited payload h =
      let made = ok_or-eq-ok _ (resource_result_response base64 response payload) h in
      let (same, rest) =
        return_none-eq-some (not (length payload.content == length response.contents)) _ made in
      let (contents, applied, replaced_by) =
        bind-eq-some (apply_resources base64 response.contents payload.content) _ rest in
      let shows = resources-shown response.contents payload.content (ground arith) applied in
      subst
        (λ r.
          (resource_response base64).to_payload r name id
          ≡ ok (message_payload assistant (map (shown id) payload.content)))
        (some-inj replaced_by) (rw shows refl)
