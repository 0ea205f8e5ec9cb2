-- ===== src/Plugins/Fixtures.antt =====
-- Plugins that echo, edit or deny, and the data of the tests.
use contextforge_data_plane.Prelude.{
  ℕ, Str, str, str_eq, str_eq_refl, Bool, true, false, List, [], ◌∷◌, ◌++◌, Option, none, some,
  if◌then◌else◌, Result, ok, err, ◌≡◌, refl, ap, ◌==◌, drop,
}
use contextforge_data_plane.Json.{
  Value, null, bool, number, string, array, object, Fields, end, field,
}
use contextforge_data_plane.Cmf.{
  assistant, ContentPart, text, resource, tool_call, tool_result, prompt_request, prompt_result,
  ToolCall, ToolResult, PromptRequest, Message, cmf_message, parts, messages, of_messages,
  MessagePayload,
}
use contextforge_data_plane.Gateway.{NamedRequest}
use contextforge_data_plane.Plugins.{
  PluginPayload, PipelineResult, PromptResult, CpexCrate, message_payload,
}
use contextforge_data_plane.Plugins.Runtime.{GatewayPluginRuntime, CallState}
use contextforge_data_plane.Plugins.Config.{
  PluginConfig, CpexConfig, RuntimePluginConfigDocument, Decoders, decode,
}
use contextforge_data_plane.Plugins.Registry.{
  Managers, active, failed, CpexRuntimeRegistry, Watcher, Wake, poll, from_config,
}
use contextforge_data_plane.Plugins.Registry.Reloads.{IsCurrent, load, serve, applied-IsCurrent}
use contextforge_data_plane.Plugins.Mcp.{
  text_contents, blob_contents, text_block, mcp_user, GetPromptResult, ReadResourceResult,
  CallToolResult, RmcpCrate,
}
use contextforge_data_plane.Plugins.Prompts.{MessageJson, prompt_result_payload}
use contextforge_data_plane.Plugins.Prompts.Edits.{IsReflexive}
use contextforge_data_plane.Plugins.Resources.{Base64}
use contextforge_data_plane.Plugins.Tools.{Serde}
use contextforge_data_plane.Plugins.Tools.Edits.{ViewsResults}
use contextforge_data_plane.Plugins.Config.{
  cpex_config, declares, decode_config_document, validate_gateway_supported_config,
  validate_plugins,
}

-- The plugin manager is the number of what its plugins do: nothing, echo, or deny.
abbrev pub tool_calls_of : List ContentPart → List ToolCall
tool_calls_of [] = []
tool_calls_of (tool_call c ∷ ps) = c ∷ tool_calls_of ps
tool_calls_of (_ ∷ ps) = tool_calls_of ps

abbrev pub tool_results_of : List ContentPart → List ToolResult
tool_results_of [] = []
tool_results_of (tool_result r ∷ ps) = r ∷ tool_results_of ps
tool_results_of (_ ∷ ps) = tool_results_of ps

abbrev pub prompt_requests_of : List ContentPart → List PromptRequest
prompt_requests_of [] = []
prompt_requests_of (prompt_request r ∷ ps) = r ∷ prompt_requests_of ps
prompt_requests_of (_ ∷ ps) = prompt_requests_of ps

abbrev pub prompt_results_of : List ContentPart → List PromptResult
prompt_results_of [] = []
prompt_results_of (prompt_result id name ms content is_error error_message ∷ ps) =
    record {
      prompt_request_id = id;
      prompt_name = name;
      messages = messages ms;
      content = content;
      is_error = is_error;
      error_message = error_message;
    }
    ∷ prompt_results_of ps
prompt_results_of (_ ∷ ps) = prompt_results_of ps

abbrev pub text_of : List ContentPart → Str
text_of [] = []
text_of (text s ∷ ps) = s ++ text_of ps
text_of (_ ∷ ps) = text_of ps

abbrev pub result_of : ℕ → MessagePayload → PipelineResult ℕ
result_of mode payload = record {
  denied = mode == 2;
  violation = none;
  modified_payload = if mode == 1 then some (PluginPayload.message payload) else none;
  context_table = 7;
}

abbrev pub cpex : CpexCrate ℕ ℕ
cpex = record {
  pre_hook = λ operation. str "pre";
  post_hook = λ operation. str "post";
  empty_table = 0;
  invoke_named = λ mode hook payload table. result_of mode payload;
  get_tool_calls = λ payload. tool_calls_of payload.content;
  get_tool_results = λ payload. tool_results_of payload.content;
  get_prompt_requests = λ payload. prompt_requests_of payload.content;
  get_prompt_results = λ payload. prompt_results_of payload.content;
  get_text_content = λ payload. text_of payload.content;
}

abbrev pub runtime : GatewayPluginRuntime ℕ
runtime = record { manager = 1; hooks = λ operation. record { pre = true; post = true } }

abbrev pub state : CallState ℕ ℕ
state = record { runtime = runtime; context_table = 0; name = str "name"; id = str "id" }

abbrev pub plugin : PluginConfig
plugin = record { name = str "secrets"; hooks = str "pre" ∷ str "post" ∷ []; conditions = [] }

abbrev pub config : CpexConfig
config = record {
  plugins = plugin ∷ [];
  routing_enabled = false;
  fail_on_plugin_error = false;
  routes = [];
  plugin_dirs = [];
  policies = [];
  defaults = [];
}

abbrev pub managers : Managers ℕ (Unit {0})
managers = record { empty = 0; build = λ config factories. ok 1; initialize = λ manager. ok tt }

abbrev pub document : RuntimePluginConfigDocument
document = record { version = 1; cpex = config }

-- Any bytes but an empty text are the document.
abbrev pub read_document : Str → Option RuntimePluginConfigDocument
read_document [] = none
read_document (_ ∷ _) = some document

abbrev pub decoders : Decoders
decoders = record { from_json = read_document; from_message_pack = λ bytes. none }

abbrev pub registry : CpexRuntimeRegistry ℕ (Unit {0})
registry = record {
  runtime = failed (str "not loaded");
  has_store = true;
  connected = false;
  factories = tt;
  shared = false;
  watcher_started = false;
}

abbrev pub watcher : Watcher ℕ
watcher = record { runtime = active runtime; last_applied = some (str "v1"); connected = true }

pub watcher-IsCurrent : IsCurrent cpex managers decoders tt watcher.last_applied watcher.runtime
unfolding serve load decode decode_config_document str cpex_config from_config
    validate_gateway_supported_config validate_plugins str_eq declares
watcher-IsCurrent =
    applied-IsCurrent cpex managers decoders tt
      (record { document = document; fingerprint = str "v1" }) (active runtime) refl refl

abbrev pub wakes : List Wake
wakes =
    poll true (some (some (str "v1"))) ∷ poll true none ∷ poll true (some (some (str "v1"))) ∷ []

-- A message's JSON is its text.
abbrev pub value_of_message : Message → Value
value_of_message (cmf_message version role content channel) = string (text_of (parts content))

abbrev pub same_value : Value → Value → Bool
same_value (string a) (string b) = str_eq a b
same_value _ _ = true

abbrev pub values : MessageJson
values = record { message_value = λ m. some (value_of_message m); value_eq = same_value }

pub same_value_refl : (v : Value) → same_value v v ≡ true
same_value_refl (string a) = str_eq_refl a
same_value_refl null = refl
same_value_refl (bool _) = refl
same_value_refl (number _) = refl
same_value_refl (array _) = refl
same_value_refl (object _) = refl

pub values-IsReflexive : IsReflexive values
values-IsReflexive = record {
  value_of = value_of_message;
  has_value = λ m. refl;
  same = same_value_refl;
}

pub messages_of-messages : (ms : List Message) → messages (of_messages ms) ≡ ms
messages_of-messages [] = refl
messages_of-messages (m ∷ ms) = ap (◌∷◌ m) (messages_of-messages ms)

pub prompt_view :
    (r : PromptResult)
    → cpex.get_prompt_results (
        message_payload assistant (
          prompt_result r.prompt_request_id r.prompt_name
            (of_messages r.messages)
            r.content
            r.is_error
            r.error_message
          ∷ []))
      ≡ r ∷ []
prompt_view r = ap (λ ms. record r { messages = ms } ∷ []) (messages_of-messages r.messages)

pub results_view : ViewsResults cpex
results_view = record { results = λ r. refl; no_text = λ r. refl }

abbrev pub base64 : Base64
base64 = record { encode = λ bytes. str "b" ++ bytes; decode = λ content. some (drop 1 content) }

pub base64_encoded : (bytes : Str) → base64.decode (base64.encode bytes) ≡ some bytes
unfolding str
base64_encoded bytes = refl

abbrev pub prompt : GetPromptResult
prompt = record {
  messages = record { role = mcp_user; content = text_block (str "hello") end } ∷ [];
  other_fields = end;
}

abbrev pub prompt_payload : MessagePayload
prompt_payload = prompt_result_payload prompt (str "name") (str "id")

abbrev pub contents : ReadResourceResult
contents = record {
  contents =
      text_contents (str "file:a") none (str "text") none
      ∷ blob_contents (str "file:b") none (str "bxy") none
      ∷ [];
  other_fields = end;
}

abbrev pub contents_payload : MessagePayload
contents_payload = message_payload assistant (
    resource (record {
      resource_request_id = str "id";
      uri = str "file:a";
      content = some (str "text");
      blob = none;
      mime_type = none;
      other_fields = end;
    })
    ∷ resource (record {
      resource_request_id = str "id";
      uri = str "file:b";
      content = none;
      blob = some (str "xy");
      mime_type = none;
      other_fields = end;
    })
    ∷ [])

abbrev pub result : CallToolResult
result = record { content = text_block (str "done") end ∷ []; is_error = none; other_fields = end }

abbrev pub rmcp : RmcpCrate
rmcp = record {
  success = λ content. record { content = content; is_error = some false; other_fields = end };
  failure = λ content. record { content = content; is_error = some true; other_fields = end };
  structured = λ v. record { content = []; is_error = some false; other_fields = end };
  structured_error = λ v. record { content = []; is_error = some true; other_fields = end };
  result_value = λ r. some (string (str "done"));
  value_result = λ v. some result;
}

abbrev pub read_text : Value → Result Str Str
read_text (string s) = ok s
read_text _ = err (str "not a text")

abbrev pub serde : Serde Str
serde = record { event_value = λ s. some (string s); value_event = read_text }

abbrev pub arguments_request : NamedRequest
arguments_request = record { name = str "name"; arguments = none }

-- The equality of maps, on maps without entries.
abbrev pub both_empty : Fields → Fields → Bool
both_empty end end = true
both_empty _ _ = false

pub both_empty_sound : (a b : Fields) → both_empty a b ≡ true → a ≡ b
both_empty_sound end end h = refl
both_empty_sound end (field _ _ _) h = absurd cc
both_empty_sound (field _ _ _) b h = absurd cc
