-- ===== src/Openrouter/Request.antt =====
-- llm/openrouter/api_types.go: how a request's messages, tools and thinking go onto the wire.
-- `json.Marshal` and `base64.StdEncoding.EncodeToString` are the record `Marshal`.
pub mod Shape
pub mod Breakpoint
use aikido.Prelude.{
  ℕ, Bool, true, false, not, ◌&&◌, ◌||◌, Option, none, some, List, [], ◌∷◌, ◌++◌, map, Bytes, codes,
  is_empty, text_eq, ltb, ◌==◌, if◌then◌else◌,
}
use aikido.Errors.{Result, ok, err, panic, ◌>>=◌}
use aikido.Llm.Types.{
  Role, system, user, assistant, tool, Message, ImagePart, AudioPart, ToolCall, ToolDef,
  ThinkingConfig,
}

pub record ApiToolCall : Type 0 where
  pub id : Bytes
  pub kind : Bytes
  pub name : Bytes
  pub arguments : Bytes

-- `Content` is the raw JSON; no code sets `Name`
pub record ApiMessage : Type 0 where
  pub role : Bytes
  pub content : Bytes
  pub tool_calls : List ApiToolCall
  pub tool_call_id : Bytes

pub record ApiTool : Type 0 where
  pub kind : Bytes
  pub name : Bytes
  pub description : Bytes
  pub parameters : Bytes

-- the `map[string]any` of a content part: its "type" with what goes with it, and "cache_control",
-- with "ttl" where it has one
pub data PartBody : Type 0 where
  text : Bytes → PartBody
  image_url : Bytes → PartBody
  input_audio : Bytes → Bytes → PartBody

pub record ContentPart : Type 0 where
  pub body : PartBody
  pub cache_control : Option (Option Bytes)

pub record Marshal : Type 0 where
  pub text_json : Bytes → Result Bytes
  pub parts_json : List ContentPart → Result Bytes
  pub base64 : Bytes → Bytes

unfoldable pub effort_from_config : Option ThinkingConfig → Bytes
effort_from_config none = []
effort_from_config (some t) =
    if not (is_empty t.effort)
    then t.effort
    else if t.budget == 0
    then []
    else if ltb t.budget 2048
    then codes "low"
    else if ltb t.budget 16384
    then codes "medium"
    else codes "high"

abbrev pub role_name : Role → Bytes
role_name system = codes "system"
role_name user = codes "user"
role_name assistant = codes "assistant"
role_name tool = codes "tool"

abbrev pub is_tool : Role → Bool
is_tool tool = true
is_tool _ = false

abbrev pub part : PartBody → ContentPart
part b = record { body = b; cache_control = none }

-- `parts[len(parts)-1]["cache_control"] = cc`
unfoldable pub mark_last : Option Bytes → List ContentPart → List ContentPart
mark_last ttl [] = []
mark_last ttl (p ∷ []) = record p { cache_control = some ttl } ∷ []
mark_last ttl (p ∷ q ∷ ps) = p ∷ mark_last ttl (q ∷ ps)

abbrev pub or_stub : List ContentPart → List ContentPart
or_stub [] = part (text []) ∷ []
or_stub (p ∷ ps) = p ∷ ps

abbrev pub ttl_of : Bytes → Option Bytes
ttl_of ttl = if text_eq ttl (codes "1h") then some (codes "1h") else none

abbrev pub with_breakpoint : Option Bytes → List ContentPart → List ContentPart
with_breakpoint none parts = parts
with_breakpoint (some ttl) parts = mark_last (ttl_of ttl) parts

abbrev pub api_call : ToolCall → ApiToolCall
api_call c = record { id = c.id; kind = codes "function"; name = c.name; arguments = c.arguments }

module _ (j : Marshal) where
  abbrev pub bodies : Message → List PartBody
  bodies m =
      (if is_empty m.content then [] else text m.content ∷ [])
      ++ (map (λ i. image_url i.url) m.images
          ++ map (λ a. input_audio (j.base64 a.data_bytes) a.format) m.audio)

  unfoldable pub build_content_parts : Message → List ContentPart
  unfolding mark_last
  build_content_parts m = with_breakpoint m.cache (or_stub (map part (bodies m)))

  abbrev pub is_some {ℓ} : {A : Type ℓ} → Option A → Bool
  is_some none = false
  is_some (some a) = true

  abbrev pub needs_array : Message → Bool
  needs_array m = not (is_empty m.images) || not (is_empty m.audio) || is_some m.cache

  -- the `switch` on the shape of the content
  unfoldable pub api_content : Message → Result Bytes
  unfolding build_content_parts
  api_content m =
      if needs_array m
      then j.parts_json (build_content_parts m)
      else if is_empty m.content && not (is_empty m.tool_calls)
      then ok (codes "\"\"")
      else j.text_json m.content

  unfoldable pub api_message : Message → Bytes → ApiMessage
  api_message m content = record {
    role = role_name m.role;
    content = content;
    tool_calls = map api_call m.tool_calls;
    tool_call_id = if is_tool m.role then m.tool_call_id else [];
  }

  unfoldable pub build_api_messages : List Message → Result (List ApiMessage)
  unfolding api_content api_message
  build_api_messages [] = ok []
  build_api_messages (m ∷ ms) =
      let rest = build_api_messages ms in
      api_content m >>= λ content. rest >>= λ out. ok (api_message m content ∷ out)

unfoldable pub build_api_tools : List ToolDef → List ApiTool
build_api_tools defs =
    map
      (λ d. record {
        kind = codes "function";
        name = d.name;
        description = d.description;
        parameters = d.parameters;
      })
      defs
