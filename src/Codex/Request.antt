-- ===== src/Codex/Request.antt =====
-- llm/codex/client.go: `buildBody`, up to `json.Marshal`, and `statusSentinel`. Base64 and
-- `http.DetectContentType` are parameters; the response format, which is copied, is left out.
pub mod Supported
use aikido.Prelude.{
  ℕ, Bool, true, false, not, ◌&&◌, ◌||◌, Option, none, some, List, [], ◌∷◌, ◌++◌, map, Bytes, codes,
  is_empty, leb, ◌==◌, if◌then◌else◌,
}
use aikido.Errors.{
  Error, Sentinel, auth, rate_limited, server_error, invalid_request, provider, Result, ok, err,
  panic, ◌>>=◌,
}
use aikido.Llm.Types.{
  Role, system, user, assistant, tool, Message, ImagePart, Request, ThinkingConfig,
}

pub record ContentPart : Type 0 where
  pub kind : Bytes
  pub text : Bytes
  pub image_url : Bytes

pub record InputItem : Type 0 where
  pub role : Bytes
  pub content : List ContentPart

-- `Store` is false and `Stream` true
pub record Body : Type 0 where
  pub model : Bytes
  pub instructions : Bytes
  pub input : List InputItem

unfoldable pub status_sentinel : ℕ → Sentinel
status_sentinel status =
    if status == 401 || status == 403 || status == 402
    then auth
    else if status == 429
    then rate_limited
    else if leb 500 status || status == 408
    then server_error
    else invalid_request

abbrev pub refused : Bytes → Error
refused what = provider (what ++ codes " not supported") invalid_request

-- `strings.Join(instructions, "\n\n")`
abbrev pub join_blank : List Bytes → Bytes
join_blank [] = []
join_blank (s ∷ []) = s
join_blank (s ∷ t ∷ l) = s ++ b'\n' ∷ b'\n' ∷ join_blank (t ∷ l)

abbrev pub is_some {ℓ} : {A : Type ℓ} → Option A → Bool
is_some none = false
is_some (some a) = true

module _ (base64 detect : Bytes → Bytes) where
  abbrev pub data_uri : ImagePart → Bytes
  data_uri i =
      codes "data:"
      ++ ((if is_empty i.content_type then detect i.data_bytes else i.content_type)
          ++ (codes ";base64," ++ base64 i.data_bytes))

  abbrev pub image_part : ImagePart → ContentPart
  image_part i = record {
    kind = codes "input_image";
    text = [];
    image_url = if is_empty i.url && not (is_empty i.data_bytes) then data_uri i else i.url;
  }

  abbrev pub text_parts : Bytes → Bytes → List ContentPart
  text_parts kind content =
      if is_empty content then [] else record { kind = kind; text = content; image_url = [] } ∷ []

  -- the item of a user's or an assistant's message
  abbrev pub input_item : Bytes → Bytes → Message → InputItem
  input_item role kind m = record {
    role = role;
    content = text_parts kind m.content ++ map image_part m.images;
  }

  abbrev pub add_item :
      Bytes → Bytes → Message → List Bytes × List InputItem → Result (List Bytes × List InputItem)
  add_item role kind m (instructions, input) =
      if not (is_empty m.tool_calls)
      then err (refused (codes "tool calls are"))
      else if not (is_empty m.audio)
      then err (refused (codes "audio input is"))
      else ok (instructions, input ++ input_item role kind m ∷ [])

  -- the `switch` on the role
  abbrev pub add_message :
      Role → Message → List Bytes × List InputItem → Result (List Bytes × List InputItem)
  add_message system m (instructions, input) = ok (instructions ++ m.content ∷ [], input)
  add_message user m acc = add_item (codes "user") (codes "input_text") m acc
  add_message assistant m acc = add_item (codes "assistant") (codes "output_text") m acc
  add_message tool m acc = err (refused (codes "tool messages are"))

  unfoldable pub add_messages :
      List Message → List Bytes × List InputItem → Result (List Bytes × List InputItem)
  add_messages [] acc = ok acc
  add_messages (m ∷ ms) acc = add_message m.role m acc >>= λ acc'. add_messages ms acc'

  unfoldable pub build_body : Request → Result Body
  unfolding add_messages
  build_body r =
      if not (is_empty r.tools) || is_some r.thinking
      then err (refused (codes "tools and thinking are"))
      else (add_messages r.messages ([], []) >>= λ acc.
          ok (record { model = r.model; instructions = join_blank acc.0; input = acc.1 }))
