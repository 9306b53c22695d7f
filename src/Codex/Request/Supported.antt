-- ===== src/Codex/Request/Supported.antt =====
-- Which requests `buildBody` of llm/codex/client.go accepts, and what it makes of them.
use aikido.Prelude.{
  Bool, true, false, not, ◌&&◌, List, [], ◌∷◌, ◌++◌, append-nil, append_assoc, ◌≡◌, refl, sym,
  Bytes, codes, is_empty, Bool-cases, inl, inr,
}
use aikido.Errors.{provider, invalid_request, Result, ok, err, ◌>>=◌}
use aikido.Llm.Types.{Role, system, user, assistant, tool, Message, Request}
use aikido.Codex.Request.{
  InputItem, Body, join_blank, input_item, add_item, add_message, add_messages, is_some, build_body,
}

-- the messages that the documentation of the package lists as supported
abbrev pub role_supported : Role → Bool → Bool
role_supported system plain = true
role_supported user plain = plain
role_supported assistant plain = plain
role_supported tool plain = false

abbrev pub message_supported : Message → Bool
message_supported m = role_supported m.role (is_empty m.tool_calls && is_empty m.audio)

abbrev pub all_supported : List Message → Bool
all_supported [] = true
all_supported (m ∷ ms) = message_supported m && all_supported ms

abbrev pub is_supported : Request → Bool
is_supported r = is_empty r.tools && not (is_some r.thinking) && all_supported r.messages

abbrev instruction_of : Role → Message → List Bytes
instruction_of system m = m.content ∷ []
instruction_of _ m = []

abbrev pub instructions_of : List Message → List Bytes
instructions_of [] = []
instructions_of (m ∷ ms) = instruction_of m.role m ++ instructions_of ms

module _ (base64 detect : Bytes → Bytes) where
  abbrev item_of : Role → Message → List InputItem
  item_of user m = input_item base64 detect (codes "user") (codes "input_text") m ∷ []
  item_of assistant m = input_item base64 detect (codes "assistant") (codes "output_text") m ∷ []
  item_of _ m = []

  abbrev pub items_of : List Message → List InputItem
  items_of [] = []
  items_of (m ∷ ms) = item_of m.role m ++ items_of ms

  -- all messages are taken, or one is refused as an invalid request
  data Took (b : Bool) (acc : List Bytes × List InputItem)
      : Result (List Bytes × List InputItem) → Type 0 where
    took : b ≡ true → Took b acc (ok acc)
    refuses : {text : Bytes} → b ≡ false → Took b acc (err (provider text invalid_request))

  add_item-Took :
      (role kind : Bytes) (m : Message) (acc : List Bytes × List InputItem)
      → Took
          (is_empty m.tool_calls && is_empty m.audio)
          (acc.0 ++ [], acc.1 ++ input_item base64 detect role kind m ∷ [])
          (add_item base64 detect role kind m acc)
  add_item-Took role kind m acc = elim (Bool-cases (is_empty m.tool_calls)) [
    | inr h ↦ rw h (refuses refl)
    | inl h ↦ elim (Bool-cases (is_empty m.audio)) [
      | inr g ↦ rw (h, g) (refuses refl)
      | inl g ↦ rw (h, g, append-nil acc.0) (took refl)
    ]
  ]

  add_message-Took :
      (role : Role) (m : Message) (acc : List Bytes × List InputItem)
      → Took
          (role_supported role (is_empty m.tool_calls && is_empty m.audio))
          (acc.0 ++ instruction_of role m, acc.1 ++ item_of role m)
          (add_message base64 detect role m acc)
  add_message-Took system m acc = rw (append-nil acc.1) (took refl)
  add_message-Took user m acc = add_item-Took (codes "user") (codes "input_text") m acc
  add_message-Took assistant m acc = add_item-Took (codes "assistant") (codes "output_text") m acc
  add_message-Took tool m acc = refuses refl

  -- the messages behind one that is taken
  then-Took :
      (b c : Bool) (mid last : List Bytes × List InputItem)
      (r : Result (List Bytes × List InputItem))
      (rest : List Bytes × List InputItem → Result (List Bytes × List InputItem))
      → Took b mid r
      → Took c last (rest mid)
      → Took (b && c) last (r >>= rest)
  then-Took true c mid last _ rest (took e) t = t
  then-Took false c mid last _ rest (took e) t = absurd (cc e)
  then-Took false c mid last _ rest (refuses e) t = refuses refl
  then-Took true c mid last _ rest (refuses e) t = absurd (cc e)

  add_messages-Took :
      (ms : List Message) (acc : List Bytes × List InputItem)
      → Took
          (all_supported ms)
          (acc.0 ++ instructions_of ms, acc.1 ++ items_of ms)
          (add_messages base64 detect ms acc)
  unfolding add_messages
  add_messages-Took [] acc = rw (append-nil acc.0, append-nil acc.1) (took refl)
  add_messages-Took (m ∷ ms) acc =
      then-Took (message_supported m) (all_supported ms)
        (acc.0 ++ instruction_of m.role m, acc.1 ++ item_of m.role m) _ _ _
        (add_message-Took m.role m acc)
        (rw
          (
            sym (append_assoc acc.0 (instruction_of m.role m) (instructions_of ms)),
            sym (append_assoc acc.1 (item_of m.role m) (items_of ms)),
          )
          (add_messages-Took ms _))

  pub data Built (r : Request) (b : Bool) : Result Body → Type 0 where
    built :
        b ≡ true
        → Built r b (
            ok (record {
              model = r.model;
              instructions = join_blank (instructions_of r.messages);
              input = items_of r.messages;
            }))
    rejected : {text : Bytes} → b ≡ false → Built r b (err (provider text invalid_request))

  -- A request is refused as invalid if it has tools or thinking, or a message that is a tool's, or a
  -- user's or an assistant's with tool calls or audio. Any other request gets a body: its
  -- instructions are the texts of the system messages, joined by blank lines, and its input is one
  -- item for each other message, both in the order of the messages.
  pub build_body-Built : (r : Request) → Built r (is_supported r) (build_body base64 detect r)
  unfolding build_body
  build_body-Built r = elim (Bool-cases (is_empty r.tools)) [
    | inr h ↦ rw h (rejected refl)
    | inl h ↦ elim (Bool-cases (is_some r.thinking)) [
      | inl g ↦ rw (h, g) (rejected refl)
      | inr g ↦ rw (h, g) (finish _ _ (add_messages-Took r.messages ([], [])))
    ]
  ]
    where
      finish :
          (b : Bool) (t : Result (List Bytes × List InputItem))
          → Took b (instructions_of r.messages, items_of r.messages) t
          → Built r b (
              t >>= λ acc.
              ok (record { model = r.model; instructions = join_blank acc.0; input = acc.1 }))
      finish b _ (took e) = built e
      finish b _ (refuses e) = rejected e
