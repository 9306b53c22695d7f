-- ===== src/Openrouter/Wire.antt =====
-- llm/openrouter/api_types.go: the shapes of a streamed answer, without the fields that no code
-- reads, and what encoding/json and encoding/base64 make of a text.
use aikido.Prelude.{
  ℕ, zero, suc, Bool, not, ◌&&◌, ◌||◌, Option, List, [], ◌∷◌, Bytes, codes, is_empty, text_eq,
}
use aikido.Prelude.Int.{ℤ}
use aikido.Llm.Types.{Usage}

-- toolCallFragment, with the fields of its functionFrag
pub record ToolCallFragment : Type 0 where
  pub index : ℤ
  pub id : Bytes
  pub name : Bytes
  pub arguments : Bytes

-- apiImagePart; the URL is missing where `ImageURL` is nil
pub record ApiImagePart : Type 0 where
  pub image_url : Option Bytes

pub record ApiContentPart : Type 0 where
  pub kind : Bytes
  pub text : Bytes
  pub image_url : Option Bytes

-- `Content` is the raw JSON
pub record StreamDelta : Type 0 where
  pub content : Bytes
  pub tool_calls : List ToolCallFragment
  pub reasoning : Bytes
  pub images : List ApiImagePart

pub record StreamChoice : Type 0 where
  pub delta : StreamDelta
  pub message : Option StreamDelta
  pub finish_reason : Option Bytes

-- apiUsage with its promptDetails; token counts are not negative
pub record ApiUsage : Type 0 where
  pub prompt_tokens : ℕ
  pub completion_tokens : ℕ
  pub cached_tokens : ℕ
  pub cache_write_tokens : ℕ
  pub details_cache_read : ℕ
  pub details_cache_creation : ℕ
  pub cost : ℕ
  pub cache_read_input_tokens : ℕ
  pub cache_creation_input_tokens : ℕ

pub record ApiError : Type 0 where
  pub code : Bytes
  pub message : Bytes

pub record StreamChunk : Type 0 where
  pub provider : Bytes
  pub choices : List StreamChoice
  pub used : Option ApiUsage
  pub error : Option ApiError

-- `json.Unmarshal` into the given type, `base64.StdEncoding.DecodeString`, `fmt.Sprintf("call_%d")`
pub record Codec : Type 0 where
  pub chunk : Bytes → Option StreamChunk
  pub as_string : Bytes → Option Bytes
  pub as_parts : Bytes → Option (List ApiContentPart)
  pub base64 : Bytes → Option Bytes
  pub call_id : ℤ → Bytes

unfoldable pub has_output : StreamDelta → Bool
unfolding text_eq
has_output d =
    (not (is_empty d.content)
      && (not (text_eq d.content (b'"' ∷ b'"' ∷ [])) && not (text_eq d.content (codes "null"))))
    || (not (is_empty d.reasoning) || (not (is_empty d.tool_calls) || not (is_empty d.images)))

-- `if a == 0 { a = b }`
abbrev pub or_else : ℕ → ℕ → ℕ
or_else zero b = b
or_else (suc a) b = suc a

-- `toLLMUsage`
unfoldable pub to_llm_usage : ApiUsage → Usage
to_llm_usage u = record {
  prompt_tokens = u.prompt_tokens;
  completion_tokens = u.completion_tokens;
  cache_read_tokens =
      or_else (or_else u.cached_tokens u.details_cache_read) u.cache_read_input_tokens;
  cache_write_tokens =
      or_else (or_else u.cache_write_tokens u.details_cache_creation) u.cache_creation_input_tokens;
  cost_usd = u.cost;
  provider = [];
  latency = 0;
  duration = 0;
  tokens_per_second = 0;
}

-- `chunkUsage` of a chunk that has a usage
unfoldable pub chunk_usage : Bytes → ApiUsage → Usage
unfolding to_llm_usage
chunk_usage provider u = record (to_llm_usage u) { provider = provider }
