-- ===== src/Llm/Types.antt =====
-- llm/message.go, llm/client.go, llm/tooldef.go: messages, requests and streaming events. A float
-- (`CostUSD`, `TokensPerSecond`, `Temperature`) is an opaque code. A request is without the fields
-- that an agent's run never sets.
use aikido.Prelude.{ℕ, ◌-◌, ◌&&◌, Option, none, some, List, [], Bytes, leb, ltb, if◌then◌else◌}
use aikido.Errors.{Error}

pub data Role : Type 0 where
  system user assistant tool : Role

pub record ImagePart : Type 0 where
  pub url : Bytes
  pub content_type : Bytes
  pub data_bytes : Bytes

pub record AudioPart : Type 0 where
  pub data_bytes : Bytes
  pub format : Bytes

pub record ToolCall : Type 0 where
  pub id : Bytes
  pub name : Bytes
  pub arguments : Bytes

pub record Usage : Type 0 where
  pub prompt_tokens : ℕ
  pub completion_tokens : ℕ
  pub cache_read_tokens : ℕ
  pub cache_write_tokens : ℕ
  pub cost_usd : ℕ
  pub provider : Bytes
  pub latency : ℕ
  pub duration : ℕ
  pub tokens_per_second : ℕ

-- `*CacheBreakpoint` is an optional TTL
pub record Message : Type 0 where
  pub role : Role
  pub content : Bytes
  pub images : List ImagePart
  pub audio : List AudioPart
  pub tool_calls : List ToolCall
  pub tool_call_id : Bytes
  pub cache : Option Bytes

-- a literal `llm.Message{Role: …, Content: …}`, with zero values for the other fields
abbrev pub message : Role → Bytes → Message
message role content = record {
  role = role;
  content = content;
  images = [];
  audio = [];
  tool_calls = [];
  tool_call_id = [];
  cache = none;
}

pub record ToolDef : Type 0 where
  pub name : Bytes
  pub description : Bytes
  pub parameters : Bytes

-- llm/thinking.go: the effort's name, or the token budget
pub record ThinkingConfig : Type 0 where
  pub effort : Bytes
  pub budget : ℕ

pub record Request : Type 0 where
  pub model : Bytes
  pub messages : List Message
  pub tools : List ToolDef
  pub max_tokens : ℕ
  pub temperature : Option ℕ
  pub thinking : Option ThinkingConfig

-- llm.Event, one constructor for each kind; a pointer field may be nil
pub data Event : Type 0 where
  text_delta : Bytes → Event
  tool_call : Option ToolCall → Event
  thinking : Bytes → Event
  image : Option ImagePart → Event
  usage : Option Usage → Event
  error : Option Error → Event
  end : Bytes → Event

-- What a receive from the stream's channel, in a `select` with the context, gives: an event, or
-- the context's error. The end of a list of these is the closed channel.
pub data Received : Type 0 where
  event : Event → Received
  done : Error → Received

-- `Usage.SetTiming` with the times of the call's start, of its first output, if it had one, and of
-- its end. The clock is monotonic. `rate` is the division of two floats.
abbrev pub min_rate_window : ℕ
min_rate_window = 250000000

abbrev pub latency_of : ℕ → Option ℕ → ℕ → ℕ
latency_of start none now = now - start
latency_of start (some first) now = first - start

abbrev pub generation_of : ℕ → Option ℕ → ℕ → ℕ
generation_of start none now = now - start
generation_of start (some first) now = now - first

unfoldable pub set_timing : (ℕ → ℕ → ℕ) → ℕ → Option ℕ → ℕ → Usage → Usage
set_timing rate start first now u =
    let gen = generation_of start first now in
    record u {
      latency = latency_of start first now;
      duration = now - start;
      tokens_per_second =
          if leb min_rate_window gen && ltb 0 u.completion_tokens
          then rate u.completion_tokens gen
          else 0;
    }
