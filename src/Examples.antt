-- ===== src/Examples.antt =====
-- A small program to run the theorems on: a session with the file tools over the in-memory
-- storage, and a provider that writes a file in its first turn and answers in its second.
pub mod OfRuns
pub mod OfFiles
pub mod OfTools
pub mod OfStreams
pub mod OfLockers
pub mod OfVocabulary
pub mod OfGrep
pub mod OfRequests
pub mod OfCodex
pub mod OfVoice
use aikido.Prelude.{
  ℕ, zero, suc, Bool, true, false, Option, none, some, List, [], ◌∷◌, Bytes, codes,
}
use aikido.Errors.{Error, Ctx}
use aikido.Vfs.Memory.{Files, storage}
use aikido.Llm.Types.{ToolDef, ToolCall, Received, event, Request}
use aikido.Llm.Types as Llm
use aikido.Tools.Handler.{Env, Content, Handler}
use aikido.Tools.Registry.{Registry, add_tool, new_registry}
use aikido.Agent.Policy.{VfsToolOptions}
use aikido.Agent.WriteFile.{WriteArgs, write_file_handler}
use aikido.Agent.Event.{Json, marshalled}
use aikido.Agent.Run.{SessionOptions, RunOptions, Outside, Stream, opened}

abbrev pub notes : Bytes
notes = codes "notes.md"

abbrev pub policy : VfsToolOptions
policy = record {
  hide_hidden_paths = true;
  allowed_extensions = codes ".md" ∷ [];
  max_file_bytes = 64;
  is_read_only = false;
  disable_extended = false;
}

-- the arguments of `write_file`: the whole text is the content of notes.md
abbrev pub as_notes : Bytes → Option WriteArgs
as_notes args = some (record { path = notes; content = args; content_type = [] })

abbrev pub plain : Json
plain = record {
  error_object = λ s. s;
  marshal = λ c. marshalled (codes "{}");
  error_text = λ e. codes "failed";
}

abbrev pub write_def : ToolDef
write_def = record { name = codes "write_file"; description = []; parameters = [] }

abbrev pub writer : Handler Files
writer = write_file_handler storage as_notes policy

abbrev pub file_tools : Registry Files
file_tools = add_tool write_def writer (new_registry Files)

abbrev pub write_call : ToolCall
write_call = record { id = codes "c1"; name = codes "write_file"; arguments = codes "hello" }

abbrev pub session : SessionOptions Files
session = record {
  id = codes "s1";
  tools = some file_tools;
  model = codes "m";
  system_prompt = codes "Be brief.";
  turn_limit = 3;
  max_tokens = 0;
  temperature = none;
  thinking_config = none;
}

abbrev pub no_options : RunOptions
no_options = record { system_suffix = []; thinking_override = none }

-- a call in the first turn, and a text in each other
abbrev pub answers : ℕ → Request → Stream
answers zero r = opened (event (Llm.Event.tool_call (some write_call)) ∷ [])
answers (suc n) r = opened (event (Llm.Event.text_delta (codes "Done.")) ∷ [])

abbrev pub world : Outside
world = record {
  lock = none;
  stream = answers;
  turn_id = λ n. n;
  read_ctx = none;
  append_ctx = none;
  tool_ctx = λ n c. none;
  call_ctx = λ n. none;
  user_ctx = none;
  run_ctx = none;
}
