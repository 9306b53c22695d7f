-- ===== src/Examples/OfTools.antt =====
-- The theorems on the registry, at one with the example's tool.
use aikido.Prelude.{true, none, some, [], ◌≡◌, refl, codes, text_eq, if◌then◌else◌}
use aikido.Prelude.Assoc.{lookup, insert}
use aikido.Llm.Types.{ToolDef, ToolCall}
use aikido.Vfs.Memory.{Files, new_storage}
use aikido.Tools.Handler.{Env}
use aikido.Tools.Registry.{new_registry, register, dispatch}
use aikido.Tools.Registry.Invariant.{
  IsConsistent, new_registry-IsConsistent, register-IsConsistent, dispatch-register,
}
use aikido.Prelude.Int.{pos, negsuc}
use aikido.Agent.Session.{NewSessionOptions}
use aikido.Examples.{write_def, writer, file_tools}

abbrev read_def : ToolDef
read_def = record { name = codes "read_file"; description = []; parameters = [] }

abbrev read_call : ToolCall
read_call = record { id = codes "c2"; name = codes "read_file"; arguments = [] }

abbrev turn_one : Env
turn_one = record { session_id = codes "s1"; turn_id = 1 }

file_tools-IsConsistent : IsConsistent file_tools
unfolding register lookup
file_tools-IsConsistent =
    register-IsConsistent write_def (some writer) (new_registry Files) new_registry-IsConsistent

register-IsConsistent_example :
    IsConsistent (register write_def (some writer) (new_registry Files)).1
register-IsConsistent_example =
    register-IsConsistent write_def (some writer) (new_registry Files) new_registry-IsConsistent

dispatch-register_example :
    dispatch none read_call turn_one (register read_def (some writer) file_tools).1 new_storage ≡ (
      if text_eq read_def.name read_call.name
      then writer none read_call.arguments turn_one new_storage
      else dispatch none read_call turn_one file_tools new_storage)
unfolding register lookup insert text_eq
dispatch-register_example =
    dispatch-register read_def writer file_tools refl none read_call turn_one new_storage

abbrev some_options : NewSessionOptions
some_options = record {
  id = codes "s1";
  has_client = true;
  model = codes "m";
  has_history = true;
  has_locker = true;
  max_turns = negsuc 0;
  run_timeout = pos 0;
  llm_call_timeout = pos 5;
  max_tokens = pos 0;
}
