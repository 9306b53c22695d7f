-- ===== src/Examples/OfRuns.antt =====
-- The theorems on runs, at the example's session.
use aikido.Prelude.{none, List, [], ◌∷◌, ◌++◌, ◌≡◌, refl, codes, text_eq, has_byte, contains, split}
use aikido.Prelude.Assoc.{lookup, insert}
use aikido.Errors.{ok}
use aikido.Llm.Types.{Message, message, Role}
use aikido.Tools.Registry.{dispatch}
use aikido.Vfs.Memory.{Files, new_storage, write_file}
use aikido.Vfs.Path.{validate_path, first_is, last_is}
use aikido.Vfs.ContentType.{ext}
use aikido.Agent.Policy.{validate_policy_path, extension_allowed, is_hidden, equal_fold}
use aikido.Agent.WriteFile.{write_file_handler, write_checked}
use aikido.Agent.History.{
  memory_history, memory_history-KeepsHistory, append, read, Sessions, new_history,
}
use aikido.Agent.Run.{
  Outcome, run_with_options, run_with_messages, run_from, turns, run_calls, session_dispatch,
  drain_provider_stream, receive, finish,
}
use aikido.Agent.Run.Stored.{Settled, run_settles}
use aikido.Agent.Run.Transcript.{IsAnswered, run_history}
use aikido.Agent.Run.Ends.{EndsOnce, run-EndsOnce}
use aikido.Examples.{plain, session, no_options, world}

abbrev the_run : Outcome Files Sessions
the_run =
    run_with_options plain memory_history session world (codes "Write.") no_options new_storage
      new_history

abbrev bare_run : Outcome Files Sessions
bare_run = run_with_messages plain memory_history session world [] new_storage new_history

run_history_example :
    (new : List Message) × IsAnswered new
    × (read none (codes "s1") the_run.history
        ≡ ok ([] ++ (message Role.user (codes "Write.") ∷ new)))
unfolding run_with_options run_from turns run_calls session_dispatch drain_provider_stream receive
    finish dispatch append read lookup insert text_eq write_file_handler write_checked
    validate_policy_path extension_allowed validate_path has_byte first_is last_is contains split
    equal_fold ext is_hidden write_file
run_history_example =
    run_history plain memory_history session world new_history memory_history-KeepsHistory
      (codes "Write.") no_options new_storage [] refl refl refl

run_settles_example :
    Settled plain memory_history memory_history-KeepsHistory session world new_history the_run
unfolding run_with_options run_from turns run_calls session_dispatch drain_provider_stream receive
    finish dispatch append read lookup insert text_eq write_file_handler write_checked
    validate_policy_path extension_allowed validate_path has_byte first_is last_is contains split
    equal_fold ext is_hidden write_file
run_settles_example =
    run_settles plain memory_history memory_history-KeepsHistory session world new_history
      (codes "Write.") no_options new_storage refl

run-EndsOnce_example : EndsOnce the_run.events
unfolding run_with_options run_from turns run_calls session_dispatch drain_provider_stream receive
    finish dispatch append read lookup insert text_eq write_file_handler write_checked
    validate_policy_path extension_allowed validate_path has_byte first_is last_is contains split
    equal_fold ext is_hidden write_file
run-EndsOnce_example =
    run-EndsOnce plain memory_history session world (codes "Write.") no_options new_storage
      new_history refl
