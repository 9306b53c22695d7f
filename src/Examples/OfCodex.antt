-- ===== src/Examples/OfCodex.antt =====
-- The theorems on the Codex client, with lines of one letter and a text as the events.
use aikido.Prelude.{
  ℕ, true, false, Option, none, some, List, [], ◌∷◌, ◌≡◌, refl, Bytes, codes, ◌==◌, map,
  if◌then◌else◌,
}
use aikido.Errors.{ok}
use aikido.Llm.Types.{message, Request, system, user, assistant, event}
use aikido.Llm.Collect.{collect, stream}
use aikido.Codex.Stream.{
  StreamEvent, ResponsePart, Line, Closing, undisturbed, process_stream, complete,
}
use aikido.Codex.Stream.Order.{Shaped, process_stream-Shaped, complete-collect}
use aikido.Codex.Request.{build_body}
use aikido.Codex.Request.Supported.{Built, is_supported, build_body-Built}

-- `t` and a text is a delta, `u` a completed response with a usage, `x` a failure
abbrev kind_text : ℕ → Bytes
kind_text c =
    if c == b't'
    then codes "response.output_text.delta"
    else if c == b'u'
    then codes "response.completed"
    else codes "error"

abbrev used_response : ResponsePart
used_response = record {
  used = some (record { input_tokens = 7; output_tokens = 2; cached_tokens = some 4 });
  failure = none;
  incomplete_reason = none;
}

abbrev letter_event : Bytes → Option StreamEvent
letter_event [] = none
letter_event (c ∷ t) = some (record {
  kind = kind_text c;
  delta = t;
  text = [];
  message = t;
  code = codes "content_policy";
  response = if c == b'u' then some used_response else none;
})

abbrev line : Bytes → Line
line text = record { text = text; is_taken = true; now = 5 }

abbrev spent : List Line
spent = line (codes "event: delta") ∷ line (codes "data: thi") ∷ line (codes "data: u") ∷ []

abbrev refused : List Line
refused = line (codes "data: thi") ∷ line (codes "data: xno") ∷ []

abbrev no_rate : ℕ → ℕ → ℕ
no_rate n t = n

-- a context that ends while the error is handed over
abbrev cancelled : Closing
cancelled = record { over = none; is_error_taken = true; is_end_taken = false }

process_stream-Shaped_example :
    Shaped false (process_stream letter_event no_rate 1 cancelled refused)
process_stream-Shaped_example = process_stream-Shaped letter_event no_rate 1 cancelled refused

complete-collect_example :
    let es = process_stream letter_event no_rate 1 undisturbed spent in
    ((complete none es).text ≡ (collect (stream (map event es))).content)
    × ((complete none es).used ≡ (collect (stream (map event es))).used)
    × ((complete none es).failure ≡ (collect (stream (map event es))).failure)
complete-collect_example = complete-collect letter_event no_rate 1 undisturbed spent

abbrev no_change : Bytes → Bytes
no_change b = b

abbrev talk : Request
talk = record {
  model = codes "m";
  messages =
      message system (codes "Be brief.")
      ∷ message user (codes "Hi.")
      ∷ message system (codes "In verse.")
      ∷ message assistant (codes "Yes.")
      ∷ [];
  tools = [];
  max_tokens = 0;
  temperature = none;
  thinking = none;
}

build_body-Built_example :
    Built no_change no_change talk (is_supported talk) (build_body no_change no_change talk)
build_body-Built_example = build_body-Built no_change no_change talk

-- the system messages become the instructions, wherever they stand
instructions_of_talk :
    build_body no_change no_change talk
    ≡ ok (record {
      model = codes "m";
      instructions = codes "Be brief.\n\nIn verse.";
      input =
          record {
            role = codes "user";
            content = record { kind = codes "input_text"; text = codes "Hi."; image_url = [] } ∷ [];
          }
          ∷ record {
            role = codes "assistant";
            content =
                record { kind = codes "output_text"; text = codes "Yes."; image_url = [] } ∷ [];
          }
          ∷ [];
    })
unfolding build_body
instructions_of_talk = refl

said_to_talk :
    (complete none (process_stream letter_event no_rate 1 undisturbed spent)).text ≡ codes "hi"
unfolding complete process_stream
said_to_talk = refl
