-- ===== src/Examples/OfVoice.antt =====
-- The theorems on the speaker of a turn, where what is spoken is a piece without white space around it.
use aikido.Prelude.{List, [], ◌∷◌, none, some, Bytes, codes, ◌≡◌, refl}
use aikido.Prelude.Runes.{range_from}
use aikido.Agent.Event.{Event}
use aikido.Openrouter.Content.{trim_space}
use aikido.Voice.Sentences.{split_sentences}
use aikido.Voice.Sentences.Lossless.{Cuts, split_sentences-Cuts}
use aikido.Voice.Speaker.{Speaker, new_speaker, speak_run}
use aikido.Voice.Speaker.Spoken.{Pieces, texts_of, numbered, said, speak_run_lem}

abbrev reply : Bytes
reply = codes "It is 3.5 Euro. Ja. Then\n\nmore!"

split_sentences-Cuts_example :
    (ss : List Bytes) × (r : Bytes) × (split_sentences reply ≡ some (ss, r)) × Cuts reply ss r
split_sentences-Cuts_example = split_sentences-Cuts reply

-- a sentence in two parts, a tool call in the next, and a text
abbrev answer : List Event
answer =
    Event.text (codes "The price is 3.")
    ∷ Event.text (codes "5 Euro. Let me")
    ∷ Event.tool_call none
    ∷ Event.text (codes " Done.")
    ∷ []

speak_run_lem_example :
    (ps : List Bytes) × (s : Speaker) × (speak_run trim_space answer new_speaker ≡ some s)
    × Pieces (texts_of answer) ps []
    × (s.queue ≡ numbered 0 (said trim_space ps))
speak_run_lem_example = speak_run_lem trim_space answer

spoken_answer :
    speak_run trim_space answer new_speaker
    ≡ some (record {
      buf = [];
      seq = 3;
      queue =
          record { seq = 0; text = codes "The price is 3.5 Euro." }
          ∷ record { seq = 1; text = codes "Let me" }
          ∷ record { seq = 2; text = codes "Done." }
          ∷ [];
    })
unfolding speak_run range_from split_sentences trim_space
spoken_answer = refl
