-- ===== src/Voice/Speaker.antt =====
-- voice/voice.go: `speaker`, and what `run` gives it of the agent's events. Package regexp makes
-- `Speakable`, which is a parameter here. The queue holds the chunks in the order of their sending;
-- that each is synthesized in a goroutine of its own is left out.
pub mod Spoken
use aikido.Prelude.{
  ℕ, suc, ◌+◌, Option, none, some, List, [], ◌∷◌, ◌++◌, Bytes, is_empty, if◌then◌else◌,
}
use aikido.Agent.Event.{Event}
use aikido.Voice.Sentences.{Split, split_sentences}

pub record SpeechChunk : Type 0 where
  pub seq : ℕ
  pub text : Bytes

pub record Speaker : Type 0 where
  pub buf : Bytes
  pub seq : ℕ
  pub queue : List SpeechChunk

abbrev pub new_speaker : Speaker
new_speaker = record { buf = []; seq = 0; queue = [] }

abbrev pub or_panic : Option Speaker → (Speaker → Option Speaker) → Option Speaker
or_panic none on = none
or_panic (some s) on = on s

module _ (speakable : Bytes → Bytes) where
  abbrev pub speak : Bytes → Speaker → Speaker
  speak text s =
      let spoken = speakable text in
      if is_empty spoken then s else record s {
        seq = s.seq + 1;
        queue = s.queue ++ record { seq = s.seq; text = spoken } ∷ [];
      }

  abbrev pub speak_all : List Bytes → Speaker → Speaker
  speak_all [] s = s
  speak_all (t ∷ ts) s = speak_all ts (speak t s)

  abbrev pub keep_rest : Speaker → Option Split → Option Speaker
  keep_rest s none = none
  keep_rest s (some (sentences, rest)) = some (speak_all sentences (record s { buf = rest }))

  -- none is a panic of `splitSentences`
  unfoldable pub feed : Bytes → Speaker → Option Speaker
  feed delta s = keep_rest s (split_sentences (s.buf ++ delta))

  unfoldable pub flush : Speaker → Speaker
  flush s = record (speak s.buf s) { buf = [] }

  -- the case of `run` for an event
  unfoldable pub hear : Event → Speaker → Option Speaker
  unfolding feed flush
  hear (Event.text t) s = feed t s
  hear (Event.tool_call c) s = some (flush s)
  hear _ s = some s

  -- the loop over the agent's events, and `close`
  unfoldable pub speak_run : List Event → Speaker → Option Speaker
  unfolding hear
  speak_run [] s = some (flush s)
  speak_run (e ∷ es) s = or_panic (hear e s) (λ s'. speak_run es s')
