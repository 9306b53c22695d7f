-- ===== src/Voice/Speaker/Spoken.antt =====
-- What the `speaker` of voice/voice.go says of an answer.
use mathlib.Core.Path.{subst}
use aikido.Prelude.{
  ℕ, ◌+◌, true, Option, some, List, [], ◌∷◌, ◌++◌, Bytes, length, is_empty, append-nil,
  append_assoc, length-append, if◌then◌else◌, if_cases, ◌≡◌, refl, sym, ap, ◌∙◌, arith, Bool-cases,
  inl, inr,
}
use aikido.Agent.Event.{Event}
use aikido.Voice.Sentences.{trimmed}
use aikido.Voice.Sentences.Lossless.{Cuts, rest, sentence, blank, split_sentences-Cuts}
use aikido.Voice.Speaker.{
  SpeechChunk, Speaker, new_speaker, speak, speak_all, keep_rest, flush, or_panic, speak_run,
}

-- the texts of the events, joined
abbrev pub text_of : Event → Bytes
text_of (Event.text t) = t
text_of _ = []

abbrev pub texts_of : List Event → Bytes
texts_of [] = []
texts_of (e ∷ es) = text_of e ++ texts_of es

-- a text is cut into pieces that go to `speak`, white space that does not, and the rest
pub data Pieces : Bytes → List Bytes → Bytes → Type 0 where
  at_end : {r : Bytes} → Pieces r [] r
  piece : (s : Bytes) {t r : Bytes} {ss : List Bytes} → Pieces t ss r → Pieces (s ++ t) (s ∷ ss) r
  gap :
      (s : Bytes) {t r : Bytes} {ss : List Bytes}
      → is_empty (trimmed s) ≡ true
      → Pieces t ss r
      → Pieces (s ++ t) ss r

Cuts-Pieces : {t r : Bytes} {ss : List Bytes} → Cuts t ss r → Pieces t ss r
Cuts-Pieces rest = at_end
Cuts-Pieces (sentence s b c) = piece s (Cuts-Pieces c)
Cuts-Pieces (blank s b c) = gap s b (Cuts-Pieces c)

-- more text behind the rest
Pieces-append :
    {t r r' : Bytes} {ss ss' : List Bytes} (d : Bytes)
    → Pieces t ss r
    → Pieces (r ++ d) ss' r'
    → Pieces (t ++ d) (ss ++ ss') r'
Pieces-append d at_end p = p
Pieces-append {r' = r'} {ss' = ss'} d (piece s {t} {r} {ss} c) p =
    subst (λ x. Pieces x (s ∷ ss ++ ss') r') (sym (append_assoc s t d))
      (piece s (Pieces-append d c p))
Pieces-append {r' = r'} {ss' = ss'} d (gap s {t} {r} {ss} b c) p =
    subst (λ x. Pieces x (ss ++ ss') r') (sym (append_assoc s t d)) (gap s b (Pieces-append d c p))

abbrev pub numbered : ℕ → List Bytes → List SpeechChunk
numbered n [] = []
numbered n (t ∷ ts) = record { seq = n; text = t } ∷ numbered (n + 1) ts

numbered-append :
    (n : ℕ) (ts us : List Bytes)
    → numbered n (ts ++ us) ≡ numbered n ts ++ numbered (n + length ts) us
numbered-append n [] us = ap (λ k. numbered k us) (omega arith)
numbered-append n (t ∷ ts) us =
    ap (◌∷◌ (record { seq = n; text = t }))
      (numbered-append (n + 1) ts us ∙ ap (λ k. numbered (n + 1) ts ++ numbered k us) (omega arith))

module _ (speakable : Bytes → Bytes) where
  -- what is said of the pieces
  abbrev pub said_one : Bytes → List Bytes
  said_one p = if is_empty (speakable p) then [] else speakable p ∷ []

  abbrev pub said : List Bytes → List Bytes
  said [] = []
  said (p ∷ ps) = said_one p ++ said ps

  said-append : (ps qs : List Bytes) → said (ps ++ qs) ≡ said ps ++ said qs
  said-append [] qs = refl
  said-append (p ∷ ps) qs =
      ap (λ l. said_one p ++ l) (said-append ps qs)
      ∙ sym (append_assoc (said_one p) (said ps) (said qs))

  -- the chunks for the pieces, behind the ones so far
  record Says (s : Speaker) (ps : List Bytes) (s' : Speaker) : Type 0 where
    queued : s'.queue ≡ s.queue ++ numbered s.seq (said ps)
    counted : s'.seq ≡ s.seq + length (said ps)

  Says-append :
      (s s' s'' : Speaker) (ps qs : List Bytes)
      → Says s ps s'
      → Says s' qs s''
      → Says s (ps ++ qs) s''
  Says-append s s' s'' ps qs a b = record {
    queued =
        b.queued
        ∙ ap (λ l. l ++ numbered s'.seq (said qs)) a.queued
        ∙ append_assoc s.queue _ _
        ∙ ap (λ l. s.queue ++ l)
            (ap (λ k. numbered s.seq (said ps) ++ numbered k (said qs)) a.counted
              ∙ sym (numbered-append s.seq (said ps) (said qs))
              ∙ ap (numbered s.seq) (sym (said-append ps qs)));
    counted = omega (
      arith,
      b.counted,
      a.counted,
      length-append (said ps) (said qs),
      ap (length {A = Bytes}) (said-append ps qs),
    );
  }

  speak-Says : (t : Bytes) (s : Speaker) → Says s (t ∷ []) (speak speakable t s)
  speak-Says t s = elim (Bool-cases (is_empty (speakable t))) [
    | inl e ↦ record { queued = rw e (sym (append-nil s.queue)); counted = rw e (omega arith) }
    | inr e ↦ record { queued = rw e refl; counted = rw e refl }
  ]

  speak-buf : (t : Bytes) (s : Speaker) → (speak speakable t s).buf ≡ s.buf
  speak-buf t s =
      if_cases (λ (r : Speaker). r.buf ≡ s.buf) (is_empty (speakable t)) (λ _. refl) (λ _. refl)

  speak_all-Says : (ts : List Bytes) (s : Speaker) → Says s ts (speak_all speakable ts s)
  speak_all-Says [] s = record { queued = sym (append-nil s.queue); counted = omega arith }
  speak_all-Says (t ∷ ts) s =
      Says-append s _ _ (t ∷ []) ts (speak-Says t s) (speak_all-Says ts (speak speakable t s))

  speak_all-buf : (ts : List Bytes) (s : Speaker) → (speak_all speakable ts s).buf ≡ s.buf
  speak_all-buf [] s = refl
  speak_all-buf (t ∷ ts) s = speak_all-buf ts (speak speakable t s) ∙ speak-buf t s

  abbrev Speaks : Bytes → Speaker → Option Speaker → Type 0
  Speaks text s o =
      (ps : List Bytes) × (s' : Speaker) × (o ≡ some s') × Pieces text ps [] × Says s ps s'

  -- one piece or sentences first, and then what follows
  joined :
      (s mid : Speaker) (ts : List Bytes) (d : Bytes) (es : List Event) (o : Option Speaker)
      → Pieces (s.buf ++ d) ts mid.buf
      → Says s ts mid
      → Speaks (mid.buf ++ texts_of es) mid o
      → Speaks (s.buf ++ (d ++ texts_of es)) s o
  joined s mid ts d es o p a (ps, s', e, q, b) = (
    ts ++ ps,
    s',
    e,
    subst (λ x. Pieces x (ts ++ ps) []) (append_assoc s.buf d (texts_of es))
        (Pieces-append (texts_of es) p q),
    Says-append s mid s' ts ps a b,
  )

  flush-Says : (s : Speaker) → Says s (s.buf ∷ []) (flush speakable s)
  unfolding flush
  flush-Says s = let a = speak-Says s.buf s in record { queued = a.queued; counted = a.counted }

  flush-buf : (s : Speaker) → (flush speakable s).buf ≡ []
  unfolding flush
  flush-buf s = refl

  -- the whole buffer is a piece
  all_of : (b : Bytes) → Pieces b (b ∷ []) []
  all_of b = subst (λ x. Pieces x (b ∷ []) []) (append-nil b) (piece b at_end)

  split_text :
      (s : Speaker) (d : Bytes) (r : Bytes) (ss : List Bytes) (es : List Event)
      (on : Speaker → Option Speaker)
      → Cuts (s.buf ++ d) ss r
      → ((mid : Speaker) → Speaks (mid.buf ++ texts_of es) mid (on mid))
      → Speaks (s.buf ++ (d ++ texts_of es)) s (or_panic (keep_rest speakable s (some (ss, r))) on)
  split_text s d r ss es on c h =
      let mid = speak_all speakable ss (record s { buf = r }) in
      let a = speak_all-Says ss (record s { buf = r }) in
      joined s mid ss d es (on mid)
        (subst (λ b. Pieces (s.buf ++ d) ss b) (sym (speak_all-buf ss (record s { buf = r })))
          (Cuts-Pieces c))
        (record { queued = a.queued; counted = a.counted }) (h mid)

  speak_run-Speaks :
      (es : List Event) (s : Speaker) → Speaks (s.buf ++ texts_of es) s (speak_run speakable es s)
  unfolding speak_run
  speak_run-Speaks [] s =
      (s.buf ∷ [], flush speakable s, refl, rw (append-nil s.buf) (all_of s.buf), flush-Says s)
  speak_run-Speaks (Event.text d ∷ es) s =
      let (ss, r, e, c) = split_sentences-Cuts (s.buf ++ d) in
      subst
        (λ o.
          Speaks (s.buf ++ (d ++ texts_of es)) s
            (or_panic (keep_rest speakable s o) (λ s'. speak_run speakable es s')))
        (sym e) (split_text s d r ss es (speak_run speakable es) c (speak_run-Speaks es))
  speak_run-Speaks (Event.tool_call c ∷ es) s =
      joined s (flush speakable s) (s.buf ∷ []) [] es _ (rw (append-nil s.buf) (all_of s.buf))
        (flush-Says s) (speak_run-Speaks es (flush speakable s))
  speak_run-Speaks (Event.thinking t ∷ es) s = speak_run-Speaks es s
  speak_run-Speaks (Event.tool_result t ∷ es) s = speak_run-Speaks es s
  speak_run-Speaks (Event.image t ∷ es) s = speak_run-Speaks es s
  speak_run-Speaks (Event.usage t ∷ es) s = speak_run-Speaks es s
  speak_run-Speaks (Event.error t ∷ es) s = speak_run-Speaks es s
  speak_run-Speaks (Event.end t ∷ es) s = speak_run-Speaks es s

  -- The speaker of a turn does not panic. The text of the answer is cut, without its order changed,
  -- into pieces and white space that stands between them; the chunks are what `Speakable` makes of
  -- the pieces, where that is not empty, in order and numbered from 0 without a gap.
  pub speak_run_lem :
      (es : List Event)
      → (ps : List Bytes) × (s : Speaker) × (speak_run speakable es new_speaker ≡ some s)
        × Pieces (texts_of es) ps []
        × (s.queue ≡ numbered 0 (said ps))
  speak_run_lem es =
      let (ps, s, e, p, a) = speak_run-Speaks es new_speaker in (ps, s, e, p, a.queued)
