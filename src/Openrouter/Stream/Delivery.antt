-- ===== src/Openrouter/Stream/Delivery.antt =====
-- What reaches the channel of the events that `processStream` of llm/openrouter/sse.go emits.
use aikido.Prelude.{
  ◌≤◌, Bool, true, false, Option, List, [], ◌∷◌, ◌++◌, ◌≡◌, refl, ap, ◌∙◌, ◌⊎◌, inl, inr, arith,
  All, length, drop,
}
use aikido.Errors.{Error}
use aikido.Llm.Types as Llm
use aikido.Openrouter.Stream.{received}
use aikido.Openrouter.Stream.Counts.{is_usage, is_error, count_if, count_if-append, FailsOnce}

-- the first part is sent, and then the second with the answers that are left
pub received-append :
    (sends : List Bool) (xs ys : List Llm.Event)
    → received sends (xs ++ ys) ≡ received sends xs ++ received (drop (length xs) sends) ys
received-append sends [] ys = refl
received-append [] (x ∷ xs) [] = refl
received-append [] (x ∷ xs) (y ∷ ys) = refl
received-append (true ∷ sends) (x ∷ xs) ys = ap (λ l. x ∷ l) (received-append sends xs ys)
received-append (false ∷ sends) (x ∷ xs) ys = received-append sends xs ys

pub count-received :
    (test : Llm.Event → Bool) (sends : List Bool) (es : List Llm.Event)
    → count_if test (received sends es) ≤ count_if test es
count-received test sends [] = omega arith
count-received test [] (e ∷ es) = omega arith
count-received test (true ∷ sends) (e ∷ es) = omega (arith, count-received test sends es)
count-received test (false ∷ sends) (e ∷ es) = omega (arith, count-received test sends es)

All-received :
    (P : Llm.Event → Type 0) (sends : List Bool) (es : List Llm.Event)
    → All P es
    → All P (received sends es)
All-received P sends [] a = tt
All-received P [] (e ∷ es) a = a
All-received P (true ∷ sends) (e ∷ es) (h, a) = (h, All-received P sends es a)
All-received P (false ∷ sends) (e ∷ es) (h, a) = All-received P sends es a

usage_only : (es : List Llm.Event) → All (λ e. is_usage e ≡ true) es → count_if is_error es ≡ 0
usage_only [] a = refl
usage_only (Llm.Event.usage u ∷ es) (h, a) = omega (arith, usage_only es a)
usage_only (Llm.Event.error u ∷ es) (h, a) = absurd (cc h)
usage_only (Llm.Event.end u ∷ es) (h, a) = absurd (cc h)
usage_only (Llm.Event.text_delta u ∷ es) (h, a) = absurd (cc h)
usage_only (Llm.Event.tool_call u ∷ es) (h, a) = absurd (cc h)
usage_only (Llm.Event.thinking u ∷ es) (h, a) = absurd (cc h)
usage_only (Llm.Event.image u ∷ es) (h, a) = absurd (cc h)

-- what is sent of events without an error, and of an error with usage behind it
split-FailsOnce :
    (out xs behind : List Llm.Event) (failure : Option Error) (sends : List Bool)
    → out ≡ xs ++ received sends (Llm.Event.error failure ∷ behind)
    → count_if is_error xs ≡ 0
    → All (λ e. is_usage e ≡ true) behind
    → (count_if is_error out ≡ 0) ⊎ FailsOnce out
split-FailsOnce out xs behind failure [] e h a =
    inr
      (record { before = xs; failure = failure; behind = behind; split = e; first = h; priced = a })
split-FailsOnce out xs behind failure (true ∷ sends) e h a = inr (record {
  before = xs;
  failure = failure;
  behind = received sends behind;
  split = e;
  first = h;
  priced = All-received (λ e. is_usage e ≡ true) sends behind a;
})
split-FailsOnce out xs behind failure (false ∷ sends) e h a =
    let none_behind =
      usage_only (received sends behind) (All-received (λ e. is_usage e ≡ true) sends behind a) in
    inl (
      ap (λ l. count_if is_error l) e
      ∙ omega (arith, count_if-append is_error xs (received sends behind), h, none_behind))

pub FailsOnce-received :
    (sends : List Bool) (out : List Llm.Event)
    → FailsOnce out
    → (count_if is_error (received sends out) ≡ 0) ⊎ FailsOnce (received sends out)
FailsOnce-received sends out f =
    split-FailsOnce (received sends out) (received sends f.before) f.behind f.failure
      (drop (length f.before) sends)
      (ap (λ l. received sends l) f.split ∙ received-append sends f.before _)
      (omega (arith, count-received is_error sends f.before, f.first)) f.priced
