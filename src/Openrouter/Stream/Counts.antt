-- ===== src/Openrouter/Stream/Counts.antt =====
-- What is counted in the events of a stream, and how a step's effect changes it.
use mathlib.Core.Path.{subst}
use aikido.Prelude.{
  ℕ, ◌+◌, Bool, true, false, Option, List, [], ◌∷◌, ◌++◌, ◌≡◌, refl, sym, ap, ◌∙◌, arith, All,
  All-append, append_assoc, if◌then◌else◌,
}
use aikido.Errors.{Error}
use aikido.Llm.Types as Llm
use aikido.Llm.Types.{Usage}
use aikido.Openrouter.Stream.{Reading}
use aikido.Openrouter.Stream.Effects.{IsPlain, Adds, Effect, quiet, errs, Pays, idle, charges}

abbrev pub is_end : Llm.Event → Bool
is_end (Llm.Event.end r) = true
is_end _ = false

abbrev pub is_usage : Llm.Event → Bool
is_usage (Llm.Event.usage u) = true
is_usage _ = false

abbrev pub is_error : Llm.Event → Bool
is_error (Llm.Event.error e) = true
is_error _ = false

-- how many events pass a test
abbrev pub count_if : (Llm.Event → Bool) → List Llm.Event → ℕ
count_if test [] = 0
count_if test (e ∷ es) = (if test e then 1 else 0) + count_if test es

pub count_if-append :
    (test : Llm.Event → Bool) (xs ys : List Llm.Event)
    → count_if test (xs ++ ys) ≡ count_if test xs + count_if test ys
count_if-append test [] ys = omega arith
count_if-append test (x ∷ xs) ys = omega (arith, count_if-append test xs ys)

-- plain events pass none of the three tests
count_plain :
    (test : Llm.Event → Bool)
    → ((e : Llm.Event) → IsPlain e → test e ≡ false)
    → (es : List Llm.Event) → All IsPlain es
    → count_if test es ≡ 0
count_plain test f [] a = refl
count_plain test f (e ∷ es) (h, a) = ground (arith, f e h, count_plain test f es a)

plain-not_end : (e : Llm.Event) → IsPlain e → is_end e ≡ false
plain-not_end (Llm.Event.end r) h = absurd (cc h)
plain-not_end (Llm.Event.usage u) h = refl
plain-not_end (Llm.Event.error x) h = refl
plain-not_end (Llm.Event.text_delta s) h = refl
plain-not_end (Llm.Event.tool_call c) h = refl
plain-not_end (Llm.Event.thinking s) h = refl
plain-not_end (Llm.Event.image i) h = refl

plain-not_usage : (e : Llm.Event) → IsPlain e → is_usage e ≡ false
plain-not_usage (Llm.Event.usage u) h = absurd (cc h)
plain-not_usage (Llm.Event.end r) h = refl
plain-not_usage (Llm.Event.error x) h = refl
plain-not_usage (Llm.Event.text_delta s) h = refl
plain-not_usage (Llm.Event.tool_call c) h = refl
plain-not_usage (Llm.Event.thinking s) h = refl
plain-not_usage (Llm.Event.image i) h = refl

plain-not_error : (e : Llm.Event) → IsPlain e → is_error e ≡ false
plain-not_error (Llm.Event.error x) h = absurd (cc h)
plain-not_error (Llm.Event.end r) h = refl
plain-not_error (Llm.Event.usage u) h = refl
plain-not_error (Llm.Event.text_delta s) h = refl
plain-not_error (Llm.Event.tool_call c) h = refl
plain-not_error (Llm.Event.thinking s) h = refl
plain-not_error (Llm.Event.image i) h = refl

count_added :
    (test : Llm.Event → Bool)
    → ((e : Llm.Event) → IsPlain e → test e ≡ false)
    → (r r' : Reading) → Adds r r'
    → count_if test r'.out ≡ count_if test r.out
count_added test f r r' a =
    ap (λ (l : List Llm.Event). count_if test l) a.split
    ∙ omega (arith, count_if-append test r.out a.new, count_plain test f a.new a.plain)

count_with :
    (test : Llm.Event → Bool) (e : Llm.Event) (xs out : List Llm.Event)
    → out ≡ xs ++ (e ∷ [])
    → count_if test out ≡ count_if test xs + (if test e then 1 else 0)
count_with test e xs out h =
    ap (λ (l : List Llm.Event). count_if test l) h ∙ omega (arith, count_if-append test xs (e ∷ []))

-- no end so far, and one usage if the flag says so
pub record Tidy (r : Reading) : Type 0 where
  pub no_end : count_if is_end r.out ≡ 0
  pub usages : count_if is_usage r.out ≡ (if r.usage_sent then 1 else 0)

pub Tidy-Adds : (r r' : Reading) → Adds r r' → Tidy r → Tidy r'
Tidy-Adds r r' a i = record {
  no_end = count_added is_end plain-not_end r r' a ∙ i.no_end;
  usages =
      count_added is_usage plain-not_usage r r' a
      ∙ i.usages
      ∙ ap (λ (b : Bool). if b then 1 else 0) (sym a.same_usage);
}

pub Tidy-Effect : (r r' : Reading) → Effect r r' → Tidy r → Tidy r'
Tidy-Effect r r' (quiet a) i = Tidy-Adds r r' a i
Tidy-Effect r r' (errs m e a o u s) i =
    let k = Tidy-Adds r m a i in
    record {
      no_end = ground (arith, count_with is_end (Llm.Event.error e) m.out r'.out o, k.no_end);
      usages = ground (arith, count_with is_usage (Llm.Event.error e) m.out r'.out o, k.usages, u);
    }

pub Tidy-Pays : (r r' : Reading) → Pays r r' → Tidy r → Tidy r'
Tidy-Pays r r' (idle e) i = subst Tidy (sym e) i
Tidy-Pays r r' (charges u o n y s) i = record {
  no_end = ground (arith, count_with is_end (Llm.Event.usage u) r.out r'.out o, i.no_end);
  usages = ground (arith, count_with is_usage (Llm.Event.usage u) r.out r'.out o, i.usages, n, y);
}

-- an error with nothing but usage behind it, and no other error
pub record FailsOnce (out : List Llm.Event) : Type 0 where
  pub before : List Llm.Event
  pub failure : Option Error
  pub behind : List Llm.Event
  pub split : out ≡ before ++ (Llm.Event.error failure ∷ behind)
  pub first : count_if is_error before ≡ 0
  pub priced : All (λ (e : Llm.Event). is_usage e ≡ true) behind

pub record Ordered (r : Reading) : Type 0 where
  pub clean : r.saw_error ≡ false → count_if is_error r.out ≡ 0
  pub fails : r.saw_error ≡ true → FailsOnce r.out

pub Ordered-Effect : (r r' : Reading) → Effect r r' → r.saw_error ≡ false → Ordered r → Ordered r'
Ordered-Effect r r' (quiet a) n o = record {
  clean = λ h. count_added is_error plain-not_error r r' a ∙ o.clean n;
  fails = λ h. absurd (cc (h, a.same_error, n));
}
Ordered-Effect r r' (errs m e a q u s) n o = record {
  clean = λ h. absurd (cc (h, s));
  fails = λ h. record {
    before = m.out;
    failure = e;
    behind = [];
    split = q;
    first = count_added is_error plain-not_error r m a ∙ o.clean n;
    priced = tt;
  };
}

pub Ordered-Pays : (r r' : Reading) → Pays r r' → Ordered r → Ordered r'
Ordered-Pays r r' (idle e) o = subst Ordered (sym e) o
Ordered-Pays r r' (charges u q n y s) o = record {
  clean = λ h.
      ground (arith, count_with is_error (Llm.Event.usage u) r.out r'.out q, o.clean (sym s ∙ h));
  fails = λ h.
      let f = o.fails (sym s ∙ h) in
      record {
        before = f.before;
        failure = f.failure;
        behind = f.behind ++ (Llm.Event.usage u ∷ []);
        split =
            q
            ∙ ap (λ (l : List Llm.Event). l ++ (Llm.Event.usage u ∷ [])) f.split
            ∙ append_assoc f.before (Llm.Event.error f.failure ∷ f.behind) (Llm.Event.usage u ∷ []);
        first = f.first;
        priced = All-append (λ (e : Llm.Event). is_usage e ≡ true) f.behind _ f.priced (refl, tt);
      };
}
