-- ===== src/Examples/OfRequests.antt =====
-- The theorems on the requests of the OpenRouter client, with a JSON of one letter and a text.
use aikido.Prelude.{
  ℕ, suc, ◌*◌, min, Option, none, some, List, [], ◌∷◌, ◌≡◌, refl, ap, sym, map, arith, Bytes, codes,
  ◌-◌, ◌==◌, if◌then◌else◌,
}
use aikido.Prelude.Int.{ℤ, pos}
use aikido.Prelude.Runes.{encode, range_from, decode_rune, decode_tail, encode_rune, lead}
use aikido.Errors.{Error, Result, ok, err, external}
use aikido.Retry.{retry_do, attempt_from}
use aikido.Llm.Types.{Message, message, user, tool}
use aikido.Openrouter.Failures.{Header, Response, second, classify_http_error, retry_policy}
use aikido.Openrouter.Failures.Repeats.{client_error_ends, retry_after_sleep}
use aikido.Openrouter.Request.{
  ContentPart, PartBody, text, image_url, input_audio, Marshal, build_api_messages, ApiMessage,
}
use aikido.Openrouter.Request.Shape.{
  Read, plain, parts, Reads, Sent, to_valid, valid_body, build_api_messages-Sent,
}
use aikido.Examples.OfStreams.{whole, calm}

-- a part alone: an image, or a text with a breakpoint
abbrev one_json : PartBody → Option (Option Bytes) → Result Bytes
one_json (image_url u) none = ok (b'i' ∷ to_valid u)
one_json (text t) (some none) = ok (b't' ∷ to_valid t)
one_json _ _ = err (external 0)

abbrev parts_json_of : List ContentPart → Result Bytes
parts_json_of (p ∷ []) = one_json p.body p.cache_control
parts_json_of _ = err (external 0)

-- ASCII, as base64 is
abbrev letters : Bytes → Bytes
letters b = map (λ c. b'A') b

abbrev small_json : Marshal
small_json = record {
  text_json = λ t. ok (b's' ∷ to_valid t);
  parts_json = parts_json_of;
  base64 = letters;
}

abbrev read_tagged : ℕ → Bytes → Option Read
read_tagged c t =
    if c == b's'
    then some (plain t)
    else if c == b'i'
    then some (parts (image_url t ∷ []))
    else if c == b't'
    then some (parts (text t ∷ []))
    else some (plain [])

abbrev small_read : Bytes → Option Read
small_read [] = none
small_read (c ∷ t) = read_tagged c t

json_of : Result Bytes → Bytes
json_of (ok b) = b
json_of _ = []

one_back :
    (p : PartBody) (c : Option (Option Bytes)) (b : Bytes)
    → one_json p c ≡ ok b
    → small_read b ≡ some (parts (valid_body p ∷ []))
unfolding json_of
one_back (image_url u) none b h = sym (ap (λ (r : Result Bytes). small_read (json_of r)) h)
one_back (image_url u) (some c) b h = absurd (cc h)
one_back (text t) none b h = absurd (cc h)
one_back (text t) (some none) b h = sym (ap (λ (r : Result Bytes). small_read (json_of r)) h)
one_back (text t) (some (some c)) b h = absurd (cc h)
one_back (input_audio d f) none b h = absurd (cc h)
one_back (input_audio d f) (some c) b h = absurd (cc h)

many_back :
    (ps : List ContentPart) (b : Bytes)
    → parts_json_of ps ≡ ok b
    → small_read b ≡ some (parts (map (λ p. valid_body p.body) ps))
many_back [] b h = absurd (cc h)
many_back (p ∷ []) b h = one_back p.body p.cache_control b h
many_back (p ∷ q ∷ ps) b h = absurd (cc h)

letters_from :
    (i : ℕ) (b : Bytes) → encode (map (λ p. p.1) (range_from i 0 (letters b))) ≡ letters b
unfolding range_from decode_rune decode_tail encode_rune
letters_from i [] = refl
letters_from i (c ∷ b) = ap (λ t. b'A' ∷ t) (letters_from (suc i) b)

small-Reads : Reads small_json small_read
unfolding json_of
small-Reads = record {
  text_back = λ t b h. sym (ap (λ (r : Result Bytes). small_read (json_of r)) h);
  parts_back = many_back;
  empty_back = refl;
  base64_valid = letters_from 0;
}

-- a text with a byte that is not UTF-8
abbrev pictured : List Message
pictured =
    message user (b'h' ∷ 0xFF ∷ [])
    ∷ record (message user []) {
      images = record { url = codes "u"; content_type = []; data_bytes = [] } ∷ [];
    }
    ∷ record (message tool (codes "done")) { tool_call_id = codes "c1" }
    ∷ []

abbrev sent_messages : List ApiMessage
sent_messages =
    record {
      role = codes "user";
      content = b's' ∷ b'h' ∷ 0xEF ∷ 0xBF ∷ 0xBD ∷ [];
      tool_calls = [];
      tool_call_id = [];
    }
    ∷ record { role = codes "user"; content = codes "iu"; tool_calls = []; tool_call_id = [] }
    ∷ record {
      role = codes "tool";
      content = codes "sdone";
      tool_calls = [];
      tool_call_id = codes "c1";
    }
    ∷ []

build_api_messages-Sent_example : Sent small_json small_read pictured sent_messages
unfolding build_api_messages range_from decode_rune decode_tail encode_rune lead
build_api_messages-Sent_example =
    build_api_messages-Sent small_json small_read small-Reads pictured sent_messages refl

-- a header of one digit, and no dates
abbrev digit_of : Bytes → Option ℤ
digit_of [] = none
digit_of (c ∷ s) = some (pos (c - b'0'))

abbrev header : Header
header = record {
  trim_space = λ s. s;
  atoi = digit_of;
  itoa = λ n. n ∷ [];
  until_date = λ s. none;
  envelope_message = λ s. none;
}

abbrev refused : ℕ → Response
refused n = record { status = n; body = codes "no"; retry_after_header = codes "7" }

-- a 429 at the first call, and no error then
abbrev once_refused : ℕ → ℕ → Option Error × ℕ
once_refused attempt w =
    if attempt == 1 then (some (classify_http_error header (refused 429)), suc w) else (none, suc w)

retry_after_sleep_example :
    let next =
      attempt_from whole
        (retry_policy 2 0 (pos 2))
        calm
        once_refused
        1
        2
        (some (classify_http_error header (refused 429)))
        1 in
    attempt_from whole (retry_policy 2 0 (pos 2)) calm once_refused 2 1 none 0 ≡ record {
      error = next.error;
      world = next.world;
      calls = (1, some (classify_http_error header (refused 429))) ∷ next.calls;
      sleeps = pos (min (7 * second) (30 * second)) ∷ next.sleeps;
    }
retry_after_sleep_example =
    retry_after_sleep whole 2 0 (pos 2) calm once_refused header (refused 429) 0 1 7 none 0 1 refl
      refl refl (omega arith) (omega arith) refl refl refl

client_error_ends_example :
    retry_do whole
      (retry_policy 2 0 (pos 0))
      calm
      (λ n w. (some (classify_http_error header (refused 404)), suc w))
      0
    ≡ record {
      error = some (classify_http_error header (refused 404));
      world = 1;
      calls = (1, some (classify_http_error header (refused 404))) ∷ [];
      sleeps = [];
    }
client_error_ends_example =
    client_error_ends whole 2 0 (pos 0) calm
      (λ n w. (some (classify_http_error header (refused 404)), suc w)) header (refused 404) 0 1
      refl refl refl
