-- ===== src/Openrouter/Request/Shape.antt =====
-- What the receiver of a request of llm/openrouter/api_types.go can read from it.
use mathlib.Core.Path.{subst}
use aikido.Prelude.{
  true, false, not, ◌&&◌, Option, none, some, List, [], ◌∷◌, ◌++◌, map, append-nil, ◌≡◌, refl, sym,
  ap, ◌∙◌, arith, Bytes, codes, is_empty, if_cases, if◌then◌else◌,
}
use aikido.Prelude.Runes.{encode, runes, range_from}
use aikido.Errors.{Result, ok, err, panic, ◌>>=◌}
use aikido.Llm.Types.{Message, ImagePart, AudioPart, ToolCall}
use aikido.Openrouter.Request.{
  ApiToolCall, ApiMessage, PartBody, text, image_url, input_audio, ContentPart, Marshal, role_name,
  is_tool, part, mark_last, or_stub, ttl_of, with_breakpoint, api_call, bodies, build_content_parts,
  needs_array, api_content, api_message, build_api_messages,
}

-- what encoding/json makes of a string: each byte that is not UTF-8 becomes U+FFFD
abbrev pub to_valid : Bytes → Bytes
to_valid s = encode (runes s)

abbrev pub valid_body : PartBody → PartBody
valid_body (text t) = text (to_valid t)
valid_body (image_url u) = image_url (to_valid u)
valid_body (input_audio d f) = input_audio (to_valid d) (to_valid f)

-- a JSON value in the place of a message's content
pub data Read : Type 0 where
  plain : Bytes → Read
  parts : List PartBody → Read

-- A reader of JSON, which gives back what `json.Marshal` wrote; of the parts it reads the bodies.
-- What base64 gives is ASCII.
pub record Reads (j : Marshal) (read : Bytes → Option Read) : Type 0 where
  pub text_back : (t b : Bytes) → j.text_json t ≡ ok b → read b ≡ some (plain (to_valid t))
  pub parts_back :
      (ps : List ContentPart) (b : Bytes)
      → j.parts_json ps ≡ ok b
      → read b ≡ some (parts (map (λ p. valid_body p.body) ps))
  pub empty_back : read (codes "\"\"") ≡ some (plain [])
  pub base64_valid : (b : Bytes) → to_valid (j.base64 b) ≡ j.base64 b

-- the text, the image URLs and the audio clips (data and format) that a content has
pub record View : Type 0 where
  pub content : Bytes
  pub urls : List Bytes
  pub clips : List (Bytes × Bytes)

abbrev pub add_body : PartBody → View → View
add_body (text t) v = record v { content = t ++ v.content }
add_body (image_url u) v = record v { urls = u ∷ v.urls }
add_body (input_audio d f) v = record v { clips = (d, f) ∷ v.clips }

abbrev pub no_view : View
no_view = record { content = []; urls = []; clips = [] }

abbrev pub bodies_view : List PartBody → View
bodies_view [] = no_view
bodies_view (b ∷ bs) = add_body b (bodies_view bs)

abbrev pub read_view : Read → View
read_view (plain t) = record no_view { content = t }
read_view (parts bs) = bodies_view bs

-- the same of a message, as it can be read back
abbrev pub view_of : Marshal → Message → View
view_of j m = record {
  content = to_valid m.content;
  urls = map (λ i. to_valid i.url) m.images;
  clips = map (λ a. (j.base64 a.data_bytes, to_valid a.format)) m.audio;
}

mark_last-bodies :
    (ttl : Option Bytes) (ps : List ContentPart)
    → map (λ p. p.body) (mark_last ttl ps) ≡ map (λ p. p.body) ps
unfolding mark_last
mark_last-bodies ttl [] = refl
mark_last-bodies ttl (p ∷ []) = refl
mark_last-bodies ttl (p ∷ q ∷ ps) = ap (λ bs. p.body ∷ bs) (mark_last-bodies ttl (q ∷ ps))

marked-bodies :
    (cache : Option Bytes) (ps : List ContentPart)
    → map (λ p. p.body) (with_breakpoint cache ps) ≡ map (λ p. p.body) ps
marked-bodies none ps = refl
marked-bodies (some ttl) ps = mark_last-bodies (ttl_of ttl) ps

stub-view :
    (bs : List PartBody)
    → bodies_view (map (λ p. valid_body p.body) (or_stub (map part bs)))
      ≡ bodies_view (map valid_body bs)
unfolding range_from
stub-view [] = refl
stub-view (b ∷ bs) = ap (λ l. bodies_view (valid_body b ∷ l)) (valid_parts bs)
  where
    valid_parts :
        (bs : List PartBody) → map (λ p. valid_body p.body) (map part bs) ≡ map valid_body bs
    valid_parts [] = refl
    valid_parts (b ∷ bs) = ap (λ l. valid_body b ∷ l) (valid_parts bs)

map-append : {A B : Type 0} (f : A → B) (xs ys : List A) → map f (xs ++ ys) ≡ map f xs ++ map f ys
map-append f [] ys = refl
map-append f (x ∷ xs) ys = ap (λ l. f x ∷ l) (map-append f xs ys)

map-map :
    {A B C : Type 0} (g : B → C) (f : A → B) (xs : List A)
    → map g (map f xs) ≡ map (λ x. g (f x)) xs
map-map g f [] = refl
map-map g f (x ∷ xs) = ap (λ l. g (f x) ∷ l) (map-map g f xs)

images-view :
    (is : List ImagePart) (bs : List PartBody)
    → bodies_view (map valid_body (map (λ i. image_url i.url) is ++ bs))
      ≡ record (bodies_view (map valid_body bs)) {
        urls = map (λ i. to_valid i.url) is ++ (bodies_view (map valid_body bs)).urls;
      }
images-view [] bs = refl
images-view (i ∷ is) bs = ap (add_body (image_url (to_valid i.url))) (images-view is bs)

text-view :
    (t : Bytes) (bs : List PartBody)
    → bodies_view (map valid_body ((if is_empty t then [] else text t ∷ []) ++ bs))
      ≡ record (bodies_view (map valid_body bs)) {
        content = to_valid t ++ (bodies_view (map valid_body bs)).content;
      }
unfolding range_from
text-view [] bs = refl
text-view (c ∷ t) bs = refl

module _ (j : Marshal) (base64_valid : (b : Bytes) → to_valid (j.base64 b) ≡ j.base64 b) where
  audio-view :
      (l : List AudioPart)
      → bodies_view (map valid_body (map (λ a. input_audio (j.base64 a.data_bytes) a.format) l))
        ≡ record no_view { clips = map (λ a. (j.base64 a.data_bytes, to_valid a.format)) l }
  audio-view [] = refl
  audio-view (a ∷ l) =
      ap (add_body (input_audio (to_valid (j.base64 a.data_bytes)) (to_valid a.format)))
        (audio-view l)
      ∙ ap (λ d. add_body (input_audio d (to_valid a.format)) (all_clips l))
          (base64_valid a.data_bytes)
    where
      all_clips : List AudioPart → View
      all_clips l = record no_view {
        clips = map (λ a. (j.base64 a.data_bytes, to_valid a.format)) l;
      }

  bodies-view : (m : Message) → bodies_view (map valid_body (bodies j m)) ≡ view_of j m
  bodies-view m =
      text-view m.content _
      ∙ ap (λ (v : View). record v { content = to_valid m.content ++ v.content })
          (images-view m.images _
            ∙ ap (λ (v : View). record v { urls = map (λ i. to_valid i.url) m.images ++ v.urls })
                (audio-view m.audio))
      ∙ ap
          (λ (c : Bytes). record (view_of j m) {
            content = c;
            urls = map (λ i. to_valid i.url) m.images ++ [];
          })
          (append-nil (to_valid m.content))
      ∙ ap (λ (u : List Bytes). record (view_of j m) { urls = u })
          (append-nil (map (λ i. to_valid i.url) m.images))

  parts-view :
      (m : Message)
      → bodies_view (map (λ p. valid_body p.body) (build_content_parts j m)) ≡ view_of j m
  unfolding build_content_parts
  parts-view m =
      ap bodies_view (
        sym (map-map valid_body (λ (p : ContentPart). p.body) (build_content_parts j m))
        ∙ ap (map valid_body) (marked-bodies m.cache (or_stub (map part (bodies j m))))
        ∙ map-map valid_body (λ (p : ContentPart). p.body) (or_stub (map part (bodies j m))))
      ∙ stub-view (bodies j m)
      ∙ bodies-view m

unfoldable pub wire_call : ApiToolCall → ToolCall
wire_call c = record { id = c.id; name = c.name; arguments = c.arguments }

calls-back : (l : List ToolCall) → map wire_call (map api_call l) ≡ l
unfolding wire_call
calls-back [] = refl
calls-back (c ∷ l) = ap (λ t. c ∷ t) (calls-back l)

-- each message went out as the one at its place
pub data Sent (j : Marshal) (read : Bytes → Option Read)
    : List Message → List ApiMessage → Type 0 where
  all_sent : Sent j read [] []
  sent :
      {m : Message} {a : ApiMessage} {ms : List Message} {out : List ApiMessage} {v : Read}
      → a.role ≡ role_name m.role
      → map wire_call a.tool_calls ≡ m.tool_calls
      → a.tool_call_id ≡ (if is_tool m.role then m.tool_call_id else [])
      → read a.content ≡ some v
      → read_view v ≡ view_of j m
      → Sent j read ms out
      → Sent j read (m ∷ ms) (a ∷ out)

empty_nil : {A : Type 0} (l : List A) → is_empty l ≡ true → l ≡ []
empty_nil [] h = refl
empty_nil (x ∷ l) h = absurd (cc h)

plain-view :
    (j : Marshal) (m : Message)
    → needs_array j m ≡ false
    → read_view (plain (to_valid m.content)) ≡ view_of j m
plain-view j m h =
    let no_images : m.images ≡ [] = empty_nil m.images (ground arith) in
    let no_audio : m.audio ≡ [] = empty_nil m.audio (ground arith) in rw (no_images, no_audio) refl

result_or : Bytes → Result Bytes → Bytes
result_or d (ok b) = b
result_or d _ = d

built : Result (List ApiMessage) → List ApiMessage
built (ok l) = l
built _ = []

both_built :
    (j : Marshal) (m : Message) (c : Result Bytes) (rest : Result (List ApiMessage))
    (out : List ApiMessage)
    → (c >>= λ content. rest >>= λ o. ok (api_message j m content ∷ o)) ≡ ok out
    → (b : Bytes) × (o : List ApiMessage) × (c ≡ ok b)
      × (rest ≡ ok o)
      × (api_message j m b ∷ o ≡ out)
unfolding built
both_built j m (ok b) (ok o) out h = (b, o, refl, refl, ap built h)
both_built j m (ok b) (err e) out h = absurd (cc h)
both_built j m (ok b) panic out h = absurd (cc h)
both_built j m (err e) rest out h = absurd (cc h)
both_built j m panic rest out h = absurd (cc h)

module _ (j : Marshal) (read : Bytes → Option Read) (w : Reads j read) where
  abbrev Readable : Message → Bytes → Type 0
  Readable m b = (v : Read) × (read b ≡ some v) × (read_view v ≡ view_of j m)

  api_content-view : (m : Message) (b : Bytes) → api_content j m ≡ ok b → Readable m b
  unfolding api_content result_or range_from
  api_content-view m b =
      if_cases (λ (r : Result Bytes). r ≡ ok b → Readable m b) (needs_array j m)
        (λ e h. (
          parts (map (λ p. valid_body p.body) (build_content_parts j m)),
          w.parts_back (build_content_parts j m) b h,
          parts-view j w.base64_valid m,
        ))
        (λ e.
          if_cases (λ (r : Result Bytes). r ≡ ok b → Readable m b)
            (is_empty m.content && not (is_empty m.tool_calls))
            (λ k h.
              let none_written : m.content ≡ [] = empty_nil m.content (ground arith) in
              (
                plain [],
                sym (ap (λ (r : Result Bytes). read (result_or [] r)) h) ∙ w.empty_back,
                ap (λ (t : Bytes). read_view (plain (to_valid t))) (sym none_written)
                    ∙ plain-view j m e,
              ))
            (λ k h. (plain (to_valid m.content), w.text_back m.content b h, plain-view j m e)))

  -- Where a reader gives back what json.Marshal wrote, with U+FFFD for each byte that is not UTF-8,
  -- the messages that `buildAPIMessages` makes are the given ones, one by one and in order: the role,
  -- the tool calls with their ids, names and arguments, the id of the call that a tool message
  -- answers, and a content in which the text, the URLs of the images and the audio clips can be read,
  -- up to those bytes, whichever of the three shapes it has.
  pub build_api_messages-Sent :
      (ms : List Message) (out : List ApiMessage)
      → build_api_messages j ms ≡ ok out
      → Sent j read ms out
  unfolding build_api_messages api_message built
  build_api_messages-Sent [] out h = subst (Sent j read []) (ap built h) all_sent
  build_api_messages-Sent (m ∷ ms) out h =
      let (b, o, first, rest, e) =
        both_built j m (api_content j m) (build_api_messages j ms) out h in
      let (v, back, same) = api_content-view m b first in
      subst (Sent j read (m ∷ ms)) e
        (sent refl (calls-back m.tool_calls) refl back same (build_api_messages-Sent ms o rest))
