-- ===== src/Openrouter/Content.antt =====
-- llm/openrouter/sse.go: what a delta's content, an image and an error envelope are read as.
use aikido.Prelude.{
  ℕ, ◌-◌, Bool, ◌&&◌, ◌||◌, Option, none, some, List, [], ◌∷◌, ◌++◌, map, Bytes, codes, length,
  is_empty, take, drop, leb, ◌==◌, text_eq, lower, has_prefix, contains, any, if◌then◌else◌,
}
use aikido.Llm.Types.{ImagePart}
use aikido.Openrouter.Wire.{Codec, ApiImagePart, ApiContentPart, ApiError}

-- `strings.TrimRight` and `strings.TrimLeft`, by a test of a byte
unfoldable pub trim_right : (ℕ → Bool) → Bytes → Bytes
trim_right test [] = []
trim_right test (c ∷ s) =
    let rest = trim_right test s in if is_empty rest && test c then [] else c ∷ rest

unfoldable pub trim_left : (ℕ → Bool) → Bytes → Bytes
trim_left test [] = []
trim_left test (c ∷ s) = let rest = trim_left test s in if test c then rest else c ∷ s

abbrev pub is_space : ℕ → Bool
is_space c = c == b' ' || (leb 9 c && leb c 13)

-- `strings.TrimSpace` and `bytes.TrimSpace`, on ASCII
unfoldable pub trim_space : Bytes → Bytes
unfolding trim_left trim_right
trim_space s = trim_right is_space (trim_left is_space s)

-- the text in front of the first such byte and the text behind it
unfoldable pub cut_at : ℕ → Bytes → Option (Bytes × Bytes)
cut_at b [] = none
cut_at b (c ∷ s) =
    let rest = cut_at b s in
    if c == b then some ([], s) else elim rest [ none ↦ none | some (u, v) ↦ some (c ∷ u, v) ]

unfoldable pub has_suffix : Bytes → Bytes → Bool
unfolding text_eq
has_suffix suffix s =
    leb (length suffix) (length s) && text_eq (drop (length s - length suffix) s) suffix

abbrev pub base64_suffix : Bytes
base64_suffix = codes ";base64"

-- an ImagePart with the given fields
abbrev pub image_part : Bytes → Bytes → Bytes → ImagePart
image_part url content_type data_bytes = record {
  url = url;
  content_type = content_type;
  data_bytes = data_bytes;
}

module _ (w : Codec) where
  abbrev pub decoded_part : Bytes → Bytes → Option ImagePart
  decoded_part meta payload = elim (w.base64 payload) [
    | none ↦ none
    | some bytes ↦ some (image_part [] (take (length meta - length base64_suffix) meta) bytes)
  ]

  unfoldable pub decode_data_uri : Bytes → Option ImagePart
  unfolding has_prefix cut_at has_suffix
  decode_data_uri uri =
      if has_prefix (codes "data:") uri
      then elim (cut_at b',' (drop (length (codes "data:")) uri)) [
        | none ↦ none
        | some (meta, payload) ↦
            if has_suffix base64_suffix meta
            then decoded_part meta payload
            else some (image_part uri meta [])
      ]
      else none

  unfoldable pub decode_image_url : Bytes → Option ImagePart
  unfolding decode_data_uri
  decode_image_url url =
      if is_empty url
      then none
      else if has_prefix (codes "data:") url
      then decode_data_uri url
      else some (image_part url [] [])

  unfoldable pub decode_api_image_part : ApiImagePart → Option ImagePart
  unfolding decode_image_url
  decode_api_image_part p = elim p.image_url [ none ↦ none | some url ↦ decode_image_url url ]

  abbrev pub with_image : Option ImagePart → Bytes × List ImagePart → Bytes × List ImagePart
  with_image none (t, images) = (t, images)
  with_image (some i) (t, images) = (t, i ∷ images)

  -- the loop over the typed parts
  unfoldable pub decode_parts : List ApiContentPart → Bytes × List ImagePart
  unfolding decode_image_url text_eq
  decode_parts [] = ([], [])
  decode_parts (p ∷ parts) =
      let rest = decode_parts parts in
      if text_eq p.kind (codes "text")
      then (p.text ++ rest.0, rest.1)
      else if text_eq p.kind (codes "image_url")
      then with_image (elim p.image_url [ none ↦ none | some url ↦ decode_image_url url ]) rest
      else rest

  abbrev pub text_content : Bytes → Bytes × List ImagePart
  text_content s =
      if has_prefix (codes "data:image/") s
      then elim (decode_data_uri s) [ none ↦ (s, []) | some i ↦ ([], i ∷ []) ]
      else (s, [])

  unfoldable pub decode_delta_content : Bytes → Bytes × List ImagePart
  unfolding decode_parts trim_space
  decode_delta_content raw =
      if is_empty raw || text_eq (trim_space raw) (codes "null")
      then ([], [])
      else elim (w.as_string raw) [
        | some s ↦ text_content s
        | none ↦ elim (w.as_parts raw) [ some parts ↦ decode_parts parts | none ↦ ([], []) ]
      ]

  unfoldable pub decode_error_code_as_string : Bytes → Bytes
  decode_error_code_as_string raw =
      if is_empty raw then [] else elim (w.as_string raw) [ some s ↦ s | none ↦ [] ]

  -- `isContentFilterErrorEnvelope`, with `strings.ToLower` on ASCII
  unfoldable pub is_content_filter_error_envelope : ApiError → Bool
  unfolding decode_error_code_as_string contains
  is_content_filter_error_envelope e =
      let code = map lower (decode_error_code_as_string e.code) in
      let msg = map lower e.message in
      any (text_eq code)
        (codes "content_filter" ∷ codes "content_policy_violation" ∷ codes "safety" ∷ [])
      || any (λ t. contains t msg)
          (codes "content filter"
            ∷ codes "content policy"
            ∷ codes "safety policy"
            ∷ codes "safety filter"
            ∷ [])
