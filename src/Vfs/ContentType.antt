-- ===== src/Vfs/ContentType.antt =====
-- vfs/contenttype.go: `ContentTypeFor`, with `path.Ext` and `strings.ToLower` over ASCII bytes.
use aikido.Prelude.{
  Bool, List, [], ◌∷◌, map, Bytes, codes, text_eq, ◌==◌, lower, if◌then◌else◌, ◌≡◌, refl, any,
}

-- the text from the last dot of the last part; `best` is the last one seen so far
unfoldable pub ext_from : Bytes → Bytes → Bytes
ext_from best [] = best
ext_from best (c ∷ s) = ext_from (if c == b'/' then [] else if c == b'.' then c ∷ s else best) s

-- `path.Ext`
unfoldable pub ext : Bytes → Bytes
unfolding ext_from
ext path = ext_from [] path

abbrev pub is_one_of : List Bytes → Bytes → Bool
is_one_of names e = any (λ n. text_eq e n) names

-- Empty for an unknown extension.
unfoldable pub content_type_for : Bytes → Bytes
unfolding ext lower
content_type_for p =
    let e = map lower (ext p) in
    if is_one_of (codes ".md" ∷ codes ".markdown" ∷ []) e
    then codes "text/markdown"
    else if text_eq e (codes ".txt")
    then codes "text/plain"
    else if text_eq e (codes ".json")
    then codes "application/json"
    else if is_one_of (codes ".yaml" ∷ codes ".yml" ∷ []) e
    then codes "application/yaml"
    else if is_one_of (codes ".html" ∷ codes ".htm" ∷ []) e
    then codes "text/html"
    else if text_eq e (codes ".csv")
    then codes "text/csv"
    else []

readme : content_type_for (codes "a.b/README.MD") ≡ codes "text/markdown"
unfolding content_type_for text_eq
readme = refl

no_extension : content_type_for (codes "a.md/README") ≡ []
unfolding content_type_for text_eq
no_extension = refl
