-- ===== src/Openrouter/Request/Breakpoint.antt =====
-- Where `buildContentParts` of llm/openrouter/api_types.go puts the cache breakpoint.
use aikido.Prelude.{Option, none, some, List, [], ◌∷◌, ◌++◌, map, ◌≡◌, refl, ap, Bytes, All}
use aikido.Llm.Types.{Message}
use aikido.Openrouter.Request.{
  PartBody, ContentPart, Marshal, part, mark_last, or_stub, ttl_of, with_breakpoint, bodies,
  build_content_parts,
}

abbrev pub Unmarked : ContentPart → Type 0
Unmarked p = p.cache_control ≡ none

-- the last part has the breakpoint, and no other
pub record EndsMarked (ttl : Option Bytes) (ps : List ContentPart) : Type 0 where
  pub front : List ContentPart
  pub last : ContentPart
  pub split : ps ≡ front ++ last ∷ []
  pub marked : last.cache_control ≡ some ttl
  pub others : All Unmarked front

part-Unmarked : (bs : List PartBody) → All Unmarked (map part bs)
part-Unmarked [] = tt
part-Unmarked (b ∷ bs) = (refl, part-Unmarked bs)

mark_last-EndsMarked :
    (ttl : Option Bytes) (p : ContentPart) (ps : List ContentPart)
    → All Unmarked (p ∷ ps)
    → EndsMarked ttl (mark_last ttl (p ∷ ps))
unfolding mark_last
mark_last-EndsMarked ttl p [] a = record {
  front = [];
  last = record p { cache_control = some ttl };
  split = refl;
  marked = refl;
  others = tt;
}
mark_last-EndsMarked ttl p (q ∷ ps) (h, a) =
    let r = mark_last-EndsMarked ttl q ps a in
    record {
      front = p ∷ r.front;
      last = r.last;
      split = ap (λ l. p ∷ l) r.split;
      marked = r.marked;
      others = (h, r.others);
    }

stub-EndsMarked :
    (ttl : Bytes) (bs : List PartBody)
    → EndsMarked (ttl_of ttl) (with_breakpoint (some ttl) (or_stub (map part bs)))
stub-EndsMarked ttl [] = mark_last-EndsMarked (ttl_of ttl) _ [] (refl, tt)
stub-EndsMarked ttl (b ∷ bs) =
    mark_last-EndsMarked (ttl_of ttl) (part b) (map part bs) (refl, part-Unmarked bs)

-- The parts of a message with a cache breakpoint have it on the last one and on no other, with the
-- lifetime of one hour only where the message asks for it; a message without text, images and audio
-- has one part to bear it.
pub build_content_parts-EndsMarked :
    (j : Marshal) (m : Message) (ttl : Bytes)
    → m.cache ≡ some ttl
    → EndsMarked (ttl_of ttl) (build_content_parts j m)
unfolding build_content_parts
build_content_parts-EndsMarked j m ttl h = rw h (stub-EndsMarked ttl (bodies j m))
