-- ===== src/Vfs/Memory/Search.antt =====
-- What `Search` of vfs/memory/storage.go finds.
use aikido.Prelude.{
  Bool, true, false, ◌||◌, Option, none, some, List, [], ◌∷◌, ◌≡◌, refl, ◌∙◌, any, arith, Bytes,
  is_empty, contains, text_eq, text_eq_iff, All, Bool-cases, inl, inr,
}
use aikido.Prelude.Assoc.{Assoc, lookup}
use aikido.Prelude.Sort.{sort_by, IsSorted, sort_by-IsSorted, any-sort_by}
use aikido.Errors.{ok}
use aikido.Vfs.Memory.{FileEntry, Files, hits, to_lower, search_files}
use aikido.Vfs.Memory.Listing.{IsMap, hits-Distinct}

-- the stored content contains the query, or the query is empty
abbrev pub found_in : Bytes → Option FileEntry → Bool
found_in q none = false
found_in q (some e) = is_empty q || contains q (to_lower e.content)

abbrev pub names : Bytes → List Bytes → Bool
names p = any (λ f. text_eq f p)

names_none :
    (q p r : Bytes) (fs : Assoc FileEntry)
    → text_eq r p ≡ true
    → All (λ (x : Bytes × FileEntry). text_eq r x.0 ≡ false) fs
    → names p (hits q fs) ≡ false
unfolding hits
names_none q p r [] e h = refl
names_none q p r ((k, f) ∷ fs) e (h, a) =
    let apart : text_eq k p ≡ false =
      ground (arith, e, h, text_eq_iff r p, text_eq_iff r k, text_eq_iff k p) in
    ground (arith, apart, names_none q p r fs e a)

names-hits :
    (q p : Bytes) (fs : Assoc FileEntry) → IsMap fs → names p (hits q fs) ≡ found_in q (lookup p fs)
unfolding hits lookup
names-hits q p [] d = refl
names-hits q p ((k, f) ∷ fs) (h, d) = elim (Bool-cases (text_eq k p)) [
  | inl e ↦ ground (arith, e, names_none q p k fs e h)
  | inr e ↦ ground (arith, e, names-hits q p fs d)
]

-- With a live context, `Search` gives a list that is strictly ascending and that holds exactly the
-- stored paths whose content contains the query, without regard to case.
pub search_files_lem :
    (query : Bytes) (s : Files)
    → IsMap s.files
    → (ps : List Bytes) × (search_files none query s ≡ ok ps)
      × IsSorted (λ (p : Bytes). p) ps
      × ((p : Bytes) → names p ps ≡ found_in (to_lower query) (lookup p s.files))
unfolding search_files
search_files_lem query s d =
    let found = hits (to_lower query) s.files in
    (
      sort_by (λ (p : Bytes). p) found,
      refl,
      sort_by-IsSorted (λ (p : Bytes). p) found (hits-Distinct (to_lower query) s.files d),
      λ p.
          any-sort_by (λ (p : Bytes). p) (λ f. text_eq f p) found
          ∙ names-hits (to_lower query) p s.files d,
    )
