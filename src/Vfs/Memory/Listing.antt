-- ===== src/Vfs/Memory/Listing.antt =====
-- `ListFiles` and `Search` do not show the order in which Go walks the map.
use mathlib.Core.List.{Permᴰ}
use mathlib.Core.List.Permᴰ
use mathlib.Core.Path.{subst}
use aikido.Prelude.{
  Bool, true, false, ◌||◌, Option, none, some, List, [], ◌∷◌, ◌≡◌, refl, ap, ◌∙◌, any, arith, Bytes,
  is_empty, contains, text_eq, text_eq_iff, All, Bool-cases, inl, inr,
}
use aikido.Prelude.Assoc.{Assoc, lookup, insert, remove}
use aikido.Prelude.Sort.{
  sort_by, Distinct, Differs, IsSorted, sort_by-perm, sort_by-IsSorted, any-sort_by,
}
use aikido.Errors.{Ctx, ok}
use aikido.Vfs.Storage.{FileMeta}
use aikido.Vfs.Memory.{
  FileEntry, Files, meta_of, metas, hits, to_lower, list_files, search_files, write_file,
  delete_file,
}

-- a Go map holds a key once
abbrev pub IsMap : Assoc FileEntry → Type 0
IsMap = Distinct (λ (e : Bytes × FileEntry). e.0)

abbrev pub path_of : FileMeta → Bytes
path_of m = m.path

metas-perm : {fs gs : Assoc FileEntry} → Permᴰ fs gs → Permᴰ (metas fs) (metas gs)
unfolding metas
metas-perm Permᴰ.nil = Permᴰ.nil
metas-perm (Permᴰ.cons e p) =
    Permᴰ.cons (ap (λ (x : Bytes × FileEntry). meta_of x.0 x.1) e) (metas-perm p)
metas-perm (Permᴰ.swap e f) =
    Permᴰ.swap (ap (λ (x : Bytes × FileEntry). meta_of x.0 x.1) e)
      (ap (λ (x : Bytes × FileEntry). meta_of x.0 x.1) f)
metas-perm (Permᴰ.trans p q) = Permᴰ.trans (metas-perm p) (metas-perm q)

metas-Distinct : (fs : Assoc FileEntry) → IsMap fs → Distinct path_of (metas fs)
unfolding metas
metas-Distinct [] d = tt
metas-Distinct ((p, e) ∷ fs) (h, d) = (away fs h, metas-Distinct fs d)
  where
    away :
        (fs : Assoc FileEntry)
        → All (λ (x : Bytes × FileEntry). text_eq p x.0 ≡ false) fs
        → All (Differs path_of (meta_of p e)) (metas fs)
    away [] h = tt
    away (x ∷ fs) h = (h.0, away fs h.1)

-- `ListFiles` gives the same list whatever order the map is walked in.
pub list_files-perm :
    (ctx : Ctx) (s t : Files)
    → IsMap s.files
    → Permᴰ s.files t.files
    → list_files ctx s ≡ list_files ctx t
unfolding list_files
list_files-perm none s t d p =
    ap ok (sort_by-perm path_of (metas-perm p) (metas-Distinct s.files d))
list_files-perm (some e) s t d p = refl

abbrev pub is_some {ℓ} : {A : Type ℓ} → Option A → Bool
is_some none = false
is_some (some a) = true

abbrev pub lists : Bytes → List FileMeta → Bool
lists p = any (λ m. text_eq m.path p)

lists-metas : (p : Bytes) (fs : Assoc FileEntry) → lists p (metas fs) ≡ is_some (lookup p fs)
unfolding metas lookup
lists-metas p [] = refl
lists-metas p ((q, e) ∷ fs) = ground (arith, lists-metas p fs)

-- With a live context, `ListFiles` gives a list that is strictly ascending by path and that holds
-- exactly the paths stored in the map.
pub list_files_lem :
    (s : Files)
    → IsMap s.files
    → (l : List FileMeta) × (list_files none s ≡ ok l)
      × IsSorted path_of l
      × ((p : Bytes) → lists p l ≡ is_some (lookup p s.files))
unfolding list_files
list_files_lem s d = (
  sort_by path_of (metas s.files),
  refl,
  sort_by-IsSorted path_of (metas s.files) (metas-Distinct s.files d),
  λ p. any-sort_by path_of (λ m. text_eq m.path p) (metas s.files) ∙ lists-metas p s.files,
)

-- the test that `Search` makes of one file
abbrev pub matches : Bytes → Bytes × FileEntry → Bool
matches q (p, e) = is_empty q || contains q (to_lower e.content)

hits-perm : (q : Bytes) {fs gs : Assoc FileEntry} → Permᴰ fs gs → Permᴰ (hits q fs) (hits q gs)
unfolding hits
hits-perm q Permᴰ.nil = Permᴰ.nil
hits-perm q (Permᴰ.cons {a} {b} {l₁} {l₂} e p) =
    subst (λ (y : Bytes × FileEntry). Permᴰ (hits q (a ∷ l₁)) (hits q (y ∷ l₂))) e
      (elim (Bool-cases (matches q a)) [
        | inl h ↦ rw h (Permᴰ.cons refl (hits-perm q p))
        | inr h ↦ rw h (hits-perm q p)
      ])
hits-perm q (Permᴰ.swap {a} {b} {a' = a'} {b' = b'} {l = l} e f) =
    subst (λ (y : Bytes × FileEntry). Permᴰ (hits q (a ∷ b ∷ l)) (hits q (y ∷ b' ∷ l))) f
      (subst (λ (y : Bytes × FileEntry). Permᴰ (hits q (a ∷ b ∷ l)) (hits q (b ∷ y ∷ l))) e
        (elim (Bool-cases (matches q a)) [
          | inl h ↦ elim (Bool-cases (matches q b)) [
            | inl k ↦ rw (h, k) (Permᴰ.swap refl refl)
            | inr k ↦ rw (h, k) (Permᴰ.refl _)
          ]
          | inr h ↦ elim (Bool-cases (matches q b)) [
            | inl k ↦ rw (h, k) (Permᴰ.refl _)
            | inr k ↦ rw (h, k) (Permᴰ.refl _)
          ]
        ]))
hits-perm q (Permᴰ.trans p r) = Permᴰ.trans (hits-perm q p) (hits-perm q r)

pub hits-Distinct :
    (q : Bytes) (fs : Assoc FileEntry) → IsMap fs → Distinct (λ (p : Bytes). p) (hits q fs)
unfolding hits
hits-Distinct q [] d = tt
hits-Distinct q ((p, e) ∷ fs) (h, d) = elim (Bool-cases (matches q (p, e))) [
  | inl k ↦ rw k (away fs h, hits-Distinct q fs d)
  | inr k ↦ rw k (hits-Distinct q fs d)
]
  where
    away :
        (fs : Assoc FileEntry)
        → All (λ (x : Bytes × FileEntry). text_eq p x.0 ≡ false) fs
        → All (λ (r : Bytes). text_eq p r ≡ false) (hits q fs)
    away [] h = tt
    away (x ∷ fs) h = elim (Bool-cases (matches q x)) [
      | inl k ↦ rw k (h.0, away fs h.1)
      | inr k ↦ rw k (away fs h.1)
    ]

-- `Search` gives the same paths in the same order whatever order the map is walked in.
pub search_files-perm :
    (ctx : Ctx) (query : Bytes) (s t : Files)
    → IsMap s.files
    → Permᴰ s.files t.files
    → search_files ctx query s ≡ search_files ctx query t
unfolding search_files
search_files-perm none query s t d p = ap ok (
    sort_by-perm (λ (p : Bytes). p) (hits-perm (to_lower query) p)
      (hits-Distinct (to_lower query) s.files d))
search_files-perm (some e) query s t d p = refl

abbrev Away : Bytes → Assoc FileEntry → Type 0
Away k = All (λ (x : Bytes × FileEntry). text_eq k x.0 ≡ false)

insert-Away :
    (k p : Bytes) (e : FileEntry) (fs : Assoc FileEntry)
    → text_eq k p ≡ false
    → Away k fs
    → Away k (insert p e fs)
unfolding insert
insert-Away k p e [] h a = (h, tt)
insert-Away k p e ((q, f) ∷ fs) h a = ground (arith, insert-Away k p e fs h)

insert-IsMap : (p : Bytes) (e : FileEntry) (fs : Assoc FileEntry) → IsMap fs → IsMap (insert p e fs)
unfolding insert
insert-IsMap p e [] d = (tt, tt)
insert-IsMap p e ((q, f) ∷ fs) (h, d) = elim (Bool-cases (text_eq q p)) [
  | inl k ↦ rw k (subst (λ (r : Bytes). Away r fs) ((text_eq_iff q p).0 k) h, d)
  | inr k ↦ rw k (insert-Away q p e fs k h, insert-IsMap p e fs d)
]

remove-Away : (k p : Bytes) (fs : Assoc FileEntry) → Away k fs → Away k (remove p fs)
unfolding remove
remove-Away k p [] a = tt
remove-Away k p ((q, f) ∷ fs) a = ground (arith, remove-Away k p fs)

remove-IsMap : (p : Bytes) (fs : Assoc FileEntry) → IsMap fs → IsMap (remove p fs)
unfolding remove
remove-IsMap p [] d = tt
remove-IsMap p ((q, f) ∷ fs) (h, d) = elim (Bool-cases (text_eq q p)) [
  | inl k ↦ rw k (remove-IsMap p fs d)
  | inr k ↦ rw k (remove-Away q p fs h, remove-IsMap p fs d)
]

-- `WriteFile` and `DeleteFile` keep a map that holds each path once, whatever they answer.
pub files-IsMap :
    (ctx : Ctx) (p c t : Bytes) (s : Files)
    → IsMap s.files
    → IsMap (write_file ctx p c t s).1.files × IsMap (delete_file ctx p s).1.files
unfolding write_file delete_file
files-IsMap ctx p c t s d = ground (
  arith,
  insert-IsMap p (record { content = c; content_type = t; updated_at = s.now }) s.files d,
  remove-IsMap p s.files d,
)
