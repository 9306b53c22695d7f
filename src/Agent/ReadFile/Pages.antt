-- ===== src/Agent/ReadFile/Pages.antt =====
-- What a page holds, when the handler panics, and that the pages of a file are the file.
use Prim.Native.Nat.add
use aikido.Prelude.{
  ℕ, zero, suc, ◌+◌, ◌-◌, ◌≤◌, ◌<◌, true, false, ◌&&◌, ◌++◌, List, [], ◌∷◌, ◌≡◌, refl, ap, ◌∙◌, sym,
  arith, Bytes, length, take, drop, concat, ltb, leb, length-drop, concat-append, take-append-drop,
  Bool-cases, inl, inr, take_all, ltb→lt, le→leb, if_cases, if◌then◌else◌, ◌⊎◌, append-nil, ◌^◌,
}
use aikido.Prelude.Int.{pos, negsuc, add_int, or_default, int_limit}
use aikido.Errors.{Result, ok, panic, ◌>>=◌}
use aikido.Agent.Lines.{split_lines, split_lines_lem}
use aikido.Agent.ReadFile.{read_page, Page, slice, min_int, int_lt}

-- The page that starts at a line and has at most `limit` lines, with the wrap-around out of reach.
abbrev pub page : Bytes → ℕ → ℕ → Page
page content start limit = record {
  content = concat (take limit (drop start (split_lines content)));
  offset = start + 1;
  total_lines = length (split_lines content);
  truncated = ltb (start + limit) (length (split_lines content));
}

or_default_pos : (n d : ℕ) → 0 < n → or_default (pos n) d ≡ n
unfolding or_default
or_default_pos n d h = ground arith

add_int_small : (a b : ℕ) → a + b < int_limit → add_int a b ≡ pos (a + b)
unfolding add_int
add_int_small a b h = ground arith

slice_lem :
    (lines : List Bytes) (start limit : ℕ)
    → start ≤ length lines
    → slice lines start (min_int (pos (start + limit)) (length lines))
      ≡ ok (take limit (drop start lines))
slice_lem lines start limit h = elim (Bool-cases (ltb (start + limit) (length lines))) [
  | inl k ↦
      let e : start + limit - start ≡ limit = omega arith in
      let t : leb start (start + limit) ≡ true = le→leb start (start + limit) (omega arith) in
      rw k (rw t (rw e))
  | inr k ↦
      let t : leb start (length lines) ≡ true = le→leb start (length lines) h in
      let n : length (drop start lines) ≡ length lines - start = length-drop start lines in
      let all : take (length lines - start) (drop start lines) ≡ drop start lines =
        take_all (length lines - start) (drop start lines) (omega arith) in
      let all' : take limit (drop start lines) ≡ drop start lines =
        take_all limit (drop start lines) (ground (arith, n)) in
      rw k (rw t (ap ok (all ∙ sym all')))
]

int_lt-min : (n m : ℕ) → int_lt (min_int (pos n) m) m ≡ ltb n m
int_lt-min n m = ground arith

-- A page of at most `limit` lines from line `start + 1` on, if that line is there or is the first.
read_page_lem :
    (path content : Bytes) (start limit : ℕ)
    → 0 < limit
    → start + limit < int_limit
    → (start ≡ 0) ⊎ (start < length (split_lines content))
    → read_page path (pos (start + 1)) (pos limit) content ≡ ok (page content start limit)
unfolding read_page
read_page_lem path content start limit l small inside =
    let s : start + 1 - 1 ≡ start = omega arith in
    let pass : (ltb 1 (start + 1) && ltb (length (split_lines content)) (start + 1)) ≡ false =
      ground arith in
    rw (or_default_pos (start + 1) 1 (omega arith)) (
      rw (or_default_pos limit 2000 l) (
        rw pass (
          rw s (
            rw (add_int_small start limit small) (
              rw (slice_lem (split_lines content) start limit (ground arith))
                (rw (int_lt-min (start + limit) (length (split_lines content)))))))))

drop-add {ℓ} : {A : Type ℓ} (a b : ℕ) (xs : List A) → drop (a + b) xs ≡ drop b (drop a xs)
drop-add zero b xs = rw add.zero
drop-add (suc a) zero [] = rw add.suc
drop-add (suc a) (suc b) [] = rw add.suc
drop-add (suc a) b (x ∷ xs) = rw add.suc (drop-add a b xs)

drop_all {ℓ} : {A : Type ℓ} (n : ℕ) (xs : List A) → length xs ≤ n → drop n xs ≡ []
drop_all zero [] h = refl
drop_all zero (x ∷ xs) h = absurd (omega arith)
drop_all (suc n) [] h = refl
drop_all (suc n) (x ∷ xs) h = drop_all n xs (omega arith)

-- A reader that asks for page after page until one is not truncated.
unfoldable pub read_pages : ℕ → Bytes → Bytes → ℕ → ℕ → Result Bytes
read_pages zero path content start limit = panic
read_pages (suc fuel) path content start limit =
    read_page path (pos (start + 1)) (pos limit) content >>= λ p. elim p.truncated [
      | true ↦
          (read_pages fuel path content (start + limit) limit >>= λ rest. ok (p.content ++ rest))
      | false ↦ ok p.content
    ]

page_rest :
    (s l : ℕ) (lines : List Bytes)
    → concat (take l (drop s lines)) ++ concat (drop (s + l) lines) ≡ concat (drop s lines)
page_rest s l lines = rw (drop-add s l lines) (
    sym (concat-append (take l (drop s lines)) (drop l (drop s lines)))
    ∙ ap (λ (r : List Bytes). concat r) (take-append-drop l (drop s lines)))

read_pages_from :
    (fuel : ℕ) (path content : Bytes) (start limit : ℕ)
    → 0 < limit
    → length (split_lines content) + limit < int_limit
    → (start ≡ 0) ⊎ (start < length (split_lines content))
    → length (split_lines content) - start < fuel
    → read_pages fuel path content start limit ≡ ok (concat (drop start (split_lines content)))
unfolding read_pages
read_pages_from zero path content start limit l small inside f = absurd (omega arith)
read_pages_from (suc fuel) path content start limit l small inside f =
    rw (read_page_lem path content start limit l (ground arith) inside)
      (elim (Bool-cases (ltb (start + limit) (length (split_lines content)))) [
        | inl k ↦ rw k (
            rw
              (read_pages_from fuel path content (start + limit) limit l small
                (inr (ltb→lt (start + limit) (length (split_lines content)) k))
                (omega (arith, ltb→lt)))
              (ap ok (page_rest start limit (split_lines content))))
        | inr k ↦
            let past : length (split_lines content) ≤ start + limit = ground arith in
            rw k (
              ap ok (
                sym (append-nil (concat (take limit (drop start (split_lines content)))))
                ∙ ap
                    (λ (r : List Bytes).
                      concat (take limit (drop start (split_lines content))) ++ concat r)
                    (sym (drop_all (start + limit) (split_lines content) past))
                ∙ page_rest start limit (split_lines content)))
      ])

-- Reading a file page by page, each from behind the one before, until a page is not truncated,
-- ends after at most one page more than there are lines and gives the file's content, for every
-- positive limit that does not reach the end of `int`.
pub read_pages_lem :
    (path content : Bytes) (limit : ℕ)
    → 0 < limit
    → length (split_lines content) + limit < int_limit
    → read_pages (length (split_lines content) + 1) path content 0 limit ≡ ok content
read_pages_lem path content limit l small =
    read_pages_from (length (split_lines content) + 1) path content 0 limit l small (inl refl)
      (omega arith)
    ∙ ap ok (split_lines_lem content).0

add_int_large : (a b : ℕ) → int_limit ≤ a + b → add_int a b ≡ negsuc (2 ^ 64 - (a + b) - 1)
unfolding add_int
add_int_large a b h = ground arith

-- With a positive limit and an offset that is 1 or the number of a line, the handler returns the
-- page: the lines from the offset on, at most `limit` of them, the offset, the number of all lines,
-- and whether lines are left behind it. It does so as long as the line before the offset and the
-- limit add up to less than 2^63; from there on it panics.
pub read_page_outcome :
    (path content : Bytes) (start limit : ℕ)
    → 0 < limit
    → (start ≡ 0) ⊎ (start < length (split_lines content))
    → read_page path (pos (start + 1)) (pos limit) content
      ≡ (if ltb (start + limit) int_limit then ok (page content start limit) else panic)
read_page_outcome path content start limit l inside =
    if_cases (λ r. read_page path (pos (start + 1)) (pos limit) content ≡ r)
      (ltb (start + limit) int_limit)
      (λ h. read_page_lem path content start limit l (ltb→lt (start + limit) int_limit h) inside)
      (λ h. overflow (ground (arith, h)))
  where
    overflow :
        int_limit ≤ start + limit → read_page path (pos (start + 1)) (pos limit) content ≡ panic
    overflow h =
        let e : start + 1 - 1 ≡ start = omega arith in
        let pass : (ltb 1 (start + 1) && ltb (length (split_lines content)) (start + 1)) ≡ false =
          ground arith in
        unfold read_page in
        rw (or_default_pos (start + 1) 1 (omega arith))
          (rw (or_default_pos limit 2000 l) (rw pass (rw e (rw (add_int_large start limit h)))))
