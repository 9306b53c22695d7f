-- ===== src/Examples/OfFiles.antt =====
-- The theorems on paths, texts, the storage and the file tools, at small files.
use aikido.Prelude.{
  lower, has_prefix, ◌+◌, ◌-◌, true, none, some, [], ◌∷◌, ◌≡◌, refl, ◌↔◌, arith, Bytes, codes,
  text_eq, contains, split, length, ltb, inr, if◌then◌else◌,
}
use aikido.Prelude.Int.{pos, int_limit, or_default, add_int}
use aikido.Prelude.Sort.{sort_by, place, text_lt}
use aikido.Errors.{ok, panic}
use aikido.Vfs.Path.{validate_path}
use aikido.Vfs.Path.Segments.{IsRelative, validate_path_iff}
use aikido.Vfs.ContentType.{ext}
use aikido.Vfs.Memory.{FileEntry, Files, storage, hits, search_files}
use aikido.Vfs.Memory.Laws.{storage-Conforms}
use aikido.Tools.Handler.{Env}
use aikido.Agent.Policy.{visible, extension_allowed, is_hidden, equal_fold}
use aikido.Agent.Lines.{split_lines}
use aikido.Agent.ReadFile.{read_page}
use aikido.Agent.ReadFile.Pages.{read_pages, read_pages_lem, page, read_page_outcome}
use aikido.Agent.WriteFile.{WriteArgs}
use aikido.Agent.Listing.{path_list, search_handler, visible_paths}
use aikido.Agent.EditFile.{EditArgs, edit_file_handler}
use aikido.Agent.EditFile.Outcome.{EditOutcome, edit_file_outcome}
use aikido.Examples.{notes, policy}

abbrev entry : Bytes → FileEntry
entry c = record { content = c; content_type = codes "text/markdown"; updated_at = 0 }

abbrev two_files : Files
two_files = record {
  files = (notes, entry (codes "ab-ab\nc")) ∷ (codes "a.md", entry (codes "x")) ∷ [];
  now = 1;
}

abbrev same_files : Files
same_files = record {
  files = (codes "a.md", entry (codes "x")) ∷ (notes, entry (codes "ab-ab\nc")) ∷ [];
  now = 1;
}

abbrev turn_zero : Env
turn_zero = record { session_id = codes "s1"; turn_id = 0 }

abbrev the_edit : EditArgs
the_edit = record {
  path = notes;
  old_string = codes "ab";
  new_string = codes "abc";
  all_matches = true;
}

abbrev the_write : WriteArgs
the_write = record { path = notes; content = codes "hello"; content_type = [] }

edit_file_outcome_example :
    EditOutcome storage policy none the_edit two_files
      (edit_file_handler storage (λ args. some the_edit) policy none [] turn_zero two_files)
edit_file_outcome_example =
    edit_file_outcome storage storage-Conforms policy (λ args. some the_edit) none [] turn_zero
      two_files the_edit refl

read_pages_lem_example :
    read_pages (length (split_lines (codes "a\nb\nc")) + 1) notes (codes "a\nb\nc") 0 2
    ≡ ok (codes "a\nb\nc")
unfolding split_lines
read_pages_lem_example = read_pages_lem notes (codes "a\nb\nc") 2 (omega arith) (omega arith)

read_page_outcome_example :
    read_page notes (pos (1 + 1)) (pos (int_limit - 1)) (codes "a\nb\nc") ≡ (
      if ltb (1 + (int_limit - 1)) int_limit
      then ok (page (codes "a\nb\nc") 1 (int_limit - 1))
      else panic)
unfolding split_lines
read_page_outcome_example =
    read_page_outcome notes (codes "a\nb\nc") 1 (int_limit - 1) (omega arith) (inr (omega arith))

-- the second line alone
second_page :
    read_page notes (pos 2) (pos 1) (codes "a\nb\nc")
    ≡ ok (record { content = codes "b\n"; offset = 2; total_lines = 3; truncated = true })
unfolding read_page split_lines or_default add_int
second_page = refl

validate_path_iff_example : (validate_path (codes "a/b.md") ≡ none) ↔ IsRelative (codes "a/b.md")
validate_path_iff_example = validate_path_iff (codes "a/b.md")

-- the file that holds the query in small letters
found_notes :
    search_handler search_files (λ args. some args) policy none (codes "C") turn_zero two_files
    ≡ (ok (path_list (notes ∷ [])), two_files)
unfolding search_handler search_files sort_by place text_lt hits contains has_prefix lower
    visible_paths visible extension_allowed equal_fold ext is_hidden split text_eq
found_notes = refl
