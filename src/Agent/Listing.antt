-- ===== src/Agent/Listing.antt =====
-- `listFilesHandler` and `searchHandler` of agent/tools_builtin.go.
use aikido.Prelude.{Option, none, some, List, [], ◌∷◌, Bytes, codes, map, if◌then◌else◌}
use aikido.Errors.{Ctx, bad_args, Result, ok, err, ◌>>=◌}
use aikido.Vfs.Storage.{FileMeta, Storage}
use aikido.Vfs.Memory as Memory
use aikido.Tools.Handler.{texts, files, Content, object, Handler}
use aikido.Agent.Policy.{VfsToolOptions, visible}

unfoldable pub visible_files : VfsToolOptions → List FileMeta → List FileMeta
visible_files opts [] = []
visible_files opts (m ∷ ms) =
    let rest = visible_files opts ms in if visible opts m.path then m ∷ rest else rest

unfoldable pub visible_paths : VfsToolOptions → List Bytes → List Bytes
visible_paths opts [] = []
visible_paths opts (p ∷ ps) =
    let rest = visible_paths opts ps in if visible opts p then p ∷ rest else rest

abbrev pub file_list : List FileMeta → Content
file_list ms = object ((codes "files", files (map (λ m. (m.path, (m.size, m.updated_at))) ms)) ∷ [])

abbrev pub path_list : List Bytes → Content
path_list ps = object ((codes "paths", texts ps) ∷ [])

unfoldable pub list_files_handler : {S : Type 0} → Storage S → VfsToolOptions → Handler S
unfolding visible_files
list_files_handler st opts ctx args env s =
    ((st.list_files ctx s >>= λ ms. ok (file_list (visible_files opts ms))), s)

abbrev pub search_decoded :
    {S : Type 0}
    → (Ctx → Bytes → S → Result (List Bytes))
    → VfsToolOptions
    → Ctx
    → Option Bytes
    → S
    → Result Content
search_decoded find opts ctx none s = err (bad_args (codes "search"))
search_decoded find opts ctx (some query) s =
    find ctx query s >>= λ ps. ok (path_list (visible_paths opts ps))

-- `find` is the storage's `Search`, and `decode` stands for `json.Unmarshal`.
unfoldable pub search_handler :
    {S : Type 0}
    → (Ctx → Bytes → S → Result (List Bytes))
    → (Bytes → Option Bytes)
    → VfsToolOptions
    → Handler S
unfolding visible_paths
search_handler find decode opts ctx args env s = (search_decoded find opts ctx (decode args) s, s)
