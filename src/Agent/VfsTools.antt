-- ===== src/Agent/VfsTools.antt =====
-- agent/tools_register.go: `RegisterVFSTools`. What `json.Unmarshal` gives for each tool, the
-- descriptions and parameter schemas of the tools, and package `regexp` are parameters.
pub mod Registered
use aikido.Prelude.{
  ℕ, Bool, true, false, Option, none, some, List, [], ◌∷◌, ◌++◌, Bytes, codes, ◌==◌, ◌^◌,
  if◌then◌else◌,
}
use aikido.Errors.{Ctx, Error, missing_option, Result}
use aikido.Llm.Types.{ToolDef}
use aikido.Vfs.Storage.{Storage}
use aikido.Tools.Handler.{Handler}
use aikido.Tools.Registry.{Registry, register}
use aikido.Agent.Policy.{VfsToolOptions}
use aikido.Agent.ReadFile.{ReadArgs, read_file_handler}
use aikido.Agent.WriteFile.{WriteArgs, write_file_handler, delete_file_handler}
use aikido.Agent.EditFile.{EditArgs, edit_file_handler}
use aikido.Agent.Listing.{list_files_handler, search_handler}
use aikido.Agent.Glob.{Regexps, glob_handler}
use aikido.Agent.Grep.{GrepArgs, grep_handler}

pub record Outside (R : Type 0) : Type 0 where
  pub regexps : Regexps R
  pub itoa : ℕ → Bytes
  pub describe : Bytes → ToolDef
  pub read_args : Bytes → Option ReadArgs
  pub write_args : Bytes → Option WriteArgs
  pub delete_args : Bytes → Option Bytes
  pub edit_args : Bytes → Option EditArgs
  pub search_args : Bytes → Option Bytes
  pub glob_args : Bytes → Option Bytes
  pub grep_args : Bytes → Option GrepArgs

-- `Storage` of the options, with `Search` where it is a vfs.Searchable
pub record Mounted (S : Type 0) : Type 0 where
  pub storage : Storage S
  pub search : Option (Ctx → Bytes → S → Result (List Bytes))

-- `if cp.MaxFileBytes <= 0 { cp.MaxFileBytes = 1 << 20 }`; 0 stands for the negative ones too
abbrev pub with_max_bytes : VfsToolOptions → VfsToolOptions
with_max_bytes opts = record opts {
  max_file_bytes = if opts.max_file_bytes == 0 then 2 ^ 20 else opts.max_file_bytes;
}

module _ {R S : Type 0} (o : Outside R) where
  -- `reg.Register(…)`, and the calls behind it unless it fails
  unfoldable pub register_each : List (Bytes × Handler S) → Registry S → Option Error × Registry S
  register_each [] reg = (none, reg)
  register_each ((name, h) ∷ tools) reg =
      let r = register (record (o.describe name) { name = name }) (some h) reg in
      let rest = register_each tools r.1 in elim r.0 [ none ↦ rest | some e ↦ (some e, r.1) ]

  abbrev search_tool :
      VfsToolOptions → Option (Ctx → Bytes → S → Result (List Bytes)) → List (Bytes × Handler S)
  search_tool cp none = []
  search_tool cp (some find) = (codes "search", search_handler find o.search_args cp) ∷ []

  -- the calls of `Register`, in order, each group under its condition
  unfoldable pub vfs_tools : Mounted S → VfsToolOptions → List (Bytes × Handler S)
  vfs_tools m cp =
      (codes "read_file", read_file_handler m.storage o.read_args cp)
      ∷ (codes "list_files", list_files_handler m.storage cp)
      ∷ ((if cp.is_read_only
            then []
            else (codes "write_file", write_file_handler m.storage o.write_args cp)
              ∷ (codes "delete_file", delete_file_handler m.storage o.delete_args cp)
              ∷ [])
          ++ ((if cp.disable_extended
                then []
                else (codes "grep", grep_handler o.regexps o.itoa m.storage o.grep_args cp)
                  ∷ (codes "glob", glob_handler o.regexps m.storage o.glob_args cp)
                  ∷ (if cp.is_read_only
                      then []
                      else (codes "edit_file", edit_file_handler m.storage o.edit_args cp) ∷ []))
              ++ search_tool cp m.search))

  -- a nil registry, nil options and options without a storage are `none`
  unfoldable pub register_vfs_tools :
      Option (Registry S)
      → Option (VfsToolOptions × Option (Mounted S))
      → Option Error × Option (Registry S)
  unfolding register_each vfs_tools
  register_vfs_tools none opts = (some (missing_option (codes "registry")), none)
  register_vfs_tools (some reg) none = (some (missing_option (codes "Storage")), some reg)
  register_vfs_tools (some reg) (some (opts, none)) =
      (some (missing_option (codes "Storage")), some reg)
  register_vfs_tools (some reg) (some (opts, some m)) =
      let r = register_each (vfs_tools m (with_max_bytes opts)) reg in (r.0, some r.1)
