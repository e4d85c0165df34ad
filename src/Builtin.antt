-- ===== src/Builtin.antt =====
-- tools/builtin and the contexts of tools/tool.hpp. Files and processes are the system's: the
-- context and `Disk` are records of operations on the world. `none` is an exception of the JSON
-- library that the tool does not catch.
pub mod Quoting
pub mod Keys
pub mod Order
pub mod Refusals
use g.Base.{
  ℕ, Bool, true, false, ◌&&◌, not, List, [], ◌∷◌, ◌++◌, Option, none, some, Str, txt, Map, lookup,
  length, if◌then◌else◌, is_empty, ◌==◌,
}
use g.Json.{JsonLib}
use g.Types.{ToolCall}
use g.Tools.{Tool, ToolResult, Registry, register_tool, default_resources_for}

-- `ToolContext`, as the tools use it
pub record ToolContext (World : Type 0) : Type 0 where
  pub read_file : Str → World → Str × World
  pub exec : Str → World → Str × World
  pub file_exists : Str → World → Bool
  pub exec_argv : Str → List Str → World → Str × World

-- a text between single quotes; each quote in it is written as '"'"'
unfoldable pub quote_bytes : Str → Str
quote_bytes [] = []
quote_bytes (c ∷ s) =
    let rest = quote_bytes s in if c == 39 then 39 ∷ 34 ∷ 39 ∷ 34 ∷ 39 ∷ rest else c ∷ rest

unfoldable pub quote_args : List Str → Str
unfolding quote_bytes
quote_args [] = []
quote_args (a ∷ args) = 32 ∷ 39 ∷ quote_bytes a ++ 39 ∷ quote_args args

-- the command line of the default `exec_argv`
unfoldable pub joined : Str → List Str → Str
unfolding quote_args
joined program args = 39 ∷ quote_bytes program ++ 39 ∷ quote_args args

-- the default `exec_argv`
unfoldable pub exec_joined :
    {World : Type 0} → (Str → World → Str × World) → Str → List Str → World → Str × World
exec_joined exec program args w = exec (joined program args) w

-- `StatelessContext`
unfoldable pub stateless_context : {World : Type 0} → ToolContext World
stateless_context = record {
  read_file = λ path w. ([], w);
  exec = λ cmd w. ([], w);
  file_exists = λ path w. false;
  exec_argv = exec_joined (λ cmd w. ([], w));
}

-- What `BasicContext` and `write_file` ask of the system. `open_write` and `write` are false where
-- the stream fails.
pub record Disk (World : Type 0) : Type 0 where
  pub read : Str → World → Option Str
  pub exists_path : Str → World → Bool
  pub run_program : Str → List Str → World → Str × World
  pub parent_path : Str → Str
  pub create_directories : Str → World → World
  pub open_write : Str → World → Bool × World
  pub write : Str → Str → World → Bool × World

-- `BasicContext`: a file that does not open reads as nothing, and `exec` runs nothing
unfoldable pub basic_context : {World : Type 0} → Disk World → ToolContext World
basic_context d = record {
  read_file = λ path w. (elim (d.read path w) [ none ↦ [] | some s ↦ s ], w);
  exec = λ cmd w. (
    txt "ToolContext::exec() is unsafe and disabled; "
        ++ txt "use exec_argv() with an explicit argv vector instead.",
    w,
  );
  file_exists = d.exists_path;
  exec_argv = d.run_program;
}

-- `ctx_ ? *ctx_ : ctx`
unfoldable pub active :
    {World : Type 0} → Option (ToolContext World) → ToolContext World → ToolContext World
active none ctx = ctx
active (some own) ctx = own

module _ (j : JsonLib) where
  open j use {Json, null, parse, members, elements, as_string, of_string, of_number, of_members}

  -- the members of arguments that are an object
  unfoldable pub arg_members : Str → Option (List (Str × Json))
  arg_members arguments = elim (parse arguments) [ none ↦ none | some v ↦ members v ]

  unfoldable pub arg_string : Str → Str → Str
  arg_string arguments key = elim (arg_members arguments) [
    | none ↦ []
    | some ms ↦ elim (lookup key ms) [
      | none ↦ []
      | some v ↦ elim (as_string v) [ none ↦ [] | some s ↦ s ]
    ]
  ]

  unfoldable pub read_resources : ToolCall → List Str
  read_resources call =
      let path = arg_string call.arguments (txt "path") in
      if is_empty path then txt "file:read:*" ∷ [] else (txt "file:read:" ++ path) ∷ []

  unfoldable pub write_resources : ToolCall → List Str
  write_resources call =
      let path = arg_string call.arguments (txt "path") in
      if is_empty path
      then txt "file:write:*" ∷ []
      else (txt "file:read:" ++ path) ∷ (txt "file:write:" ++ path) ∷ []

  -- a result without output
  unfoldable pub refuse : Str → ToolResult Json
  refuse message = record {
    ok = false;
    output = null;
    error_message = message;
    observed_resources = [];
  }

  unfoldable pub give : Json → List Str → ToolResult Json
  give output observed = record {
    ok = true;
    output = output;
    error_message = [];
    observed_resources = observed;
  }

  -- `args[key].get<std::string>()`, where the key is there
  unfoldable pub field : Str → List (Str × Json) → Option (Option Str)
  field key ms = elim (lookup key ms) [ none ↦ none | some v ↦ some (as_string v) ]

  -- The result of a tool, or an exception, and the world.
  abbrev Invoked : Type 0 → Type 0
  Invoked World = Option (ToolResult Json) × World

  -- a file that was found, or not
  unfoldable pub read_path : {World : Type 0} → ToolContext World → Str → World → Invoked World
  read_path ctx path w =
      let (content, w1) = ctx.read_file path w in
      if is_empty content && not (ctx.file_exists path w1)
      then (some (refuse (txt "file not found: " ++ path)), w1)
      else (
        some (
            give
              (of_members ((txt "path", of_string path) ∷ (txt "content", of_string content) ∷ []))
              (path ∷ [])),
        w1,
      )

  -- `ReadFileTool::invoke`
  unfoldable pub invoke_read_file :
      {World : Type 0}
      → Option (ToolContext World)
      → ToolCall
      → ToolContext World
      → World
      → Invoked World
  unfolding read_path
  invoke_read_file own call ctx w = elim (arg_members call.arguments) [
    | none ↦ (some (refuse (txt "missing path")), w)
    | some ms ↦ elim (field (txt "path") ms) [
      | none ↦ (some (refuse (txt "missing path")), w)
      | some none ↦ (none, w)
      | some (some path) ↦ read_path (active own ctx) path w
    ]
  ]

  -- the file is opened and written
  unfoldable pub write_path : {World : Type 0} → Disk World → Str → Str → World → Invoked World
  write_path d path content w =
      let w1 =
        if is_empty (d.parent_path path) then w else d.create_directories (d.parent_path path) w in
      let (opened, w2) = d.open_write path w1 in
      let (written, w3) = d.write path content w2 in
      if not opened
      then (some (refuse (txt "cannot open for write: " ++ path)), w2)
      else if not written
      then (some (refuse (txt "write failed: " ++ path)), w3)
      else (
        some (
            give
              (of_members
                ((txt "path", of_string path) ∷ (txt "bytes", of_number (length content)) ∷ []))
              (path ∷ [])),
        w3,
      )

  -- `WriteFileTool::invoke`; the context is not used
  unfoldable pub invoke_write_file :
      {World : Type 0} → Disk World → ToolCall → ToolContext World → World → Invoked World
  unfolding write_path
  invoke_write_file d call ctx w = elim (arg_members call.arguments) [
    | none ↦ (some (refuse (txt "missing path/content")), w)
    | some ms ↦ elim (field (txt "path") ms) [
      | none ↦ (some (refuse (txt "missing path/content")), w)
      | some path ↦ elim (field (txt "content") ms) [
        | none ↦ (some (refuse (txt "missing path/content")), w)
        | some content ↦ elim path [
          | none ↦ (none, w)
          | some p ↦ elim content [ none ↦ (none, w) | some c ↦ write_path d p c w ]
        ]
      ]
    ]
  ]

  -- the loop over the entries of `args`; `none` where one is no string
  unfoldable pub strings : List Json → Option (List Str)
  strings [] = some []
  strings (v ∷ vs) =
      let rest = strings vs in
      elim (as_string v) [
        | none ↦ none
        | some s ↦ elim rest [ none ↦ none | some ss ↦ some (s ∷ ss) ]
      ]

  -- `ShellTool::invoke`
  unfoldable pub invoke_shell :
      {World : Type 0}
      → Option (ToolContext World)
      → ToolCall
      → ToolContext World
      → World
      → Invoked World
  invoke_shell own call ctx w = elim (arg_members call.arguments) [
    | none ↦ (some (refuse (txt "missing program/args")), w)
    | some ms ↦ elim (lookup (txt "program") ms) [
      | none ↦ (some (refuse (txt "missing program/args")), w)
      | some program ↦ elim (lookup (txt "args") ms) [
        | none ↦ (some (refuse (txt "missing program/args")), w)
        | some args ↦ elim (as_string program) [
          | none ↦ (some (refuse (txt "program must be a string and args an array")), w)
          | some p ↦ elim (elements args) [
            | none ↦ (some (refuse (txt "program must be a string and args an array")), w)
            | some es ↦ elim (strings es) [
              | none ↦ (some (refuse (txt "every entry of args must be a string")), w)
              | some argv ↦
                  let (output, w1) = (active own ctx).exec_argv p argv w in
                  (some (give (of_members ((txt "output", of_string output) ∷ [])) []), w1)
            ]
          ]
        ]
      ]
    ]
  ]

  -- A tool over worlds that an exception may have ended: nothing happens after it.
  unfoldable pub guarded :
      {Ctx World : Type 0}
      → (ToolCall → Ctx → World → Invoked World)
      → ToolCall
      → Ctx
      → Option World
      → ToolResult Json × Option World
  guarded invoke call ctx none = (refuse [], none)
  guarded invoke call ctx (some w) =
      let (r, w1) = invoke call ctx w in elim r [ none ↦ (refuse [], none) | some a ↦ (a, some w1) ]

  -- `register_builtin_tools`, in a registry over such worlds; without a context the tools share a
  -- `BasicContext`
  unfoldable pub register_builtin_tools :
      {World : Type 0}
      → Disk World
      → Option (ToolContext World)
      → Registry Json (ToolContext World) (Option World)
      → Registry Json (ToolContext World) (Option World)
  register_builtin_tools {World} d ctx r =
      let own : Option (ToolContext World) = elim ctx [
        | none ↦ some (basic_context d)
        | some c ↦ some c
      ] in
      register_tool
        (some (record {
          name = txt "shell";
          declared_resources = txt "shell" ∷ [];
          resources_for = default_resources_for (txt "shell" ∷ []);
          invoke = guarded (invoke_shell own);
        }))
        (register_tool
          (some (record {
            name = txt "write_file";
            declared_resources = txt "file:write" ∷ [];
            resources_for = write_resources;
            invoke = guarded (invoke_write_file d);
          }))
          (register_tool
            (some (record {
              name = txt "read_file";
              declared_resources = txt "file:read" ∷ [];
              resources_for = read_resources;
              invoke = guarded (invoke_read_file own);
            }))
            r))
