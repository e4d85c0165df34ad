-- ===== src/Checks/BuiltinChecks.antt =====
-- Calls of the built-in tools, with arguments of each kind.
use g.Base.{
  ℕ, ◌≡◌, refl, true, false, List, [], ◌∷◌, Option, none, some, Str, txt, lookup, insert, str_eq,
}
use g.Json.{JsonLib}
use g.Types.{ToolCall}
use g.Tools.{Tool, find, register_tool}
use g.Graph.{DependencyGraph, empty_graph}
use g.Executor.{build_graph}
use g.Builtin.{
  ToolContext, Disk, stateless_context, active, arg_members, joined, invoke_shell, invoke_read_file,
  register_builtin_tools,
}
use g.Builtin.Quoting.{words, bare, words-joined}
use g.Builtin.Refusals.{IsShellOutcome, invoke_shell-IsShellOutcome, invoke_read_file-throws}

-- Texts, and the arguments of a call: a path, and a program without arguments; or a path that is no text.
data Value : Type 0 where
  text : Str → Value
  path_only : Str → Value
  program empty_list bad_path : Value

value_members : Value → Option (List (Str × Value))
value_members (path_only s) = some ((txt "path", text s) ∷ [])
value_members program = some ((txt "program", text (txt "ls")) ∷ (txt "args", empty_list) ∷ [])
value_members bad_path = some ((txt "path", empty_list) ∷ [])
value_members _ = none

value_elements : Value → Option (List Value)
value_elements empty_list = some []
value_elements _ = none

value_text : Value → Option Str
value_text (text s) = some s
value_text _ = none

-- A text is read as the given arguments, or as a path.
abbrev values : Option Value → JsonLib
values v = record {
  Json = Value;
  null = empty_list;
  is_null = λ v. false;
  parse = λ s. elim v [ none ↦ some (path_only s) | some a ↦ some a ];
  dump = λ v. txt "{}";
  members = value_members;
  elements = value_elements;
  as_string = value_text;
  as_boolean = λ v. none;
  as_unsigned = λ v. none;
  integer_text = λ v. none;
  float_text = λ v. none;
  of_string = text;
  of_number = λ n. empty_list;
  of_boolean = λ b. empty_list;
  of_members = λ ms. empty_list;
  of_elements = λ vs. empty_list;
}

-- A disk that counts what is asked of it.
abbrev disk : Disk ℕ
disk = record {
  read = λ path w. none;
  exists_path = λ path w. false;
  run_program = λ program args w. (txt "out", 7);
  parent_path = λ path. [];
  create_directories = λ path w. w;
  open_write = λ path w. (true, w);
  write = λ path content w. (true, w);
}

abbrev write_then_read : List ToolCall
write_then_read =
    record { name = txt "write_file"; arguments = txt "/f"; ordinal = 0 }
    ∷ record { name = txt "read_file"; arguments = txt "/f"; ordinal = 1 }
    ∷ []

abbrev shell_call : ToolCall
shell_call = record { name = txt "shell"; arguments = txt "{}"; ordinal = 0 }

abbrev no_files : ToolContext ℕ
no_files = stateless_context

words-joined_example :
    words bare false [] (joined (txt "echo") (txt "it's" ∷ txt "a b" ∷ []))
    ≡ some (txt "echo" ∷ txt "it's" ∷ txt "a b" ∷ [])
words-joined_example =
    words-joined (txt "echo") (txt "it's" ∷ txt "a b" ∷ []) (refl, (refl, (refl, (refl, tt))))
      ((refl, (refl, (refl, (refl, tt)))), ((refl, (refl, (refl, tt))), tt))

invoke_shell-IsShellOutcome_example :
    IsShellOutcome
      (values (some program))
      shell_call
      (active none no_files)
      0
      (invoke_shell (values (some program)) none shell_call no_files 0)
invoke_shell-IsShellOutcome_example =
    invoke_shell-IsShellOutcome (values (some program)) none shell_call no_files 0

invoke_read_file-throws_example :
    invoke_read_file (values (some bad_path)) none shell_call no_files 0 ≡ (none, 0)
unfolding arg_members value_members lookup str_eq value_text
invoke_read_file-throws_example =
    invoke_read_file-throws (values (some bad_path)) none shell_call no_files 0
      ((txt "path", empty_list) ∷ []) empty_list refl refl refl

-- the tool that the registry has for `shell`
found_shell :
    (t : Tool Value (ToolContext ℕ) (Option ℕ)) × (find
        (txt "shell")
        (register_builtin_tools (values none) disk none [])
      ≡ some t)
unfolding find register_builtin_tools register_tool lookup insert str_eq
found_shell = (_, refl)

abbrev graph : DependencyGraph
graph = build_graph (register_builtin_tools (values none) disk none []) write_then_read empty_graph
