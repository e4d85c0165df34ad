-- ===== src/Builtin/Refusals.antt =====
-- What the tools do with arguments they refuse, and with the context they are given.
use g.Base.{
  ◌≡◌, refl, ap, subst, Bool, true, false, List, [], ◌∷◌, Option, none, some, Str, txt,
  if◌then◌else◌, Option-cases, inl, inr, str_eq, lookup, insert,
}
use mathlib.Core.Option.{some-injective}
use g.Json.{JsonLib}
use g.Types.{ToolCall}
use g.Tools.{Tool, ToolResult, find, register_tool}
use g.Builtin.{
  ToolContext, Disk, active, give, basic_context, arg_members, field, strings, refuse, invoke_shell,
  invoke_read_file, invoke_write_file, guarded, register_builtin_tools,
}

module _ (j : JsonLib) where
  open j use {Json, members, elements, as_string}

  -- The entries of the array are these texts, one for one.
  abbrev pub Texts : List Json → List Str → Type 0
  Texts [] [] = Unit
  Texts [] (a ∷ argv) = ⊥
  Texts (v ∷ vs) [] = ⊥
  Texts (v ∷ vs) (a ∷ argv) = (as_string v ≡ some a) × Texts vs argv

  strings-Texts : (vs : List Json) (argv : List Str) → strings j vs ≡ some argv → Texts vs argv
  unfolding strings
  strings-Texts [] argv e = subst (Texts []) (some-injective [] argv e) tt
  strings-Texts (v ∷ vs) argv e = elim (Option-cases (as_string v)) [
    | inl a ↦ cc (rw (strings, a) at e)
    | inr (s, a) ↦ elim (Option-cases (strings j vs)) [
      | inl b ↦ cc (rw (strings, a, b) at e)
      | inr (rest, b) ↦
          subst (Texts (v ∷ vs)) (some-injective (s ∷ rest) argv (rw (strings, a, b) at e))
            (a, strings-Texts vs rest b)
    ]
  ]

  -- The arguments of a call name this program and these arguments, all of them texts.
  pub record Asks (call : ToolCall) (program : Str) (argv : List Str) : Type 0 where
    pub args : List (Str × Json)
    pub parsed : arg_members j call.arguments ≡ some args
    pub program_value : Json
    pub has_program : lookup (txt "program") args ≡ some program_value
    pub program_text : as_string program_value ≡ some program
    pub args_value : Json
    pub has_args : lookup (txt "args") args ≡ some args_value
    pub entries : List Json
    pub args_entries : elements args_value ≡ some entries
    pub entry_texts : Texts entries argv

  -- The tool ran the program that was asked for, or it ran nothing and says so.
  pub data IsShellOutcome {World : Type 0} (call : ToolCall) (ctx : ToolContext World) (w : World)
      : Option (ToolResult Json) × World → Type 0 where
    ran :
        (r : ToolResult Json) (program : Str) (argv : List Str)
        → Asks call program argv
        → r.ok ≡ true
        → IsShellOutcome call ctx w (some r, (ctx.exec_argv program argv w).1)
    refused : (message : Str) → IsShellOutcome call ctx w (some (refuse j message), w)

  -- The shell tool never throws: on any arguments it either runs the program that they name with
  -- the arguments that they list, once, and succeeds, or it runs nothing, changes nothing and fails with a message.
  pub invoke_shell-IsShellOutcome :
      {World : Type 0} (own : Option (ToolContext World)) (call : ToolCall)
      (ctx : ToolContext World) (w : World)
      → IsShellOutcome call (active own ctx) w (invoke_shell j own call ctx w)
  unfolding invoke_shell give
  invoke_shell-IsShellOutcome own call ctx w = elim (Option-cases (arg_members j call.arguments)) [
    | inl a ↦ rw (invoke_shell, a) (refused _)
    | inr (ms, a) ↦ elim (Option-cases (lookup (txt "program") ms)) [
      | inl b ↦ rw (invoke_shell, a, b) (refused _)
      | inr (program, b) ↦ elim (Option-cases (lookup (txt "args") ms)) [
        | inl c ↦ rw (invoke_shell, a, b, c) (refused _)
        | inr (args, c) ↦ elim (Option-cases (as_string program)) [
          | inl d ↦ rw (invoke_shell, a, b, c, d) (refused _)
          | inr (p, d) ↦ elim (Option-cases (elements args)) [
            | inl e ↦ rw (invoke_shell, a, b, c, d, e) (refused _)
            | inr (es, e) ↦ elim (Option-cases (strings j es)) [
              | inl f ↦ rw (invoke_shell, a, b, c, d, e, f) (refused _)
              | inr (argv, f) ↦
                  rw (invoke_shell, a, b, c, d, e, f)
                    (ran _ p argv
                      (record {
                        args = ms;
                        parsed = a;
                        program_value = program;
                        has_program = b;
                        program_text = d;
                        args_value = args;
                        has_args = c;
                        entries = es;
                        args_entries = e;
                        entry_texts = strings-Texts es argv f;
                      })
                      refl)
            ]
          ]
        ]
      ]
    ]
  ]

  -- A call of `read_file` whose path is there, and is no text, ends in an exception.
  pub invoke_read_file-throws :
      {World : Type 0} (own : Option (ToolContext World)) (call : ToolCall)
      (ctx : ToolContext World) (w : World) (ms : List (Str × Json)) (v : Json)
      → arg_members j call.arguments ≡ some ms
      → lookup (txt "path") ms ≡ some v
      → as_string v ≡ none
      → invoke_read_file j own call ctx w ≡ (none, w)
  unfolding invoke_read_file field
  invoke_read_file-throws own call ctx w ms v a b c =
      let text : field j (txt "path") ms ≡ some none = rw (field, b, c) refl in
      rw (invoke_read_file, a, text) refl

-- What a tool does is the same in all contexts.
pub IgnoresContext : {Json Ctx World : Type 0} → Tool Json Ctx World → Type 0
IgnoresContext {Json} {Ctx} {World} tool =
    (call : ToolCall) (c d : Ctx) (w : World) → tool.invoke call c w ≡ tool.invoke call d w

one_of_three :
    {Json Ctx World : Type 0} (p q r : Bool) (t u v tool : Tool Json Ctx World)
    → IgnoresContext t
    → IgnoresContext u
    → IgnoresContext v
    → (if p then some t else if q then some u else if r then some v else none) ≡ some tool
    → IgnoresContext tool
one_of_three true q r t u v tool ht hu hv e = subst IgnoresContext (some-injective t tool e) ht
one_of_three false true r t u v tool ht hu hv e = subst IgnoresContext (some-injective u tool e) hu
one_of_three false false true t u v tool ht hu hv e =
    subst IgnoresContext (some-injective v tool e) hv
one_of_three false false false t u v tool ht hu hv e = cc e

guarded-own :
    (j : JsonLib) {World : Type 0}
    (invoke : ToolCall → ToolContext World → World → Option (ToolResult j.Json) × World)
    → ((call : ToolCall) (c d : ToolContext World) (w : World) → invoke call c w ≡ invoke call d w)
    → (call : ToolCall) (c d : ToolContext World) (w : Option World)
    → guarded j invoke call c w ≡ guarded j invoke call d w
unfolding guarded
guarded-own j invoke same call c d none = refl
guarded-own j {World} invoke same call c d (some w) =
    ap (λ (x : Option (ToolResult j.Json) × World). guarded j (λ call ctx w. x) call c (some w))
      (same call c d w)

-- A built-in tool does the same in every context that it is invoked in: it uses the context that
-- it was registered with, and the copy that the executor makes for a worker has no effect.
pub find-register_builtin_tools :
    (j : JsonLib) {World : Type 0} (disk : Disk World) (ctx : Option (ToolContext World))
    (name : Str) (tool : Tool j.Json (ToolContext World) (Option World))
    → find name (register_builtin_tools j disk ctx []) ≡ some tool
    → IgnoresContext tool
unfolding find register_builtin_tools register_tool lookup insert str_eq IgnoresContext
    invoke_read_file invoke_shell invoke_write_file active
find-register_builtin_tools j disk none name tool e =
    one_of_three (str_eq (txt "read_file") name) (str_eq (txt "write_file") name)
      (str_eq (txt "shell") name) _ _ _ tool
      (guarded-own j (invoke_read_file j (some (basic_context disk))) (λ call c d w. refl))
      (guarded-own j (invoke_write_file j disk) (λ call c d w. refl))
      (guarded-own j (invoke_shell j (some (basic_context disk))) (λ call c d w. refl)) e
find-register_builtin_tools j disk (some own) name tool e =
    one_of_three (str_eq (txt "read_file") name) (str_eq (txt "write_file") name)
      (str_eq (txt "shell") name) _ _ _ tool
      (guarded-own j (invoke_read_file j (some own)) (λ call c d w. refl))
      (guarded-own j (invoke_write_file j disk) (λ call c d w. refl))
      (guarded-own j (invoke_shell j (some own)) (λ call c d w. refl)) e
