-- ===== src/Cli/Options.antt =====
-- What the command line's arguments come to.
use g.Base.{
  ℕ, ◌≤◌, ◌≡◌, refl, ◌∙◌, true, false, List, [], ◌∷◌, ◌++◌, Str, txt, All, str_eq, pos,
  stoi-decimal, decimal,
}
use g.Cli.{
  CliOptions, take_value, take_flag, other, parsed, parse_args, has_dash, add_word, to_uint32,
  default_options, parse_cli,
}

-- An option with its value, a flag, or a word of the task.
pub data Setting : Type 0 where
  provider model api_key api_base host user pass word : Str → Setting
  budget port : ℕ → Setting
  web verbose : Setting

-- the arguments for a setting
unfoldable pub written : Setting → List Str
written (provider v) = txt "--provider" ∷ v ∷ []
written (model v) = txt "--model" ∷ v ∷ []
written (api_key v) = txt "--api-key" ∷ v ∷ []
written (api_base v) = txt "--api-base" ∷ v ∷ []
written (host v) = txt "--web-host" ∷ v ∷ []
written (user v) = txt "--web-user" ∷ v ∷ []
written (pass v) = txt "--web-pass" ∷ v ∷ []
written (word v) = v ∷ []
written (budget n) = txt "--budget" ∷ decimal n ∷ []
written (port n) = txt "--port" ∷ decimal n ∷ []
written web = txt "--web" ∷ []
written verbose = txt "--verbose" ∷ []

-- what it sets
unfoldable pub applied : Setting → CliOptions → CliOptions
applied (provider v) o = record o { provider_name = v }
applied (model v) o = record o { model = v }
applied (api_key v) o = record o { api_key = v }
applied (api_base v) o = record o { api_base = v }
applied (host v) o = record o { web_host = v }
applied (user v) o = record o { web_user = v }
applied (pass v) o = record o { web_pass = v }
applied (word v) o = add_word v o
applied (budget n) o = record o { budget_turns = n }
applied (port n) o = record o { web_port = pos n }
applied web o = record o { use_web = true }
applied verbose o = record o { verbose = true }

-- Numbers are those of an `int`, and no word starts with a dash.
abbrev pub IsWritable : Setting → Type 0
IsWritable (word v) = has_dash v ≡ false
IsWritable (budget n) = n ≤ 2147483647
IsWritable (port n) = n ≤ 2147483647
IsWritable _ = Unit

unfoldable pub command_line : List Setting → List Str
command_line [] = []
command_line (s ∷ ss) = written s ++ command_line ss

unfoldable pub applied_all : List Setting → CliOptions → CliOptions
applied_all [] o = o
applied_all (s ∷ ss) o = applied_all ss (applied s o)

parse_args-flag :
    (arg : Str) (rest : List Str) (o o' : CliOptions)
    → ((v : Str) → take_value arg v o ≡ other)
    → take_flag arg o ≡ parsed o'
    → parse_args (arg ∷ rest) o ≡ parse_args rest o'
unfolding parse_args
parse_args-flag arg [] o o' free e = e
parse_args-flag arg (v ∷ rest) o o' free e = rw (parse_args, free v, e) refl

take_value-word : (w v : Str) (o : CliOptions) → has_dash w ≡ false → take_value w v o ≡ other
unfolding take_value has_dash str_eq
take_value-word [] v o h = refl
take_value-word (c ∷ s) v o h = rw h refl

take_flag-word :
    (w : Str) (o : CliOptions) → has_dash w ≡ false → take_flag w o ≡ parsed (add_word w o)
unfolding take_flag has_dash str_eq
take_flag-word [] o h = refl
take_flag-word (c ∷ s) o h = rw h refl

parse_args-written :
    (s : Setting) (rest : List Str) (o : CliOptions)
    → IsWritable s
    → parse_args (written s ++ rest) o ≡ parse_args rest (applied s o)
unfolding parse_args take_value take_flag str_eq written applied to_uint32
parse_args-written (provider v) rest o h = refl
parse_args-written (model v) rest o h = refl
parse_args-written (api_key v) rest o h = refl
parse_args-written (api_base v) rest o h = refl
parse_args-written (host v) rest o h = refl
parse_args-written (user v) rest o h = refl
parse_args-written (pass v) rest o h = refl
parse_args-written (word v) rest o h =
    parse_args-flag v rest o (add_word v o) (λ x. take_value-word v x o h) (take_flag-word v o h)
parse_args-written (budget n) rest o h = rw (parse_args, take_value, stoi-decimal n h) refl
parse_args-written (port n) rest o h = rw (parse_args, take_value, stoi-decimal n h) refl
parse_args-written web rest o h =
    parse_args-flag (txt "--web") rest o (record o { use_web = true }) (λ x. refl) refl
parse_args-written verbose rest o h =
    parse_args-flag (txt "--verbose") rest o (record o { verbose = true }) (λ x. refl) refl

-- A command line that writes settings in any order, some of them repeatedly, is read as these settings made one
-- after the other from the defaults: the last one counts, the words are joined, and the value of
-- an option is taken as it is, also where it looks like an option.
pub parse_cli-command_line :
    (ss : List Setting)
    → All IsWritable ss
    → parse_cli (command_line ss) ≡ parsed (applied_all ss default_options)
unfolding parse_cli parse_args command_line applied_all
parse_cli-command_line ss h = from ss default_options h
  where
    from :
        (ss : List Setting) (o : CliOptions)
        → All IsWritable ss
        → parse_args (command_line ss) o ≡ parsed (applied_all ss o)
    from [] o h = refl
    from (s ∷ ss) o (h, hs) = parse_args-written s (command_line ss) o h ∙ from ss (applied s o) hs
