-- ===== src/Checks/UiChecks.antt =====
-- A command line, and requests to the panel.
use g.Base.{◌≡◌, refl, ◌&&◌, List, [], ◌∷◌, some, txt, All, arith, str_eq}
use g.Cli.{CliOptions, default_options, parse_cli, parsed, has_dash, add_word}
use g.Cli.Options.{
  Setting, provider, budget, word, pass, applied, command_line, applied_all, IsWritable,
  parse_cli-command_line,
}
use g.Web.{Request, check_auth, require_auth, b64_decode}
use g.Web.Base64.{b64_encode, b64_decode-b64_encode}
use g.Web.Access.{basic, check_auth-basic}

abbrev settings : List Setting
settings =
    provider (txt "openai")
    ∷ word (txt "say")
    ∷ budget 3
    ∷ word (txt "hi")
    ∷ pass (txt "--web")
    ∷ budget 5
    ∷ []

settings-IsWritable : All IsWritable settings
unfolding has_dash
settings-IsWritable = (tt, (refl, (omega arith, (refl, (tt, (omega arith, tt))))))

parse_cli-command_line_example :
    parse_cli (command_line settings)
    ≡ parsed (record default_options {
      task = txt "say hi";
      provider_name = txt "openai";
      budget_turns = 5;
      web_pass = txt "--web";
    })
unfolding default_options add_word applied applied_all
parse_cli-command_line_example = parse_cli-command_line settings settings-IsWritable

b64_decode-b64_encode_example : b64_decode (b64_encode (txt "user:pass")) ≡ txt "user:pass"
b64_decode-b64_encode_example = b64_decode-b64_encode (txt "user:pass") (omega arith)

-- A panel that asks for `user` and `pass`, and a request that brings them.
abbrev guarded_options : CliOptions
guarded_options = record default_options { web_user = txt "user"; web_pass = txt "pass" }

abbrev signed_request : Request
signed_request = record { header = λ name. some (basic (txt "user") (txt "pass")); body = txt "{}" }

check_auth-basic_example :
    check_auth guarded_options signed_request
    ≡ (str_eq (txt "user") (txt "user") && str_eq (txt "pass") (txt "pass"))
unfolding require_auth
check_auth-basic_example =
    check_auth-basic guarded_options signed_request (txt "user") (txt "pass") refl (omega arith)
      (omega arith) (omega arith) refl
