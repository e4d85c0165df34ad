-- ===== src/Web/Access.antt =====
-- Who gets past the panel's check, and what its handler does for them.
use g.Base.{
  List, ◌≡◌, ◌≢◌, refl, true, false, ◌&&◌, [], ◌∷◌, ◌++◌, Option, none, some, Str, txt, All,
  All-append, arith, is_empty, leb, length, str_eq, starts_with,
}
use g.Json.{JsonLib}
use g.Floats.{Floats}
use g.Cli.{CliOptions}
use g.Mcp.UrlParts.{find_char-append}
use g.Web.{
  Request, Response, require_auth, credentials, check_auth, content, local_options, run_json,
  Performed,
}
use g.Web.Base64.{b64_encode, b64_decode-b64_encode, IsByte}

-- the header that a client sends for a user and a password
pub basic : Str → Str → Str
basic user pass = txt "Basic " ++ b64_encode (user ++ 58 ∷ pass)

longer_than_prefix : (s : Str) → s ≢ [] → leb (length (txt "Basic " ++ b64_encode s)) 6 ≡ false
unfolding b64_encode
longer_than_prefix [] ne = absurd (ne refl)
longer_than_prefix (a ∷ []) ne = refl
longer_than_prefix (a ∷ b ∷ []) ne = refl
longer_than_prefix (a ∷ b ∷ c ∷ s) ne = ground arith

not_empty : (user pass : Str) → user ++ 58 ∷ pass ≢ []
not_empty [] pass = λ e. cc e
not_empty (c ∷ user) pass = λ e. cc e

credentials-basic :
    (user pass : Str)
    → All IsByte user
    → All IsByte pass
    → All (λ c. c ≢ 58) user
    → credentials (basic user pass) ≡ some (user, pass)
unfolding credentials basic starts_with
credentials-basic user pass hu hp plain =
    let bytes : All IsByte (user ++ 58 ∷ pass) =
      All-append IsByte user (58 ∷ pass) hu (omega arith, hp) in
    let long = longer_than_prefix (user ++ 58 ∷ pass) (not_empty user pass) in
    rw
      (
        credentials,
        long,
        b64_decode-b64_encode (user ++ 58 ∷ pass) bytes,
        find_char-append 58 user pass plain,
      )
      refl

-- Where the panel asks for credentials, a request with those of a user whose name has no colon is let in exactly
-- if the name and the password are those of the options.
pub check_auth-basic :
    (opts : CliOptions) (req : Request) (user pass : Str)
    → req.header (txt "Authorization") ≡ some (basic user pass)
    → All IsByte user
    → All IsByte pass
    → All (λ c. c ≢ 58) user
    → require_auth opts ≡ true
    → check_auth opts req ≡ (str_eq user opts.web_user && str_eq pass opts.web_pass)
unfolding check_auth
check_auth-basic opts req user pass sent hu hp plain asks =
    rw (check_auth, asks, sent, credentials-basic user pass hu hp plain) refl

module _ (j : JsonLib) {f : Floats} {World : Type 0}
    (perform : CliOptions → World → Option (Performed j f) × World)
    (dump_text : j.Json → Option Str) where
  -- The request names these options, in an object of JSON.
  pub record Names (opts : CliOptions) (req : Request) (local : CliOptions) : Type 0 where
    pub body : j.Json
    pub parsed : j.parse req.body ≡ some body
    pub members : List (Str × j.Json)
    pub object : j.members body ≡ some members
    pub options : local_options j opts members ≡ some local

  -- The run throws, or the text of what it returns cannot be written.
  pub data Throws : Option (Performed j f) → Type 0 where
    run_threw : Throws none
    not_written : (p : Performed j f) → dump_text (run_json j p) ≡ none → Throws (some p)

  -- What may come of a request to run a task. `local` are the options that the task runs with.
  pub data IsPosted (opts : CliOptions) (req : Request) (w : World)
      : Option Response × World → Type 0 where
    refused :
        (r : Response)
        → check_auth opts req ≡ false
        → r.status ≡ 401
        → IsPosted opts req w (some r, w)
    malformed :
        (r : Response)
        → check_auth opts req ≡ true
        → r.status ≡ 400
        → IsPosted opts req w (some r, w)
    unread :
        (body : j.Json) (ms : List (Str × j.Json))
        → check_auth opts req ≡ true
        → j.parse req.body ≡ some body
        → j.members body ≡ some ms
        → local_options j opts ms ≡ none
        → IsPosted opts req w (none, w)
    crashed :
        (local : CliOptions)
        → check_auth opts req ≡ true
        → Names opts req local
        → is_empty local.task ≡ false
        → Throws (perform local w).0
        → IsPosted opts req w (none, (perform local w).1)
    served :
        (r : Response) (local : CliOptions) (p : Performed j f)
        → check_auth opts req ≡ true
        → Names opts req local
        → is_empty local.task ≡ false
        → (perform local w).0 ≡ some p
        → dump_text (run_json j p) ≡ some r.content
        → r.status ≡ 200
        → IsPosted opts req w (some r, (perform local w).1)
