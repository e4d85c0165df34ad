-- ===== src/Mcp/Url.antt =====
-- mcp/mcp_host: `parse_url`.
use g.Base.{
  ℕ, Bool, [], ◌∷◌, ◌++◌, Option, none, some, Str, txt, drop, if◌then◌else◌, ◌==◌, str_eq,
  starts_with, ℤ, pos, stoi,
}

pub record ParsedUrl : Type 0 where
  pub base : Str
  pub host : Str
  pub port : ℤ
  pub tls : Bool
  pub path : Str

-- `s.find(c)`: the parts before the first `c`, and from it on
unfoldable pub find_char : ℕ → Str → Option (Str × Str)
find_char c [] = none
find_char c (a ∷ s) =
    let later = find_char c s in
    if a == c
    then some ([], a ∷ s)
    else elim later [ none ↦ none | some (before, rest) ↦ some (a ∷ before, rest) ]

-- `url.find("://")`: the parts before it and after it
unfoldable pub find_scheme : Str → Option (Str × Str)
find_scheme [] = none
find_scheme (a ∷ s) =
    let later = find_scheme s in
    if starts_with (txt "://") (a ∷ s)
    then some ([], drop 3 (a ∷ s))
    else elim later [ none ↦ none | some (before, rest) ↦ some (a ∷ before, rest) ]

-- the host and the path of what follows the scheme
unfoldable pub split_path : Str → Str × Str
split_path rest = elim (find_char 47 rest) [
  | none ↦ (rest, txt "/")
  | some (host_port, path) ↦ (host_port, path)
]

-- the host and the port; `none` is the exception of `std::stoi`
unfoldable pub split_port : Bool → Str → Option (Str × ℤ)
split_port tls host_port = elim (find_char 58 host_port) [
  | none ↦ some (host_port, pos (if tls then 443 else 80))
  | some (host, colon_port) ↦ elim (stoi (drop 1 colon_port)) [
    | none ↦ none
    | some port ↦ some (host, port)
  ]
]

-- the fields of the result, from the scheme, and the host and the path
unfoldable pub locate : Str → Str × Str → Option ParsedUrl
locate scheme (host_port, path) =
    let tls = str_eq scheme (txt "https") in
    elim (split_port tls host_port) [
      | none ↦ none
      | some (host, port) ↦ some (record {
        base = scheme ++ txt "://" ++ host_port;
        host = host;
        port = port;
        tls = tls;
        path = path;
      })
    ]

-- `parse_url`; `none` is an exception
unfoldable pub parse_url : Str → Option ParsedUrl
parse_url url = elim (find_scheme url) [
  | none ↦ none
  | some (scheme, rest) ↦ locate scheme (split_path rest)
]
