-- ===== src/Mcp/UrlParts.antt =====
-- The parts of a URL are read back.
use g.Base.{
  ℕ, zero, suc, ◌/◌, ◌%◌, ◌+◌, ◌≤◌, ◌≡◌, ◌≢◌, refl, ap, ◌∙◌, Bool, false, [], ◌∷◌, ◌++◌, Option,
  none, some, Str, txt, All, All-append, if◌then◌else◌, ◌==◌, str_eq, starts_with, arith,
  stoi-decimal, pos, digits, decimal, append-nil, Bool-cases, inl, inr, ltb,
}
use g.Mcp.Url.{ParsedUrl, find_char, find_scheme, split_path, split_port, parse_url, locate}

-- A character that the text before it does not have is found behind that text.
pub find_char-append :
    (c : ℕ) (s rest : Str) → All (λ a. a ≢ c) s → find_char c (s ++ c ∷ rest) ≡ some (s, c ∷ rest)
unfolding find_char
find_char-append c [] rest h = ground arith
find_char-append c (a ∷ s) rest (h, hs) =
    let other : (a == c) ≡ false = ground (arith, h) in
    rw (other, find_char-append c s rest hs) refl

find_char-none : (c : ℕ) (s : Str) → All (λ a. a ≢ c) s → find_char c s ≡ none
unfolding find_char
find_char-none c [] h = refl
find_char-none c (a ∷ s) (h, hs) =
    let other : (a == c) ≡ false = ground (arith, h) in rw (other, find_char-none c s hs) refl

find_scheme-append :
    (s rest : Str) → All (λ a. a ≢ 58) s → find_scheme (s ++ txt "://" ++ rest) ≡ some (s, rest)
unfolding find_scheme starts_with
find_scheme-append [] rest h = refl
find_scheme-append (a ∷ s) rest (h, hs) =
    let other : (58 == a) ≡ false = ground (arith, h) in
    rw (other, find_scheme-append s rest hs) refl

-- The parts of an address, as they are written.
pub record Parts : Type 0 where
  pub scheme : Str
  pub host : Str
  pub port : Option ℕ
  pub path : Option Str

unfoldable pub print_port : Option ℕ → Str
print_port none = []
print_port (some n) = 58 ∷ decimal n

unfoldable pub print_path : Option Str → Str
print_path none = []
print_path (some s) = 47 ∷ s

unfoldable pub print_url : Parts → Str
unfolding print_port print_path
print_url p = p.scheme ++ txt "://" ++ (p.host ++ print_port p.port ++ print_path p.path)

-- a port that is an `int`
abbrev pub FitsInt : Option ℕ → Type 0
FitsInt none = Unit
FitsInt (some n) = n ≤ 2147483647

-- No part has a character that ends it, and the port fits.
pub record IsClean (p : Parts) : Type 0 where
  pub scheme_chars : All (λ c. c ≢ 58) p.scheme
  pub host_colon : All (λ c. c ≢ 58) p.host
  pub host_slash : All (λ c. c ≢ 47) p.host
  pub port_size : FitsInt p.port

-- the parts that `parse_url` should find
unfoldable pub parts_of : Parts → ParsedUrl
unfolding print_port
parts_of p =
    let tls = str_eq p.scheme (txt "https") in
    record {
      base = p.scheme ++ txt "://" ++ (p.host ++ print_port p.port);
      host = p.host;
      port = pos (elim p.port [ none ↦ if tls then 443 else 80 | some n ↦ n ]);
      tls = tls;
      path = elim p.path [ none ↦ txt "/" | some s ↦ 47 ∷ s ];
    }

digit-NoSlash : (d : ℕ) → 48 + d ≢ 47
digit-NoSlash d = omega arith

digits-NoSlash : (k n : ℕ) → All (λ c. c ≢ 47) (digits k n)
unfolding digits
digits-NoSlash zero n = tt
digits-NoSlash (suc k) n = elim (Bool-cases (ltb n 10)) [
  | inl e ↦ rw (digits, e) (digit-NoSlash n, tt)
  | inr e ↦
      rw (digits, e)
        (All-append (λ c. c ≢ 47) (digits k (n / 10)) ((48 + n % 10) ∷ [])
          (digits-NoSlash k (n / 10)) (digit-NoSlash (n % 10), tt))
]

print_port-NoSlash : (port : Option ℕ) → All (λ c. c ≢ 47) (print_port port)
unfolding print_port decimal
print_port-NoSlash none = tt
print_port-NoSlash (some n) = (omega arith, digits-NoSlash 20 n)

at_end : (s : Str) → All (λ c. c ≢ 47) s → split_path s ≡ (s, txt "/")
unfolding split_path
at_end s h = rw (split_path, find_char-none 47 s h) refl

no_port :
    (tls : Bool) (host : Str)
    → All (λ c. c ≢ 58) host
    → split_port tls host ≡ some (host, pos (if tls then 443 else 80))
unfolding split_port
no_port tls host h = rw (split_port, find_char-none 58 host h) refl

split_path-print :
    (s : Str) (path : Option Str)
    → All (λ c. c ≢ 47) s
    → split_path (s ++ print_path path)
      ≡ (s, elim path as (λ _. Str) [ none ↦ txt "/" | some t ↦ 47 ∷ t ])
unfolding split_path print_path
split_path-print s none h = ap split_path (append-nil s) ∙ at_end s h
split_path-print s (some t) h = rw (split_path, find_char-append 47 s t h) refl

split_port-print :
    (tls : Bool) (host : Str) (port : Option ℕ)
    → All (λ c. c ≢ 58) host
    → FitsInt port
    → split_port tls (host ++ print_port port)
      ≡ some (host, pos (elim port as (λ _. ℕ) [ none ↦ if tls then 443 else 80 | some n ↦ n ]))
unfolding split_port print_port
split_port-print tls host none h le = ap (split_port tls) (append-nil host) ∙ no_port tls host h
split_port-print tls host (some n) h le =
    rw (split_port, find_char-append 58 host (decimal n) h, stoi-decimal n le) refl

parse_url-locate :
    (scheme rest : Str)
    → All (λ c. c ≢ 58) scheme
    → parse_url (scheme ++ txt "://" ++ rest) ≡ locate scheme (split_path rest)
unfolding parse_url
parse_url-locate scheme rest h = rw (parse_url, find_scheme-append scheme rest h) refl

-- An address that is written from its parts is read back as them: the scheme, the host, the port, which is that of
-- the scheme where none is written, and the path, which is "/" where none is written.
pub parse_url-print_url : (p : Parts) → IsClean p → parse_url (print_url p) ≡ some (parts_of p)
unfolding print_url parts_of locate
parse_url-print_url p clean =
    let host_port : Str = p.host ++ print_port p.port in
    let no_slash =
      All-append (λ c. c ≢ 47) p.host (print_port p.port) clean.host_slash
        (print_port-NoSlash p.port) in
    parse_url-locate p.scheme (host_port ++ print_path p.path) clean.scheme_chars
    ∙ ap (locate p.scheme) (split_path-print host_port p.path no_slash)
    ∙ rw
        (
          locate,
          split_port-print (str_eq p.scheme (txt "https")) p.host p.port clean.host_colon
              clean.port_size,
        )
        refl
