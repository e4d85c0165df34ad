-- ===== src/Mcp/Dialing.antt =====
-- `attach_sse_url` on addresses that are written from their parts.
use g.Base.{[], ◌≡◌, refl, Option, some, Str, ℤ, Option-cases, inl, inr}
use g.Json.{JsonLib}
use g.Mcp.Rpc.{Transport}
use g.Mcp.Sse.{SseTransport, new_transport}
use g.Mcp.Url.{ParsedUrl, parse_url}
use g.Mcp.UrlParts.{Parts, IsClean, print_url, parts_of, parse_url-print_url}
use g.Mcp.Host.{Store}
use g.Mcp.Attach.{McpHost, attach, attach_sse_url}
use g.Mcp.Naming.{IsListed, attach-IsListed}

-- The transport that is attached for an address: the scheme has no part in it.
abbrev pub dialled :
    {World : Type 0}
    → (Str → ℤ → SseTransport → Transport World)
    → ParsedUrl
    → Option (Transport World)
dialled dial u = some (dial u.host u.port (new_transport u.path u.path []))

module _ (j : JsonLib) (library_text : Str) {Ctx World : Type 0}
    (dial : Str → ℤ → SseTransport → Transport World) (stoi_text : Str) where
  -- An address that is written from its parts attaches the transport to the host, the port and the
  -- path of these parts.
  pub attach_sse_url-print_url :
      (p : Parts) (prefix : Str) (h : McpHost j library_text Ctx World) (s : Store j.Json World)
      → IsClean p
      → attach_sse_url j library_text dial stoi_text (print_url p) prefix h s
        ≡ attach j library_text (dialled dial (parts_of p)) prefix h s
  unfolding attach_sse_url
  attach_sse_url-print_url p prefix h s clean =
      rw (attach_sse_url, parse_url-print_url p clean) refl

  -- Whatever the address is and the server answers, every name that the host lists is afterwards that
  -- of a tool in the registry.
  pub attach_sse_url-IsListed :
      (url prefix : Str) (h : McpHost j library_text Ctx World) (s : Store j.Json World)
      → IsListed j library_text h
      → IsListed j library_text (attach_sse_url j library_text dial stoi_text url prefix h s).1
  unfolding attach_sse_url
  attach_sse_url-IsListed url prefix h s listed = elim (Option-cases (parse_url url)) [
    | inl e ↦ rw (attach_sse_url, e) listed
    | inr (u, e) ↦
        rw (attach_sse_url, e) (attach-IsListed j library_text (dialled dial u) prefix h s listed)
  ]
