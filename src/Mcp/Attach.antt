-- ===== src/Mcp/Attach.antt =====
-- mcp/mcp_host: the host attaches servers and registers their tools.
use g.Base.{
  ℕ, List, [], ◌∷◌, ◌++◌, Option, none, some, Str, txt, map, lookup, length, if◌then◌else◌,
  is_empty, ℤ,
}
use g.Json.{JsonLib}
use g.Tools.{Registry, register_tool}
use g.Mcp.Rpc.{value, raised, Transport, new_client}
use g.Mcp.Url.{find_scheme, parse_url}
use g.Mcp.Sse.{SseTransport, new_transport}
use g.Mcp.Host.{McpToolSpec, Store, full_name, mcp_tool, call_peer, perform_mcp_handshake}

module _ (j : JsonLib) (library_text : Str) where
  open j use {Json, members, elements, as_string, of_members}

  pub record McpHost (Ctx World : Type 0) : Type 0 where
    pub tools : List (McpToolSpec Json)
    pub registry : Registry Json Ctx (Store Json World)

  -- `t.value(key, "")`
  unfoldable pub text_member : Str → List (Str × Json) → Option Str
  text_member key ms = elim (lookup key ms) [ none ↦ some [] | some v ↦ as_string v ]

  -- an entry of `tools`; `none` is the exception
  unfoldable pub read_spec : Json → Option (McpToolSpec Json)
  read_spec t = elim (members t) [
    | none ↦ none
    | some ms ↦ elim (text_member (txt "name") ms) [
      | none ↦ none
      | some name ↦ elim (text_member (txt "description") ms) [
        | none ↦ none
        | some description ↦ some (record {
          name = name;
          description = description;
          schema = elim (lookup (txt "inputSchema") ms) [ none ↦ of_members [] | some v ↦ v ];
        })
      ]
    ]
  ]

  module _ {Ctx World : Type 0} where
    unfoldable pub register_remote_tool :
        McpToolSpec Json → Str → ℕ → McpHost Ctx World → McpHost Ctx World
    unfolding mcp_tool
    register_remote_tool spec prefix client h =
        let name = full_name prefix spec.name in
        if is_empty spec.name then h else record {
          tools = h.tools ++ record spec { name = name } ∷ [];
          registry =
              register_tool (some (mcp_tool j library_text name (some client) prefix)) h.registry;
        }

    -- the loop over the entries, with the text of an exception
    unfoldable pub register_entries :
        List Json → Str → ℕ → McpHost Ctx World → Option Str × McpHost Ctx World
    unfolding read_spec register_remote_tool
    register_entries [] prefix client h = (none, h)
    register_entries (t ∷ ts) prefix client h = elim (read_spec t) [
      | none ↦ (some library_text, h)
      | some spec ↦ register_entries ts prefix client (register_remote_tool spec prefix client h)
    ]

    unfoldable pub register_tools_from_payload :
        Json → Str → ℕ → McpHost Ctx World → Option Str × McpHost Ctx World
    unfolding register_entries
    register_tools_from_payload payload prefix client h = elim (members payload) [
      | none ↦ (none, h)
      | some ms ↦ elim (lookup (txt "tools") ms) [
        | none ↦ (none, h)
        | some v ↦ elim (elements v) [
          | none ↦ (none, h)
          | some ts ↦ register_entries ts prefix client h
        ]
      ]
    ]

    -- `attach`, after the client is pushed
    unfoldable pub list_tools :
        Str
        → ℕ
        → McpHost Ctx World
        → Store Json World
        → Option Str × McpHost Ctx World × Store Json World
    unfolding perform_mcp_handshake register_tools_from_payload
    list_tools prefix i h s =
        let (problem, s1) = perform_mcp_handshake j library_text i s in
        let (payload, s2) = call_peer j library_text i (txt "tools/list") (of_members []) s1 in
        elim problem [
          | some message ↦ (some message, h, s1)
          | none ↦ elim payload [
            | raised message ↦ (some message, h, s2)
            | value v ↦
                let (fault, h1) = register_tools_from_payload v prefix i h in (fault, h1, s2)
          ]
        ]

    -- `attach`, with the text of an exception
    unfoldable pub attach :
        Option (Transport World)
        → Str
        → McpHost Ctx World
        → Store Json World
        → Option Str × McpHost Ctx World × Store Json World
    unfolding list_tools
    attach none prefix h s = (some (txt "attach: transport is null"), h, s)
    attach (some t) prefix h s =
        list_tools prefix (length s.clients) h
          (record s { clients = s.clients ++ record { transport = t; client = new_client } ∷ [] })

    -- `attach_sse_url`; `dial` makes the HTTP client and starts the event thread, and `stoi_text` is
    -- the text of the exception of a port that is no number
    unfoldable pub attach_sse_url :
        (Str → ℤ → SseTransport → Transport World)
        → Str
        → Str
        → Str
        → McpHost Ctx World
        → Store Json World
        → Option Str × McpHost Ctx World × Store Json World
    unfolding attach
    attach_sse_url dial stoi_text url prefix h s = elim (parse_url url) [
      | none ↦ (
        elim (find_scheme url) [
          | none ↦ some (txt "invalid url (no scheme): " ++ url)
          | some parts ↦ some stoi_text
        ],
        h,
        s,
      )
      | some p ↦ attach (some (dial p.host p.port (new_transport p.path p.path []))) prefix h s
    ]

    unfoldable pub tool_names : McpHost Ctx World → List Str
    tool_names h = map (λ spec. spec.name) h.tools
