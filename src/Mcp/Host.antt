-- ===== src/Mcp/Host.antt =====
-- mcp/mcp_host: remote tools and the host that registers them. The host's clients are in a store
-- that the tools share, each with the transport that it owns.
use g.Base.{
  ℕ, true, false, List, [], ◌∷◌, ◌++◌, Option, none, some, Str, txt, lookup, length, drop,
  get_elem?, set, if◌then◌else◌, is_empty, starts_with,
}
use g.Json.{JsonLib}
use g.Types.{ToolCall}
use g.Tools.{Tool, ToolResult, default_resources_for}
use g.Builtin.{refuse, give}
use g.Mcp.Rpc.{Outcome, value, raised, Transport, JsonRpcClient, call, notify}

pub record McpToolSpec (Json : Type 0) : Type 0 where
  pub name : Str
  pub description : Str
  pub schema : Json

pub record Peer (Json World : Type 0) : Type 0 where
  pub transport : Transport World
  pub client : JsonRpcClient Json

pub record Store (Json World : Type 0) : Type 0 where
  pub clients : List (Peer Json World)
  pub outside : World

-- the name that a tool is registered with
unfoldable pub full_name : Str → Str → Str
full_name prefix name = if is_empty prefix then name else prefix ++ txt "__" ++ name

-- the name that the server knows the tool by
unfoldable pub remote_name : Str → Str → Str
remote_name prefix name =
    let sep = prefix ++ txt "__" in
    if is_empty prefix then name else if starts_with sep name then drop (length sep) name else name

module _ (j : JsonLib) (library_text : Str) where
  open j use {Json, parse, members, elements, as_string, as_boolean, of_string, of_members}

  -- the `text` of the first of the `content`, where it has one
  unfoldable pub first_text : List (Str × Json) → Option Json
  first_text ms = elim (lookup (txt "content") ms) [
    | none ↦ none
    | some content ↦ elim (elements content) [
      | none ↦ none
      | some [] ↦ none
      | some (first ∷ others) ↦ elim (members first) [
        | none ↦ none
        | some fields ↦ lookup (txt "text") fields
      ]
    ]
  ]

  -- a result that is an error, with the text of the exception for a text of another type
  unfoldable pub remote_error : List (Str × Json) → ToolResult Json
  unfolding first_text
  remote_error ms = elim (first_text ms) [
    | none ↦ refuse j (txt "remote tool error")
    | some text ↦ elim (as_string text) [
      | none ↦ refuse j library_text
      | some message ↦ refuse j message
    ]
  ]

  unfoldable pub remote_output : Json → List (Str × Json) → ToolResult Json
  unfolding first_text
  remote_output result ms = elim (lookup (txt "structuredContent") ms) [
    | some content ↦ give j content []
    | none ↦ elim (first_text ms) [ none ↦ give j result [] | some text ↦ give j text [] ]
  ]

  -- the result of the tool, from that of the call
  unfoldable pub read_result : Json → ToolResult Json
  unfolding remote_error remote_output
  read_result result = elim (members result) [
    | none ↦ give j result []
    | some ms ↦ elim (lookup (txt "isError") ms) [
      | none ↦ remote_output result ms
      | some v ↦ elim (as_boolean v) [
        | none ↦ refuse j library_text
        | some true ↦ remote_error ms
        | some false ↦ remote_output result ms
      ]
    ]
  ]

  -- what is sent for a call of the tool
  unfoldable pub call_params : Str → Json → Json
  call_params name arguments =
      of_members ((txt "name", of_string name) ∷ (txt "arguments", arguments) ∷ [])

  unfoldable pub outcome_result : Outcome Json → ToolResult Json
  unfolding read_result
  outcome_result (value v) = read_result v
  outcome_result (raised message) = refuse j message

  -- the handshake's parameters
  unfoldable pub init_params : Json
  init_params = of_members (
      (txt "protocolVersion", of_string (txt "2024-11-05"))
      ∷ (txt "capabilities", of_members [])
      ∷ (
        txt "clientInfo",
        of_members (
            (txt "name", of_string (txt "praxis")) ∷ (txt "version", of_string (txt "0.1.0")) ∷ []),
      )
      ∷ [])

  module _ {World : Type 0} where
    -- `client_->call(…)`; there is no client at a position outside the store
    unfoldable pub call_peer : ℕ → Str → Json → Store Json World → Outcome Json × Store Json World
    call_peer i method params s = elim (get_elem? s.clients i) [
      | none ↦ (raised [], s)
      | some p ↦
          let (result, client, w) =
            call j p.transport library_text method params p.client s.outside in
          (result, record { clients = set s.clients i (record p { client = client }); outside = w })
    ]

    unfoldable pub notify_peer : ℕ → Str → Json → Store Json World → Option Str × Store Json World
    notify_peer i method params s = elim (get_elem? s.clients i) [
      | none ↦ (some [], s)
      | some p ↦
          let (problem, w) = notify j p.transport library_text method params s.outside in
          (problem, record s { outside = w })
    ]

    -- `perform_mcp_handshake`
    unfoldable pub perform_mcp_handshake : ℕ → Store Json World → Option Str × Store Json World
    unfolding call_peer notify_peer init_params
    perform_mcp_handshake i s =
        let (result, s1) = call_peer i (txt "initialize") init_params s in
        elim result [
          | raised message ↦ (some message, s1)
          | value v ↦ notify_peer i (txt "notifications/initialized") (of_members []) s1
        ]

    -- `McpTool::invoke`
    unfoldable pub invoke_remote :
        Option ℕ → Str → ToolCall → Store Json World → ToolResult Json × Store Json World
    unfolding call_peer outcome_result
    invoke_remote none prefix c s = (refuse j (txt "mcp client disconnected"), s)
    invoke_remote (some i) prefix c s = elim (parse c.arguments) [
      | none ↦ (refuse j (txt "invalid arguments"), s)
      | some params ↦
          let (result, after) =
            call_peer i (txt "tools/call") (call_params (remote_name prefix c.name) params) s in
          (outcome_result result, after)
    ]

    -- an `McpTool`
    unfoldable pub mcp_tool :
        {Ctx : Type 0} → Str → Option ℕ → Str → Tool Json Ctx (Store Json World)
    mcp_tool name client prefix = record {
      name = name;
      declared_resources = txt "mcp" ∷ [];
      resources_for = default_resources_for (txt "mcp" ∷ []);
      invoke = λ c ctx s. invoke_remote client prefix c s;
    }
