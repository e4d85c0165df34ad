-- ===== src/Checks/McpChecks.antt =====
-- Streams of a server in chunks, the start of its thread, addresses, and a remote tool.
use g.Base.{
  ℕ, ◌≡◌, refl, true, false, List, [], ◌∷◌, Option, none, some, Str, txt, arith, lookup, str_eq,
}
use g.Json.{JsonLib}
use g.Mcp.Rpc.{Transport, call, notify, read_answer, set_member, new_client}
use g.Mcp.Sse.{SseTransport, split_frame, on_chunk, on_chunks}
use g.Mcp.Framing.{joined_chunks, on_chunks-on_chunk}
use g.Mcp.Streams.{frames_of, crlf_lines, on_chunks-frames_of, on_chunks-crlf_lines}
use g.Mcp.Starting.{Started}
use g.Mcp.UrlParts.{Parts, print_url, parts_of, parse_url-print_url}
use g.Mcp.Url.{parse_url}
use g.Mcp.Host.{
  Store, McpToolSpec, full_name, remote_name, call_peer, mcp_tool, notify_peer,
  perform_mcp_handshake,
}
use g.Mcp.Attach.{
  McpHost, register_remote_tool, attach, list_tools, register_tools_from_payload, register_entries,
  read_spec, text_member, tool_names,
}
use g.Mcp.Naming.{IsListed, remote_name-full_name, attach-IsListed}

abbrev fresh : SseTransport
fresh = record {
  post_endpoint = txt "/mcp";
  get_endpoint = txt "/mcp";
  session_id = [];
  buffer = [];
  queue = [];
  closing = false;
  stream_alive = false;
}

on_chunks-on_chunk_example :
    on_chunks (txt "data: a" ∷ (10 ∷ []) ∷ (10 ∷ []) ∷ []) fresh
    ≡ on_chunk (joined_chunks (txt "data: a" ∷ (10 ∷ []) ∷ (10 ∷ []) ∷ [])) fresh
on_chunks-on_chunk_example = on_chunks-on_chunk (txt "data: a") ((10 ∷ []) ∷ (10 ∷ []) ∷ []) fresh

on_chunks-frames_of_example :
    on_chunks (txt "data: a" ∷ (10 ∷ []) ∷ (10 ∷ 120 ∷ []) ∷ []) fresh
    ≡ record fresh { buffer = txt "x"; queue = txt "a" ∷ [] }
unfolding joined_chunks frames_of split_frame
on_chunks-frames_of_example =
    on_chunks-frames_of (txt "data: a") ((10 ∷ []) ∷ (10 ∷ 120 ∷ []) ∷ []) (txt "a" ∷ []) (txt "x")
      fresh ((refl, ((omega arith, omega arith), tt)), tt) refl refl refl

on_chunks-crlf_lines_example :
    on_chunks (txt "data: a" ∷ (13 ∷ 10 ∷ []) ∷ (13 ∷ 10 ∷ []) ∷ []) fresh
    ≡ record fresh { buffer = crlf_lines (txt "data: a" ∷ [] ∷ []) }
unfolding joined_chunks crlf_lines
on_chunks-crlf_lines_example =
    on_chunks-crlf_lines (txt "data: a") ((13 ∷ 10 ∷ []) ∷ (13 ∷ 10 ∷ []) ∷ [])
      (txt "data: a" ∷ [] ∷ []) fresh (ground arith) refl refl

-- The stream has ended, and the flag is not set yet.
abbrev early : Started
early = record { transport = fresh; ended = true; flagged = false }

-- The flag is set, and the thread runs.
abbrev running : Started
running = record { transport = record fresh { stream_alive = true }; ended = false; flagged = true }

abbrev address : Parts
address = record { scheme = txt "https"; host = txt "h"; port = some 8080; path = some (txt "mcp") }

parse_url-print_url_example : parse_url (print_url address) ≡ some (parts_of address)
parse_url-print_url_example = parse_url-print_url address (record {
  scheme_chars = ground arith;
  host_colon = ground arith;
  host_slash = ground arith;
  port_size = omega arith;
})

remote_name-full_name_example :
    remote_name (txt "files") (full_name (txt "files") (txt "list")) ≡ txt "list"
remote_name-full_name_example = remote_name-full_name (txt "files") (txt "list")

-- The answer of a server, its result, the list of its tools, a tool, and the tool's name.
data Answer : Type 0 where
  answer result tool_list tool_entry tool_name other : Answer

answer_members : Answer → Option (List (Str × Answer))
answer_members answer = some ((txt "result", result) ∷ [])
answer_members result = some ((txt "tools", tool_list) ∷ [])
answer_members tool_entry = some ((txt "name", tool_name) ∷ [])
answer_members _ = none

answer_elements : Answer → Option (List Answer)
answer_elements tool_list = some (tool_entry ∷ [])
answer_elements _ = none

answer_text : Answer → Option Str
answer_text tool_name = some (txt "list")
answer_text _ = none

abbrev answers : JsonLib
answers = record {
  Json = Answer;
  null = other;
  is_null = λ v. false;
  parse = λ s. some answer;
  dump = λ v. txt "{}";
  members = answer_members;
  elements = answer_elements;
  as_string = answer_text;
  as_boolean = λ v. none;
  as_unsigned = λ v. none;
  integer_text = λ v. none;
  float_text = λ v. none;
  of_string = λ s. other;
  of_number = λ n. other;
  of_boolean = λ b. other;
  of_members = λ ms. other;
  of_elements = λ vs. other;
}

-- A transport that always gets the same text.
abbrev server : Transport ℕ
server = record { send = λ text w. (none, w); receive = λ w. (txt "{}", w) }

abbrev no_tools : McpHost answers (txt "type error") ℕ ℕ
no_tools = record { tools = []; registry = [] }

abbrev no_clients : Store Answer ℕ
no_clients = record { clients = []; outside = 0 }

attach_names :
    tool_names answers
      (txt "type error")
      ((attach answers (txt "type error") (some server) (txt "files") no_tools no_clients).1)
    ≡ txt "files__list" ∷ []
unfolding attach list_tools perform_mcp_handshake call_peer notify_peer call notify read_answer
    set_member answer_members answer_elements answer_text register_tools_from_payload
    register_entries read_spec text_member register_remote_tool full_name tool_names lookup str_eq
    mcp_tool new_client
attach_names = refl

attach-IsListed_example :
    IsListed answers
      (txt "type error")
      ((attach answers (txt "type error") (some server) (txt "files") no_tools no_clients).1)
unfolding tool_names
attach-IsListed_example =
    attach-IsListed answers (txt "type error") (some server) (txt "files") no_tools no_clients tt

abbrev list_spec : McpToolSpec Answer
list_spec = record { name = txt "list"; description = []; schema = other }

abbrev connected : Store Answer ℕ
connected = record {
  clients = record { transport = server; client = record { next_id = 1; handlers = [] } } ∷ [];
  outside = 0;
}
