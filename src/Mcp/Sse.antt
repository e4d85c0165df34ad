-- ===== src/Mcp/Sse.antt =====
-- mcp/mcp_host: `SseTransport`. The client to server messages are posts of the HTTP library, which
-- is a parameter; the event thread gets the server's stream in chunks, cuts it into frames and
-- queues their data. The model's record also holds the thread's buffer.
use g.Base.{
  ℕ, zero, suc, Bool, false, ◌&&◌, ◌||◌, not, List, [], ◌∷◌, ◌++◌, Option, none, some, Str, txt,
  length, if◌then◌else◌, is_empty, ◌==◌, leb, ltb, decimal, starts_with, drop,
}
use g.Facts.{lines, strip_cr}

pub record SseTransport : Type 0 where
  pub post_endpoint : Str
  pub get_endpoint : Str
  pub session_id : Str
  pub buffer : Str
  pub queue : List Str
  pub closing : Bool
  pub stream_alive : Bool

-- the constructor, before it starts the event thread
unfoldable pub new_transport : Str → Str → Str → SseTransport
new_transport post get session = record {
  post_endpoint = post;
  get_endpoint = get;
  session_id = session;
  buffer = [];
  queue = [];
  closing = false;
  stream_alive = false;
}

-- An answer of the HTTP library; names of headers are compared as that library does.
pub record Response : Type 0 where
  pub status : ℕ
  pub header : Str → Option Str

unfoldable pub session_url : Str → Str → Str
session_url endpoint session = if is_empty session then endpoint else endpoint ++ 47 ∷ session

-- the session that a first answer names
unfoldable pub take_session : Response → SseTransport → SseTransport
take_session res t =
    if is_empty t.session_id
    then elim (res.header (txt "Mcp-Session-Id")) [
      | some id ↦ record t { session_id = id }
      | none ↦ elim (res.header (txt "mcp-session-id")) [
        | some id ↦ record t { session_id = id }
        | none ↦ t
      ]
    ]
    else t

module _ {World : Type 0} where
  -- `send`, with the text of its exception
  unfoldable pub send :
      (Str → Str → World → Option Response × World)
      → Str
      → SseTransport
      → World
      → Option Str × SseTransport × World
  unfolding session_url take_session
  send post payload t w =
      let (res, w1) = post (session_url t.post_endpoint t.session_id) payload w in
      elim res [
        | none ↦ (some (txt "sse transport: post failed"), t, w1)
        | some r ↦
            if ltb r.status 200 || leb 300 r.status
            then (some (txt "sse transport: post status " ++ decimal r.status), t, w1)
            else (none, take_session r t, w1)
      ]

  -- the end of the destructor, after the thread has ended
  unfoldable pub end_session : (Str → World → World) → SseTransport → World → World
  end_session delete t w =
      if is_empty t.session_id then w else delete (t.post_endpoint ++ 47 ∷ t.session_id) w

-- the text after "data:", less one space
unfoldable pub payload_of : Str → Str
payload_of line = elim (drop 5 line) [ [] ↦ [] | c ∷ s ↦ if c == 32 then s else c ∷ s ]

-- one round of the loop in `parse_frame`
unfoldable pub add_line : Str → Str → Str
unfolding payload_of
add_line payload line =
    let l = strip_cr line in
    if starts_with (txt "data:") l
    then (if is_empty payload then payload_of l else payload ++ 10 ∷ payload_of l)
    else payload

unfoldable pub add_lines : Str → List Str → Str
add_lines payload [] = payload
add_lines payload (l ∷ ls) = add_lines (add_line payload l) ls

-- `parse_frame`
unfoldable pub parse_frame : Str → Str
parse_frame raw = add_lines [] (lines raw)

-- `push_frame`
unfoldable pub push_frame : Str → SseTransport → SseTransport
push_frame payload t = if is_empty payload then t else record t { queue = t.queue ++ payload ∷ [] }

unfoldable pub push_eof : SseTransport → SseTransport
push_eof t = record t { stream_alive = false }

-- the parts before and after the first empty line, `buffer.find("\n\n")`
unfoldable pub split_frame : Str → Option (Str × Str)
split_frame [] = none
split_frame (c ∷ []) = none
split_frame (c ∷ d ∷ s) =
    let rest = split_frame (d ∷ s) in
    if c == 10 && d == 10
    then some ([], s)
    else elim rest [ none ↦ none | some (a, b) ↦ some (c ∷ a, b) ]

-- the loop of `on_chunk`, with fuel
unfoldable pub drain : ℕ → SseTransport → SseTransport
unfolding split_frame
drain zero t = t
drain (suc n) t = elim (split_frame t.buffer) [
  | none ↦ t
  | some (frame, rest) ↦ drain n (push_frame (parse_frame frame) (record t { buffer = rest }))
]

unfoldable pub fill : Str → SseTransport → SseTransport
fill payload t = record t { buffer = t.buffer ++ payload }

-- `on_chunk`; each round takes two bytes or more, so that the fuel is enough
unfoldable pub on_chunk : Str → SseTransport → SseTransport
unfolding drain fill
on_chunk payload t = drain (length (t.buffer ++ payload)) (fill payload t)

-- the chunks that the thread gets
unfoldable pub on_chunks : List Str → SseTransport → SseTransport
on_chunks [] t = t
on_chunks (c ∷ cs) t = on_chunks cs (on_chunk c t)

-- `receive`: `none` where it waits, and the empty text where the stream has ended
unfoldable pub receive : SseTransport → Option (Str × SseTransport)
receive t = elim t.queue [
  | [] ↦ if t.closing || not t.stream_alive then some ([], t) else none
  | m ∷ ms ↦ some (m, record t { queue = ms })
]
