-- ===== src/Mcp/Starting.antt =====
-- The start of the event thread: the constructor sets `stream_alive_` after it has started the
-- thread, so that what the thread does may come before that.
use g.Base.{
  if◌then◌else◌, ◌≡◌, ◌≢◌, refl, Bool, true, false, not, ◌||◌, List, [], ◌∷◌, Option, none, some,
  Str,
}
use g.Mcp.Sse.{SseTransport, on_chunk, push_eof, receive}

-- The transport, whether the thread has ended, and whether the constructor has set the flag.
pub record Started : Type 0 where
  pub transport : SseTransport
  pub ended : Bool
  pub flagged : Bool

-- `stream_alive_ = true`, after the thread has started
unfoldable pub set_alive : SseTransport → SseTransport
set_alive t = record t { stream_alive = true }

-- What the thread and the constructor may do next, in any order.
pub data Step (s : Started) : Started → Type 0 where
  chunk :
      (bytes : Str) → s.ended ≡ false → Step s (record s { transport = on_chunk bytes s.transport })
  eof : s.ended ≡ false → Step s (record s { transport = push_eof s.transport; ended = true })
  flag : s.flagged ≡ false → Step s (record s { transport = set_alive s.transport; flagged = true })

pub data Steps (s : Started) : Started → Type 0 where
  stay : Steps s s
  also : {a b : Started} → Steps s a → Step a b → Steps s b

-- The thread has ended before the flag was set, and it queued nothing.
pub record IsEarly (s : Started) : Type 0 where
  pub over : s.ended ≡ true
  pub no_message : s.transport.queue ≡ []
  pub not_closing : s.transport.closing ≡ false
  pub alive : s.flagged ≡ true → s.transport.stream_alive ≡ true

Step-IsEarly : {s b : Started} → IsEarly s → Step s b → IsEarly b
unfolding set_alive
Step-IsEarly e (chunk bytes running) = cc (running, e.over)
Step-IsEarly e (eof running) = cc (running, e.over)
Step-IsEarly e (flag unset) = record {
  over = e.over;
  no_message = e.no_message;
  not_closing = e.not_closing;
  alive = λ _. refl;
}

Steps-IsEarly : {s b : Started} → IsEarly s → Steps s b → IsEarly b
Steps-IsEarly e stay = e
Steps-IsEarly e (also past next) = Step-IsEarly (Steps-IsEarly e past) next

-- A thread whose stream ends, without a message, before the constructor sets the flag leaves a transport that
-- says it is alive: once the constructor has set the flag, a receiver waits, whatever steps were taken.
pub Steps-waits :
    {s b : Started} → IsEarly s → Steps s b → b.flagged ≡ true → receive b.transport ≡ none
unfolding receive
Steps-waits e steps set =
    let after = Steps-IsEarly e steps in
    rw (receive, after.no_message, after.not_closing, after.alive set) refl

record IsLate (s : Started) : Type 0 where
  set : s.flagged ≡ true
  dead : s.ended ≡ true → s.transport.stream_alive ≡ false

Step-IsLate : {s b : Started} → IsLate s → Step s b → IsLate b
unfolding push_eof
Step-IsLate e (chunk bytes running) = record { set = e.set; dead = λ over. cc (over, running) }
Step-IsLate e (eof running) = record { set = e.set; dead = λ _. refl }
Step-IsLate e (flag unset) = cc (unset, e.set)

Steps-IsLate : {s b : Started} → IsLate s → Steps s b → IsLate b
Steps-IsLate e stay = e
Steps-IsLate e (also past next) = Step-IsLate (Steps-IsLate e past) next

-- what `receive` does with its queue and its flags
returns :
    (queue : List Str) (closing alive : Bool) (t : SseTransport)
    → alive ≡ false
    → (elim queue as (λ _. Option (Str × SseTransport)) [
      | [] ↦ if closing || not alive then some ([], t) else none
      | m ∷ ms ↦ some (m, record t { queue = ms })
    ])
      ≢ none
returns [] true alive t dead = λ e. cc e
returns [] false true t dead = cc dead
returns [] false false t dead = λ e. cc e
returns (m ∷ ms) closing alive t dead = λ e. cc e

receive-dead : (t : SseTransport) → t.stream_alive ≡ false → receive t ≢ none
unfolding receive
receive-dead t dead = returns t.queue t.closing t.stream_alive t dead

-- Where the flag is set while the thread still runs, nobody waits for a stream that has ended: after any
-- steps, once the thread has ended, `receive` returns at once.
pub Steps-receives :
    {s b : Started}
    → s.flagged ≡ true
    → s.ended ≡ false
    → Steps s b
    → b.ended ≡ true
    → receive b.transport ≢ none
Steps-receives {s} {b} set running steps over =
    receive-dead b.transport
      ((Steps-IsLate (record { set = set; dead = λ o. cc (o, running) }) steps).dead over)
