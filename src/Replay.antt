-- ===== src/Replay.antt =====
-- core/replay and core/event.hpp: the log of a run, its causal edges and its observers. An
-- observer is a number; what an operation delivers to observers is its second result, in order.
pub mod Sequence
pub mod Observers
use g.Base.{ℕ, zero, List, [], ◌∷◌, ◌++◌, map, length, succ64, max, ◌==◌, if◌then◌else◌}

pub data EventKind : Type 0 where
  turn_started model_requested model_responded tool_called tool_finished : EventKind
  working_set_rendered fact_recalled cache_hit cache_invalidated : EventKind
  progress_scored strategy_switched degraded budget_hit task_ended : EventKind

-- `sequence` 0 asks `record` for the next number.
pub record Event (Json : Type 0) : Type 0 where
  pub kind : EventKind
  pub sequence : ℕ
  pub payload : Json

pub record CausalEdge : Type 0 where
  pub from : ℕ
  pub to : ℕ

pub record Replay (Json : Type 0) : Type 0 where
  pub events : List (Event Json)
  pub edges : List CausalEdge
  pub sinks : List ℕ
  pub last_seq : ℕ

module _ {Json : Type 0} where
  unfoldable pub empty_replay : Replay Json
  empty_replay = record { events = []; edges = []; sinks = []; last_seq = 0 }

  -- the event as it is stored
  unfoldable pub numbered : Event Json → ℕ → Event Json
  numbered e last = if e.sequence == 0 then record e { sequence = succ64 last } else e

  unfoldable pub next_last : Event Json → ℕ → ℕ
  next_last e last = if e.sequence == 0 then succ64 last else max last e.sequence

  -- `record(const Event&)`
  unfoldable pub record_event : Event Json → Replay Json → Replay Json × List (ℕ × Event Json)
  record_event event r =
      let e = numbered event r.last_seq in
      (
        record r { events = r.events ++ e ∷ []; last_seq = next_last event r.last_seq },
        map (λ sink. (sink, e)) r.sinks,
      )

  -- `record(EventKind, json)`
  unfoldable pub record_kind : EventKind → Json → Replay Json → Replay Json × List (ℕ × Event Json)
  unfolding record_event
  record_kind kind payload = record_event (record { kind = kind; sequence = 0; payload = payload })

  unfoldable pub link : ℕ → ℕ → Replay Json → Replay Json
  link from to r = record r { edges = r.edges ++ (record { from = from; to = to }) ∷ [] }

  unfoldable pub subscribe : ℕ → Replay Json → Replay Json
  subscribe sink r = record r { sinks = r.sinks ++ sink ∷ [] }

  unfoldable pub clear : Replay Json → Replay Json
  clear r = empty_replay

  unfoldable pub size : Replay Json → ℕ
  size r = length r.events

  -- what `replay_into` delivers
  unfoldable pub replay_into : ℕ → Replay Json → List (ℕ × Event Json)
  replay_into sink r = map (λ e. (sink, e)) r.events
