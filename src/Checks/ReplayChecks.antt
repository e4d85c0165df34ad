-- ===== src/Checks/ReplayChecks.antt =====
-- A short log with two observers.
use g.Base.{ℕ, ◌≡◌, refl, List, [], ◌∷◌, ◌++◌, arith}
use g.Replay.{Event, turn_started, Replay}
use g.Replay.Sequence.{IsNumbered}
use g.Replay.Observers.{Op, records, links, subscribes, run, inbox, events-run}

abbrev stored : Event ℕ
stored = record { kind = turn_started; sequence = 5; payload = 1 }

abbrev one_event : Replay ℕ
one_event = record { events = stored ∷ []; edges = []; sinks = 9 ∷ []; last_seq = 5 }

one_event-IsNumbered : IsNumbered one_event
one_event-IsNumbered = record { bounded = (omega arith, tt) }

abbrev steps : List (Op ℕ)
steps = records stored ∷ subscribes 3 ∷ links 1 2 ∷ records stored ∷ []

events-run_example :
    (run steps one_event).0.events ≡ one_event.events ++ inbox 9 (run steps one_event).1
events-run_example = events-run 9 steps one_event refl (tt, (refl, (tt, (tt, tt))))
