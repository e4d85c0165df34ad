-- ===== src/Platform/Windows/Ending.antt =====
-- The run of a program on Windows ends.
use g.Base.{
  ◌≡◌, refl, ◌⊎◌, ◌^◌, ℕ, zero, suc, ◌+◌, ◌*◌, ◌≤◌, ◌<◌, refl, Bool, true, false, List, [], Option,
  none, some, Str, txt, negsuc,
}
use g.Platform.Windows.{
  WindowsApi, Signal, piped, ProcessResult, int_of_dword, close_all, not_started, command_text,
  write_pipe, read_pipe,
}

module _ {World : Type 0} (api : WindowsApi World) where
  -- A wait with a timeout that is not infinite returns, and some time has passed then; a read of a pipe
  -- that is reported as readable returns; and no call sets the clock back.
  pub record IsTimed : Type 0 where
    pub waited :
        (w : World) (t : ℕ)
        → suc t < 2 ^ 32
        → (r : Signal × World) × (api.wait_objects t w ≡ some r)
    pub in_wait :
        (w w1 : World) (t : ℕ) (signal : Signal)
        → api.wait_objects t w ≡ some (signal, w1)
        → api.clock w < api.clock w1
    pub readable :
        (w w1 : World) (t : ℕ)
        → api.wait_objects t w ≡ some (piped, w1)
        → (r : Str × World) × (api.read_file w1 ≡ some r)
    pub in_read :
        (w w1 : World) (bytes : Str)
        → api.read_file w ≡ some (bytes, w1)
        → api.clock w ≤ api.clock w1

  -- Of this many reads in a row each returns, and one gives no bytes.
  unfoldable pub ClosesWithin : ℕ → World → Type 0
  ClosesWithin zero w = ⊥
  ClosesWithin (suc n) w =
      (bytes : Str) × (w1 : World) × (api.read_file w ≡ some (bytes, w1))
      × ((bytes ≡ []) ⊎ ClosesWithin n w1)

  -- Whoever holds the other end of the pipe after the exit closes it within this many reads.
  abbrev pub Drains : ℕ → Type 0
  Drains reads = (w : World) → ClosesWithin reads w

  -- A process that has closed its output, or is terminated, comes to its end.
  abbrev pub Exits : Type 0
  Exits = (w : World) → (w1 : World) × (api.wait_process w ≡ some w1)

  abbrev kept : Option (Str × World) → Option (Str × Bool × World)
  kept none = none
  kept (some (all, w)) = some (all, false, w)

  -- The process of this command was started, and its run began here.
  pub record Begins (command : Str) (args : List Str) (w begun : World) : Type 0 where
    pub piped_world : World
    pub made_pipe : api.create_pipe w ≡ some piped_world
    pub started_world : World
    pub started : api.create_process (command_text command args) piped_world ≡ some started_world
    pub from_here : begun ≡ api.close_handle write_pipe started_world

  -- How a run ends: it is refused at the start, where one of the two calls fails; or it is over, and
  -- has the exit code of the process that was waited for; or the deadline, counted from its own start,
  -- has passed, and the process is terminated and waited for. The two that started have closed their
  -- handles.
  pub data IsRun (command : Str) (args : List Str) (timeout : ℕ) (w : World)
      : Option (ProcessResult × World) → Type 0 where
    no_pipe :
        api.create_pipe w ≡ none
        → IsRun command args timeout w (some (not_started api (txt "create pipe failed"), w))
    no_process :
        (w1 : World)
        → api.create_pipe w ≡ some w1
        → api.create_process (command_text command args) w1 ≡ none
        → IsRun command args timeout w (
            some (
              not_started api (txt "create process failed"),
              api.close_handle write_pipe (api.close_handle read_pipe w1),
            ))
    over :
        (out : Str) (begun before after : World)
        → Begins command args w begun
        → api.wait_process before ≡ some after
        → IsRun command args timeout w (
            some (
              record {
                exit_code = int_of_dword (api.exit_code after);
                stdout_output = out;
                stderr_output = [];
                timed_out = false;
              },
              close_all api after,
            ))
    overdue :
        (out : Str) (begun before after : World)
        → Begins command args w begun
        → api.clock begun + timeout * 1000000 ≤ api.clock before
        → api.wait_process (api.terminate_process before) ≡ some after
        → IsRun command args timeout w (
            some (
              record {
                exit_code = negsuc 0;
                stdout_output = out;
                stderr_output = txt "timeout";
                timed_out = true;
              },
              close_all api after,
            ))
