-- ===== src/Platform/Windows.antt =====
-- platform/windows_platform: `run` of a program, with its output read and a deadline kept, and the
-- file operations that compute something. The calls of the Windows API are parameters; the world has
-- the clock, in nanoseconds.
pub mod Command
pub mod Ending
use g.Base.{
  ℕ, zero, suc, ◌+◌, ◌-◌, ◌*◌, ◌/◌, ◌%◌, ◌^◌, max, Bool, true, false, ◌||◌, List, [], ◌∷◌, ◌++◌,
  Option, none, some, Str, txt, str_eq, if◌then◌else◌, leb, ltb, is_empty, ℤ, pos, negsuc,
}

-- What `WaitForMultipleObjects` returns: the wait timed out or failed, the process has exited, or
-- the pipe can be read.
pub data Signal : Type 0 where
  wait_timeout broken ended piped : Signal

-- The handles that `run` opens.
pub data Handle : Type 0 where
  read_pipe write_pipe process thread : Handle

pub record WindowsApi (World : Type 0) : Type 0 where
  pub create_pipe : World → Option World
  -- `CreateProcessA`, with the command line
  pub create_process : Str → World → Option World
  pub close_handle : Handle → World → World
  pub clock : World → ℕ
  -- none where a call never returns
  pub wait_objects : ℕ → World → Option (Signal × World)
  -- the bytes that were read, none at the end and on an error
  pub read_file : World → Option (Str × World)
  pub terminate_process : World → World
  pub wait_process : World → Option World
  pub exit_code : World → ℕ

pub record ProcessResult : Type 0 where
  pub exit_code : ℤ
  pub stdout_output : Str
  pub stderr_output : Str
  pub timed_out : Bool

-- the loop over the arguments, and what is added at last
unfoldable pub quote_rest : List Str → Str
quote_rest [] = txt " 2>&1"
quote_rest (a ∷ args) = 32 ∷ 34 ∷ a ++ 34 ∷ quote_rest args

unfoldable pub command_text : Str → List Str → Str
unfolding quote_rest
command_text command args = command ++ quote_rest args

-- the milliseconds that remain, one at least, as a `DWORD`
unfoldable pub wait_millis : ℕ → ℕ
wait_millis remaining = max 1 (remaining / 1000000) % 2 ^ 32

-- `static_cast<int>` of a `DWORD`
unfoldable pub int_of_dword : ℕ → ℤ
int_of_dword n = if ltb n (2 ^ 31) then pos n else negsuc (2 ^ 32 - 1 - n)

module _ {World : Type 0} (api : WindowsApi World) where
  -- The loop that reads what is left after the process has exited, with fuel. Here and below there is
  -- none where the fuel is used up, and where a call never returns.
  unfoldable pub drain_pipe : ℕ → Str → World → Option (Str × World)
  drain_pipe zero out w = none
  drain_pipe (suc fuel) out w = elim (api.read_file w) [
    | none ↦ none
    | some (bytes, w1) ↦
        let more = drain_pipe fuel (out ++ bytes) w1 in
        if is_empty bytes then some (out, w1) else more
  ]

  unfoldable pub finish_reading : ℕ → Str → World → Option (Str × Bool × World)
  unfolding drain_pipe
  finish_reading reads out w = elim (drain_pipe reads out w) [
    | none ↦ none
    | some (all, w1) ↦ some (all, false, w1)
  ]

  -- the loop until the deadline, with fuel: the output, and whether the deadline passed
  unfoldable pub watch : ℕ → ℕ → ℕ → Str → World → Option (Str × Bool × World)
  unfolding finish_reading
  watch zero reads deadline out w = none
  watch (suc fuel) reads deadline out w =
      if leb deadline (api.clock w)
      then some (out, true, w)
      else elim (api.wait_objects (wait_millis (deadline - api.clock w)) w) [
        | none ↦ none
        | some (signal, w1) ↦
            let again = watch fuel reads deadline out w1 in
            elim signal [
              | wait_timeout ↦ again
              | broken ↦ some (out, false, w1)
              | ended ↦ finish_reading reads out w1
              | piped ↦ elim (api.read_file w1) [
                | none ↦ none
                | some (bytes, w2) ↦
                    let closed = watch fuel reads deadline out w2 in
                    let more = watch fuel reads deadline (out ++ bytes) w2 in
                    if is_empty bytes then closed else more
              ]
            ]
      ]

  abbrev pub close_all : World → World
  close_all w = api.close_handle read_pipe (api.close_handle thread (api.close_handle process w))

  -- what follows the loop
  unfoldable pub end_process : Str × Bool × World → Option (ProcessResult × World)
  end_process (out, true, w) = elim (api.wait_process (api.terminate_process w)) [
    | none ↦ none
    | some w1 ↦ some (
      record {
        exit_code = negsuc 0;
        stdout_output = out;
        stderr_output = txt "timeout";
        timed_out = true;
      },
      close_all w1,
    )
  ]
  end_process (out, false, w) = elim (api.wait_process w) [
    | none ↦ none
    | some w1 ↦ some (
      record {
        exit_code = int_of_dword (api.exit_code w1);
        stdout_output = out;
        stderr_output = [];
        timed_out = false;
      },
      close_all w1,
    )
  ]

  abbrev pub not_started : Str → ProcessResult
  not_started why = record {
    exit_code = negsuc 0;
    stdout_output = [];
    stderr_output = why;
    timed_out = false;
  }

  -- `run`; fuel for the loop, and for the reads after the exit
  unfoldable pub run_windows : ℕ → ℕ → Str → List Str → ℕ → World → Option (ProcessResult × World)
  unfolding watch end_process command_text
  run_windows fuel reads command args timeout w = elim (api.create_pipe w) [
    | none ↦ some (not_started (txt "create pipe failed"), w)
    | some w1 ↦ elim (api.create_process (command_text command args) w1) [
      | none ↦ some (
        not_started (txt "create process failed"),
        api.close_handle write_pipe (api.close_handle read_pipe w1),
      )
      | some w2 ↦
          let w3 = api.close_handle write_pipe w2 in
          elim (watch fuel reads (api.clock w3 + timeout * 1000000) [] w3) [
            | none ↦ none
            | some reading ↦ end_process reading
          ]
    ]
  ]

-- `file_size`, from the two halves of the size
unfoldable pub windows_file_size : Option (ℕ × ℕ) → ℕ
windows_file_size none = 0
windows_file_size (some (high, low)) = high * 2 ^ 32 + low

-- the loop of `list_dir` over what is found
unfoldable pub visible_names : List Str → List Str
visible_names [] = []
visible_names (name ∷ found) =
    let rest = visible_names found in
    if str_eq name (txt ".") || str_eq name (txt "..") then rest else name ∷ rest
