-- ===== src/Platform.antt =====
-- platform/posix_platform: a program that runs as a child, with its output read and a deadline
-- kept. `BasicContext::exec_argv` of tools/builtin has the same loops. The system calls are
-- parameters; the world has the clock, in nanoseconds.
pub mod Reading
pub mod Windows
use g.Base.{
  ℕ, zero, suc, ◌+◌, ◌-◌, ◌*◌, ◌/◌, ◌%◌, ◌^◌, max, Bool, true, false, List, [], ◌∷◌, ◌++◌, Option,
  none, some, Str, txt, if◌then◌else◌, leb, ltb, is_empty, ℤ, pos, negsuc,
}

-- What `poll` returns: an interruption, another error, nothing, output or the end of it, or an
-- error of the pipe.
pub data Poll : Type 0 where
  interrupted failed quiet readable invalid : Poll

-- What `waitpid` returns: the child has exited, or was ended by a signal, or an interruption, or
-- another error.
pub data Wait : Type 0 where
  exited : ℕ → Wait
  signalled wait_interrupted wait_failed : Wait

pub record System (World : Type 0) : Type 0 where
  -- `pipe`, `fork` and `execvp`; none where one of the first two fails
  pub start : Str → List Str → World → Option World
  pub clock : World → ℕ
  -- none where the call never returns
  pub poll : ℤ → World → Option (Poll × World)
  -- the bytes that were read, none at the end and on an error
  pub read : World → Str × World
  pub terminate : World → World
  pub kill : World → World
  pub nap : World → World
  -- `waitpid` with and without `WNOHANG`
  pub try_wait : World → Bool × World
  -- none where the child never ends
  pub wait : World → Option (Wait × World)

pub record CapturedRun : Type 0 where
  pub status : ℤ
  pub out : Str
  pub timed_out : Bool

-- `static_cast<int>` of the milliseconds that remain, one at least
unfoldable pub poll_timeout : ℕ → ℤ
poll_timeout remaining =
    let r = max 1 (remaining / 1000000) % 2 ^ 32 in
    if ltb r (2 ^ 31) then pos r else negsuc (2 ^ 32 - 1 - r)

module _ {World : Type 0} (s : System World) where
  -- The loop that reads until the deadline, with fuel: the output, and whether the deadline passed.
  -- There is none where the fuel is used up, and where a call never returns.
  unfoldable pub read_output : ℕ → ℕ → Str → World → Option (Str × Bool × World)
  read_output zero deadline out w = none
  read_output (suc fuel) deadline out w =
      if leb deadline (s.clock w)
      then some (out, true, w)
      else elim (s.poll (poll_timeout (deadline - s.clock w)) w) [
        | none ↦ none
        | some (p, w1) ↦
            let (bytes, w2) = s.read w1 in
            let again = read_output fuel deadline out w1 in
            let more = read_output fuel deadline (out ++ bytes) w2 in
            elim p [
              | interrupted ↦ again
              | failed ↦ some (out, false, w1)
              | quiet ↦ again
              | readable ↦ if is_empty bytes then some (out, false, w2) else more
              | invalid ↦ some (out, false, w1)
            ]
      ]

  -- the rounds of the time of grace: has the child ended?
  unfoldable pub grace : ℕ → World → Bool × World
  grace zero w = (false, w)
  grace (suc n) w =
      let (over, w1) = s.try_wait w in
      let later = grace n (s.nap w1) in if over then (true, w1) else later

  -- the loop over `waitpid`, with fuel; a wait that fails leaves the status at zero
  unfoldable pub reap : ℕ → World → Option (ℤ × World)
  reap zero w = none
  reap (suc fuel) w = elim (s.wait w) [
    | none ↦ none
    | some (r, w1) ↦
        let again = reap fuel w1 in
        elim r [
          | exited n ↦ some (pos n, w1)
          | signalled ↦ some (negsuc 0, w1)
          | wait_interrupted ↦ again
          | wait_failed ↦ some (pos 0, w1)
        ]
  ]

  -- the end of a child that passed its deadline
  unfoldable pub stop_child : ℕ → World → Option World
  unfolding grace reap
  stop_child fuel w =
      let (over, w1) = grace 20 (s.terminate w) in
      if over
      then some w1
      else elim (reap fuel (s.kill w1)) [ none ↦ none | some (status, w2) ↦ some w2 ]

  -- what follows the reading
  unfoldable pub conclude : ℕ → Str × Bool × World → Option (CapturedRun × World)
  conclude fuel (out, true, w) = elim (stop_child fuel w) [
    | none ↦ none
    | some w1 ↦ some (record { status = negsuc 0; out = out; timed_out = true }, w1)
  ]
  conclude fuel (out, false, w) = elim (reap fuel w) [
    | none ↦ none
    | some (status, w1) ↦ some (record { status = status; out = out; timed_out = false }, w1)
  ]

  -- `run_captured`; fuel for the reading, and for the waiting
  unfoldable pub run_captured : ℕ → ℕ → Str → List Str → ℕ → World → Option (CapturedRun × World)
  run_captured fuel waits program args timeout w = elim (s.start program args w) [
    | none ↦ some (record { status = negsuc 0; out = []; timed_out = false }, w)
    | some w1 ↦ elim (read_output fuel (s.clock w1 + timeout * 1000000) [] w1) [
      | none ↦ none
      | some reading ↦ conclude waits reading
    ]
  ]

  -- `run`, with a timeout of zero where it is zero or less
  unfoldable pub run_process : ℕ → ℕ → Str → List Str → ℕ → World → Option (CapturedRun × World)
  run_process fuel waits command args timeout w =
      let argv = if is_empty args then txt "/bin/sh" ∷ txt "-c" ∷ command ∷ [] else args in
      let limit = if leb timeout 0 then 31536000000 else timeout in
      run_captured fuel waits command argv limit w

  -- `BasicContext::exec_argv`: 30 seconds, and a message in the output where they pass
  unfoldable pub exec_argv : ℕ → ℕ → Str → List Str → World → Option (Str × World)
  exec_argv fuel waits program args w = elim (s.start program args w) [
    | none ↦ some ([], w)
    | some w1 ↦ elim (read_output fuel (s.clock w1 + 30000 * 1000000) [] w1) [
      | none ↦ none
      | some reading ↦ elim (conclude waits reading) [
        | none ↦ none
        | some (run, w2) ↦ some (
          if run.timed_out
              then run.out
                ++ txt "\n[praxis] tool execution exceeded the 30s deadline; terminating child\n"
              else run.out,
          w2,
        )
      ]
    ]
  ]
