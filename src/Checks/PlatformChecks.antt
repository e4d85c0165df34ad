-- ===== src/Checks/PlatformChecks.antt =====
-- A child that says nothing until its deadline.
use g.Base.{txt, Option, ◌≡◌, refl, ℕ, ◌+◌, true, [], ◌∷◌, ◌++◌, some}
use g.Platform.Windows.{WindowsApi, ended, command_text, quote_rest}
use g.Platform.{System, quiet, exited}

-- The world is the clock.
abbrev silent : System ℕ
silent = record {
  start = λ program args w. some w;
  clock = λ w. w;
  poll = λ t w. some (quiet, w + 3);
  read = λ w. ([], w);
  terminate = λ w. w;
  kill = λ w. w;
  nap = λ w. w;
  try_wait = λ w. (true, w);
  wait = λ w. some (exited 0, w);
}

-- A program that writes one line and exits.
abbrev brief : WindowsApi ℕ
brief = record {
  create_pipe = λ w. some w;
  create_process = λ line w. some w;
  close_handle = λ h w. w;
  clock = λ w. w;
  wait_objects = λ t w. some (ended, w + 1);
  read_file = λ w. some ([], w);
  terminate_process = λ w. w;
  wait_process = λ w. some w;
  exit_code = λ w. 3;
}

-- An argument that holds quotation marks reads as two.
command_text_ambiguous :
    command_text (txt "git") ((txt "a" ++ 34 ∷ 32 ∷ 34 ∷ txt "b") ∷ [])
    ≡ command_text (txt "git") (txt "a" ∷ txt "b" ∷ [])
unfolding command_text quote_rest
command_text_ambiguous = refl
