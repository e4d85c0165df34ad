-- ===== src/Platform/Reading.antt =====
-- The reading of a child's output ends.
use g.Base.{
  ℕ, zero, suc, ◌+◌, ◌-◌, ◌*◌, ◌≤◌, ◌<◌, sym, ap, ◌∙◌, ◌≡◌, refl, max, ◌/◌, ◌%◌, ◌^◌, ◌⊎◌, pos,
  negsuc, subst, Bool, true, false, List, [], ◌∷◌, ◌++◌, append_assoc, append-nil, Option, none,
  some, Str, if◌then◌else◌, leb, ℤ, arith, Bool-cases, Option-cases, ◌≢◌, leb→le, inl, inr,
  is_empty,
}
use g.Platform.{
  Wait, exited, signalled, wait_interrupted, wait_failed, System, Poll, interrupted, failed, quiet,
  readable, invalid, read_output, poll_timeout, reap, stop_child, grace, conclude, exec_argv,
}

-- `clock` reads the clock of the world.
module _ {World : Type 0} (clock : World → ℕ) where
  -- A reading that ended: its output starts with what was read before, and it is late only where
  -- the deadline has passed.
  pub data IsRead (deadline : ℕ) (out : Str) : Option (Str × Bool × World) → Type 0 where
    in_time : (more : Str) (w : World) → IsRead deadline out (some (out ++ more, false, w))
    late :
        (more : Str) (w : World)
        → deadline ≤ clock w
        → IsRead deadline out (some (out ++ more, true, w))

  pub IsRead-append :
      (deadline : ℕ) (out bytes : Str) (r : Option (Str × Bool × World))
      → IsRead deadline (out ++ bytes) r
      → IsRead deadline out r
  IsRead-append deadline out bytes r (in_time more w) =
      subst (λ o. IsRead deadline out (some (o, false, w))) (sym (append_assoc out bytes more))
        (in_time (bytes ++ more) w)
  IsRead-append deadline out bytes r (late more w h) =
      subst (λ o. IsRead deadline out (some (o, true, w))) (sym (append_assoc out bytes more))
        (late (bytes ++ more) w h)

  pub ends : (deadline : ℕ) (out : Str) (w : World) → IsRead deadline out (some (out, false, w))
  ends deadline out w =
      subst (λ o. IsRead deadline out (some (o, false, w))) (append-nil out) (in_time [] w)

  pub IsRead-some :
      (deadline : ℕ) (out : Str)
      → (r : Option (Str × Bool × World)) → IsRead deadline out r
      → r ≢ none
  IsRead-some deadline out r (in_time more w) = λ x. cc x
  IsRead-some deadline out r (late more w h) = λ x. cc x

-- What is left of less than 2^31 milliseconds is a timeout of `poll` that is not negative.
in_time_of : (left : ℕ) → left < 2 ^ 31 * 1000000 → (t : ℕ) × (poll_timeout left ≡ pos t)
unfolding poll_timeout
in_time_of left h = (max 1 (left / 1000000) % 2 ^ 32, ground arith)

module _ {World : Type 0} (s : System World) where
  -- A call of `poll` with a timeout that is not negative returns, and some time has passed then; no
  -- call sets the clock back.
  pub record Passes : Type 0 where
    pub polled : (w : World) (t : ℕ) → (r : Poll × World) × (s.poll (pos t) w ≡ some r)
    pub in_poll :
        (w w1 : World) (t : ℤ) (p : Poll) → s.poll t w ≡ some (p, w1) → s.clock w < s.clock w1
    pub in_read : (w : World) → s.clock w ≤ s.clock (s.read w).1

  -- The branches on what `poll` returns.
  after_poll :
      (deadline : ℕ) (p : Poll) (out bytes : Str) (w1 w2 : World)
      (again more : Option (Str × Bool × World))
      → IsRead s.clock deadline out again
      → IsRead s.clock deadline (out ++ bytes) more
      → IsRead s.clock deadline out (elim p as (λ _. Option (Str × Bool × World)) [
        | interrupted ↦ again
        | failed ↦ some (out, false, w1)
        | quiet ↦ again
        | readable ↦ if is_empty bytes then some (out, false, w2) else more
        | invalid ↦ some (out, false, w1)
      ])
  after_poll deadline interrupted out bytes w1 w2 again more a m = a
  after_poll deadline failed out bytes w1 w2 again more a m = ends s.clock deadline out w1
  after_poll deadline quiet out bytes w1 w2 again more a m = a
  after_poll deadline readable out [] w1 w2 again more a m = ends s.clock deadline out w2
  after_poll deadline readable out (b ∷ bytes) w1 w2 again more a m =
      IsRead-append s.clock deadline out (b ∷ bytes) more m
  after_poll deadline invalid out bytes w1 w2 again more a m = ends s.clock deadline out w1

  -- Whatever the child and the signals do, the reading ends, if `poll` keeps to its timeout, no call
  -- sets the clock back and less than 2^31 milliseconds are left: a round for each nanosecond that is
  -- left, and one more, are enough. It keeps what was read, and says that it is late only if the
  -- deadline has passed.
  pub read_output-IsRead :
      (fuel deadline : ℕ) (out : Str) (w : World)
      → Passes
      → deadline - s.clock w < fuel
      → deadline - s.clock w < 2 ^ 31 * 1000000
      → IsRead s.clock deadline out (read_output s fuel deadline out w)
  unfolding read_output
  read_output-IsRead zero deadline out w p lt short =
      let none_left : ⊥ = omega arith in elim none_left [ ]
  read_output-IsRead (suc fuel) deadline out w p lt short =
      elim (Bool-cases (leb deadline (s.clock w))) [
        | inl e ↦
            rw (read_output, e)
              (subst (λ o. IsRead s.clock deadline out (some (o, true, w))) (append-nil out)
                (late [] w (leb→le deadline (s.clock w) e)))
        | inr e ↦
            let left = deadline - s.clock w in
            let (asked, fits) = in_time_of left short in
            let (answer, returned) = p.polled w asked in
            let a : s.poll (poll_timeout left) w ≡ some answer =
              ap (λ x. s.poll x w) fits ∙ returned in
            let got = s.read answer.1 in
            let early : s.clock w < deadline = ground (arith, e) in
            let step : s.clock w < s.clock answer.1 =
              p.in_poll w answer.1 (poll_timeout left) answer.0 a in
            let read_step : s.clock answer.1 ≤ s.clock got.1 = p.in_read answer.1 in
            rw (read_output, e, a)
              (after_poll deadline answer.0 out got.0 answer.1 got.1 _ _
                (read_output-IsRead fuel deadline out answer.1 p (omega arith) (omega arith))
                (read_output-IsRead fuel deadline (out ++ got.0) got.1 p (omega arith)
                  (omega arith)))
      ]

  -- Of this many waits in a row each returns, and one is not cut short by a signal.
  unfoldable pub EndsWithin : ℕ → World → Type 0
  EndsWithin zero w = ⊥
  EndsWithin (suc n) w =
      (r : Wait) × (w1 : World) × (s.wait w ≡ some (r, w1))
      × ((r ≢ wait_interrupted) ⊎ EndsWithin n w1)

  -- A child whose output has ended, or that was killed, comes to its own end.
  abbrev pub Settles : ℕ → Type 0
  Settles n = (w : World) → EndsWithin n w

  after_interrupt :
      (n : ℕ) (r : Wait) (w1 : World)
      → ((r ≢ wait_interrupted) ⊎ EndsWithin n w1)
      → (EndsWithin n w1 → reap s n w1 ≢ none)
      → (elim r as (λ _. Option (ℤ × World)) [
        | exited n ↦ some (pos n, w1)
        | signalled ↦ some (negsuc 0, w1)
        | wait_interrupted ↦ reap s n w1
        | wait_failed ↦ some (pos 0, w1)
      ])
        ≢ none
  after_interrupt n (exited code) w1 h go = λ x. cc x
  after_interrupt n signalled w1 h go = λ x. cc x
  after_interrupt n wait_interrupted w1 (inl other) go = absurd (other refl)
  after_interrupt n wait_interrupted w1 (inr later) go = go later
  after_interrupt n wait_failed w1 h go = λ x. cc x

  reap-ends : (n : ℕ) (w : World) → EndsWithin n w → reap s n w ≢ none
  unfolding reap EndsWithin
  reap-ends zero w h = elim h [ ]
  reap-ends (suc n) w (r, w1, e, h) = rw (reap, e) (after_interrupt n r w1 h (reap-ends n w1))

  stop_child-ends : (n : ℕ) (w : World) → Settles n → stop_child s n w ≢ none
  unfolding stop_child
  stop_child-ends n w h = elim (Bool-cases ((grace s 20 (s.terminate w)).0)) [
    | inl over ↦ rw (stop_child, over) (λ e. cc e)
    | inr over ↦ elim (Option-cases (reap s n (s.kill (grace s 20 (s.terminate w)).1))) [
      | inl none_left ↦
          elim (reap-ends n (s.kill (grace s 20 (s.terminate w)).1) (h _) none_left) [ ]
      | inr (r, reaped) ↦ rw (stop_child, over, reaped) (λ e. cc e)
    ]
  ]

  conclude-ends :
      (n : ℕ) (out : Str) (passed : Bool) (w : World)
      → Settles n
      → conclude s n (out, passed, w) ≢ none
  unfolding conclude
  conclude-ends n out true w h = elim (Option-cases (stop_child s n w)) [
    | inl none_left ↦ elim (stop_child-ends n w h none_left) [ ]
    | inr (r, e) ↦ rw (conclude, e) (λ x. cc x)
  ]
  conclude-ends n out false w h = elim (Option-cases (reap s n w)) [
    | inl none_left ↦ elim (reap-ends n w (h w) none_left) [ ]
    | inr (r, e) ↦ rw (conclude, e) (λ x. cc x)
  ]

  -- A tool's program is always run to an end, under the same conditions: fuel for the 30 seconds is enough.
  pub exec_argv-ends :
      (fuel waits : ℕ) (program : Str) (args : List Str) (w : World)
      → Passes
      → Settles waits
      → 30000 * 1000000 < fuel
      → exec_argv s fuel waits program args w ≢ none
  unfolding exec_argv
  exec_argv-ends fuel waits program args w p h lt = elim (Option-cases (s.start program args w)) [
    | inl e ↦ rw (exec_argv, e) (λ x. cc x)
    | inr (w1, e) ↦
        let deadline : ℕ = s.clock w1 + 30000 * 1000000 in
        let left : deadline - s.clock w1 < fuel = omega arith in
        let read = read_output-IsRead fuel deadline [] w1 p left (omega arith) in
        elim (Option-cases (read_output s fuel deadline [] w1)) [
          | inl none_left ↦ elim (IsRead-some s.clock deadline [] _ read none_left) [ ]
          | inr (reading, f) ↦ elim (Option-cases (conclude s waits reading)) [
            | inl stuck ↦ elim (conclude-ends waits reading.0 reading.1 reading.2 h stuck) [ ]
            | inr (run, g) ↦ rw (exec_argv, e, f, g) (λ x. cc x)
          ]
        ]
  ]
