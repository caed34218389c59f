-- ===== src/Telnet/Conn/Failure.antt =====
-- conn.go: which failure a connection reports, whatever the order in which the two critical sections of
-- the calls of `fail` come.
use mathlib.Core.Path.{subst}
use secure_crt.Base.{ℕ, ◌≡◌, refl, sym, Bool, true, false, Option, none, some, List, [], ◌∷◌, arith}
use secure_crt.Telnet.Conn.{Conn, NetError, eof, net_closed, other, record_failure, shut}

-- A critical section of a call of `fail`, by any goroutine; `Close` has the second one only.
pub data FailStep : Type 0 where
  records : NetError → FailStep
  shuts : FailStep

unfoldable pub after_fail_step : Conn → FailStep → Conn
after_fail_step c (records err) = record_failure c err
after_fail_step c shuts = shut c

unfoldable pub after_fail_steps : Conn → List FailStep → Conn
after_fail_steps c [] = c
after_fail_steps c (s ∷ steps) = after_fail_steps (after_fail_step c s) steps

-- The first error before the connection is shut that is neither an end of file nor a closed socket.
abbrev pub reported : List FailStep → Option NetError
reported [] = none
reported (shuts ∷ steps) = none
reported (records eof ∷ steps) = reported steps
reported (records net_closed ∷ steps) = reported steps
reported (records (other n) ∷ steps) = some (other n)

abbrev pub is_shut : List FailStep → Bool
is_shut [] = false
is_shut (shuts ∷ steps) = true
is_shut (records err ∷ steps) = is_shut steps

step-closed : (c : Conn) (s : FailStep) → c.closed ≡ true → after_fail_step c s ≡ c
unfolding after_fail_step record_failure shut
step-closed c (records err) h = ground arith
step-closed c shuts h = ground arith

steps-closed : (c : Conn) (steps : List FailStep) → c.closed ≡ true → after_fail_steps c steps ≡ c
unfolding after_fail_steps
steps-closed c [] h = refl
steps-closed c (s ∷ steps) h = rw (step-closed c s h) (steps-closed c steps h)

record_failure-recorded :
    (c : Conn) (err first : NetError) → c.failure ≡ some first → record_failure c err ≡ c
unfolding record_failure
record_failure-recorded c err first h = ground (arith, h)

-- What is asked of a connection, as it is when the sections have come.
abbrev Reports : List FailStep → Option NetError → Bool → Conn → Type 0
Reports steps failure closed c =
    ((after_fail_steps c steps).failure ≡ failure) × ((after_fail_steps c steps).closed ≡ closed)

steps-recorded :
    (c : Conn) (n : ℕ) (steps : List FailStep)
    → c.closed ≡ false
    → c.failure ≡ some (other n)
    → ((after_fail_steps c steps).failure ≡ some (other n))
      × ((after_fail_steps c steps).closed ≡ is_shut steps)
unfolding after_fail_steps after_fail_step shut
steps-recorded c n [] open_ noted = (noted, open_)
steps-recorded c n (shuts ∷ steps) open_ noted = rw (steps-closed (shut c) steps refl) (noted, refl)
steps-recorded c n (records err ∷ steps) open_ noted =
    let same = record_failure-recorded c err (other n) noted in
    subst (Reports steps (some (other n)) (is_shut steps)) (sym same)
      (steps-recorded c n steps open_ noted)

-- Of an open connection that has recorded nothing, whatever the order in which the sections of any calls
-- come: it reports the first error before it is shut that is neither an end of file nor a closed socket, so
-- that those and every later error change nothing; and it is closed as soon as one call has shut it.
pub after_fail_steps_lem :
    (c : Conn) (steps : List FailStep)
    → c.closed ≡ false
    → c.failure ≡ none
    → ((after_fail_steps c steps).failure ≡ reported steps)
      × ((after_fail_steps c steps).closed ≡ is_shut steps)
unfolding after_fail_steps after_fail_step record_failure shut
after_fail_steps_lem c [] open_ fresh = (fresh, open_)
after_fail_steps_lem c (shuts ∷ steps) open_ fresh =
    rw (steps-closed (shut c) steps refl) (fresh, refl)
after_fail_steps_lem c (records eof ∷ steps) open_ fresh =
    let same : record_failure c eof ≡ c = ground arith in
    subst (Reports steps (reported steps) (is_shut steps)) (sym same)
      (after_fail_steps_lem c steps open_ fresh)
after_fail_steps_lem c (records net_closed ∷ steps) open_ fresh =
    let same : record_failure c net_closed ≡ c = ground arith in
    subst (Reports steps (reported steps) (is_shut steps)) (sym same)
      (after_fail_steps_lem c steps open_ fresh)
after_fail_steps_lem c (records (other n) ∷ steps) open_ fresh =
    let noted : record_failure c (other n) ≡ record c { failure = some (other n) } = ground arith in
    subst (Reports steps (some (other n)) (is_shut steps)) (sym noted)
      (steps-recorded (record c { failure = some (other n) }) n steps open_ refl)
