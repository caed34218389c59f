-- ===== src/Telnet/Options/Exchange.antt =====
-- negotiate.go: two endpoints that answer each other.
use secure_crt.Base.{ℕ, zero, suc, ◌≢◌, Option, none, some, arith, if◌then◌else◌}
use secure_crt.Telnet.Options.{Options, Reply, answer, receive}

-- A command reaches `a`, its answer reaches `b`, and so on, until one of them is silent. `none`
-- means that more than the given number of commands was delivered.
pub converse : ℕ → Options → Options → Reply → Option (Options × Options)
converse zero a b r = none
converse (suc fuel) a b r =
    let next = receive a r.command r.option in
    let rest = converse fuel b next.0 next.1 in if r.send then rest else some (a, b)

-- Two endpoints never answer each other for ever: from any two tables, consistent or not, a command
-- of either of them is followed by at most three answers, and then both are silent.
pub converse-ne-none :
    (a b : Options) (command opt : ℕ) → converse 5 a b (answer command opt) ≢ none
unfolding converse receive
converse-ne-none a b command opt = ground arith
