-- ===== src/Telnet/Tests.antt =====
-- Runs of the telnet client at concrete inputs.
use secure_crt.Base.{
  ◌≤◌, ◌≡◌, refl, ◌≢◌, true, none, some, List, Bytes, ◌++◌, [], ◌∷◌, arith, codes, length,
}
use secure_crt.Base.Int.{ℤ}
use secure_crt.Telnet.Protocol.{will, option_name}
use secure_crt.Telnet.Options.{new_options, answer}
use secure_crt.Telnet.Options.Exchange.{converse, converse-ne-none}
use secure_crt.Telnet.Conn.{Env, Conn, eof, other, parse, escape, step, echo_auto}
use secure_crt.Telnet.Conn.Parser.{parse-le}
use secure_crt.Telnet.Conn.Chunks.{with_channel, join, consume_all, consume_all_lem}
use secure_crt.Telnet.Conn.Framing.{parse-escape}
use secure_crt.Telnet.Conn.Failure.{
  FailStep, records, shuts, after_fail_steps, after_fail_steps_lem,
}
use secure_crt.Telnet.Session.{fresh, Config}

-- A socket on which every write succeeds.
abbrev good : Env
good = record { net_write = λ _ _. none; pick_data = λ _. true }

abbrev config : Config
config = record {
  address = codes "switch:23";
  terminal_type = [];
  echo = echo_auto;
  cols = ℤ.pos 300;
  rows = ℤ.negsuc 0;
}

abbrev conn : Conn
conn = fresh good config

converse_example : converse 5 new_options new_options (answer will 3) ≢ none
converse_example = converse-ne-none new_options new_options will 3

-- A subnegotiation and an escaped byte that the reads cut in two.
abbrev cut : List Bytes
cut = (65 ∷ 255 ∷ []) ∷ (250 ∷ 24 ∷ 1 ∷ []) ∷ (255 ∷ 240 ∷ 255 ∷ []) ∷ (255 ∷ 66 ∷ []) ∷ []

consume_all_example :
    (join (consume_all good conn cut).channel ≡ join conn.channel ++ (parse good conn (join cut)).1)
    × (with_channel [] (consume_all good conn cut) ≡ with_channel [] (parse good conn (join cut)).0)
consume_all_example = consume_all_lem good conn cut (λ q. refl)

parse-le_example : length (parse good conn (255 ∷ 250 ∷ 24 ∷ 1 ∷ 2 ∷ [])).0.sb_buf ≤ 256
parse-le_example = parse-le good conn (255 ∷ 250 ∷ 24 ∷ 1 ∷ 2 ∷ []) (omega arith)

parse-escape_example : parse good conn (escape (1 ∷ 255 ∷ 2 ∷ [])) ≡ (conn, 1 ∷ 255 ∷ 2 ∷ [])
parse-escape_example = parse-escape good conn (1 ∷ 255 ∷ 2 ∷ []) refl

split_command : (parse good conn (65 ∷ 255 ∷ 255 ∷ 255 ∷ 241 ∷ 66 ∷ [])).1 ≡ 65 ∷ 255 ∷ 66 ∷ []
unfolding parse step
split_command = refl

-- An end of file is recorded by nothing, and an error after the connection is shut by nothing either.
abbrev sections : List FailStep
sections = records eof ∷ records (other 7) ∷ records (other 8) ∷ shuts ∷ records (other 9) ∷ []

after_fail_steps_example :
    ((after_fail_steps conn sections).failure ≡ some (other 7))
    × ((after_fail_steps conn sections).closed ≡ true)
after_fail_steps_example = after_fail_steps_lem conn sections refl refl

option_names : (option_name 24 ≡ codes "terminal-type") × (option_name 250 ≡ codes "option 250")
unfolding option_name
option_names = (refl, refl)
