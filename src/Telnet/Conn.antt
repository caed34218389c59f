-- ===== src/Telnet/Conn.antt =====
-- internal/proto/telnetx/conn.go: the connection, its IAC parser and the replies that it writes.
-- The socket is a parameter: what the next write returns, given the writes so far, and which ready
-- arm the `select` of `emit` takes once the connection is closed.
pub mod Parser
pub mod Chunks
pub mod Framing
pub mod Failure
use secure_crt.Base.{
  ℕ, ◌/◌, ◌%◌, ◌-◌, ◌+◌, Bool, true, false, not, ◌&&◌, ◌||◌, List, [], ◌∷◌, ◌++◌, Bytes, Option,
  none, some, ltb, ◌==◌, if◌then◌else◌, length,
}
use secure_crt.Telnet.Protocol.{
  iac, will, wont, do_, dont, sb, se, opt_echo, opt_naws, opt_terminal_type, terminal_type_is,
  terminal_type_send,
}
use secure_crt.Telnet.Options.{
  Options, Reply, new_options, offer_local, ask_remote, receive, enabled_locally, want_local,
  want_remote,
}

pub data NetError : Type 0 where
  eof net_closed : NetError
  other : ℕ → NetError

pub record Env : Type 0 where
  pub net_write : List Bytes → Bytes → Option NetError
  pub pick_data : List Bytes → Bool

pub data EchoMode : Type 0 where
  echo_auto echo_local echo_remote : EchoMode

pub data ParserState : Type 0 where
  state_data state_iac state_option state_subneg state_subneg_iac : ParserState

-- `data` is the channel to `Read`, `wire` the writes to the socket, oldest first. `closed` is also
-- whether `closeOnce` has run and `done` is closed; `reader_done`, whether the channel is closed.
pub record Conn : Type 0 where
  pub terminal_type : Bytes
  pub echo : EchoMode
  pub opts : Options
  pub channel : List Bytes
  pub partial : Bytes
  pub state : ParserState
  pub command : ℕ
  pub sb_option : ℕ
  pub sb_seen : Bool
  pub sb_buf : Bytes
  pub cols : ℕ
  pub rows : ℕ
  pub remote_refused_echo : Bool
  pub closed : Bool
  pub failure : Option NetError
  pub wire : List Bytes
  pub reader_done : Bool

-- The failures that `fail` records.
abbrev pub is_fault : NetError → Bool
is_fault eof = false
is_fault net_closed = false
is_fault (other n) = true

abbrev pub first_failure : Option NetError → Option NetError → Option NetError
first_failure none new = new
first_failure old _ = old

-- The first critical section of `fail`.
unfoldable pub record_failure : Conn → NetError → Conn
record_failure c err = record c {
  failure = if not c.closed && is_fault err then first_failure c.failure (some err) else c.failure;
}

-- The second one, which `Close` has too; once is enough.
unfoldable pub shut : Conn → Conn
shut c = record c { closed = true }

-- A call that no other section comes into; the socket is closed after it.
unfoldable pub fail : Conn → NetError → Conn
unfolding record_failure shut
fail c err = shut (record_failure c err)

unfoldable pub contains_iac : Bytes → Bool
contains_iac [] = false
contains_iac (x ∷ b) = x == iac || contains_iac b

unfoldable pub escape_loop : Bytes → Bytes
escape_loop [] = []
escape_loop (x ∷ b) = let rest = escape_loop b in if x == iac then x ∷ iac ∷ rest else x ∷ rest

unfoldable pub escape : Bytes → Bytes
unfolding contains_iac escape_loop
escape b = if not (contains_iac b) then b else escape_loop b

module _ (env : Env) where
  -- One write to the socket, with its result.
  unfoldable pub net_write : Conn → Bytes → Conn × Option NetError
  net_write c b = (record c { wire = c.wire ++ b ∷ [] }, env.net_write c.wire b)

  abbrev pub note_failure : Conn × Option NetError → Conn
  note_failure (c, none) = c
  note_failure (c, some err) = fail c err

  unfoldable pub write_raw : Conn → Bytes → Conn
  unfolding net_write fail
  write_raw c b = note_failure (net_write c b)

  unfoldable pub send_command : Conn → ℕ → ℕ → Conn
  send_command c command opt = write_raw c (iac ∷ command ∷ opt ∷ [])

  -- The window size as four bytes.
  abbrev pub size_bytes : ℕ → ℕ → Bytes
  size_bytes cols rows = (cols / 256) % 256 ∷ cols % 256 ∷ (rows / 256) % 256 ∷ rows % 256 ∷ []

  -- `IAC SB opt … IAC SE`, with the payload escaped.
  abbrev pub subneg_frame : ℕ → Bytes → Bytes
  subneg_frame opt payload = iac ∷ sb ∷ opt ∷ (escape payload ++ iac ∷ se ∷ [])

  unfoldable pub send_naws : Conn → ℕ → ℕ → Conn
  send_naws c cols rows =
      if ltb 0xFFFF cols || ltb 0xFFFF rows
      then c
      else write_raw c (subneg_frame opt_naws (size_bytes cols rows))

  -- `if r.send { c.sendCommand(…) }`, after the tables took the new state.
  abbrev pub send_reply : Conn → Options × Reply → Conn
  send_reply c (o, r) =
      if r.send
      then send_command (record c { opts = o }) r.command r.option
      else record c { opts = o }

  -- An explicit refusal to echo, or its withdrawal.
  abbrev pub track_echo : Conn → ℕ → ℕ → Conn
  track_echo c command opt =
      if opt == opt_echo
      then (if command == wont
          then record c { remote_refused_echo = true }
          else if command == will
          then record c { remote_refused_echo = false }
          else c)
      else c

  unfoldable pub negotiate : Conn → ℕ → ℕ → Conn
  negotiate c command opt =
      let c' = track_echo (send_reply c (receive c.opts command opt)) command opt in
      if command == do_ && (opt == opt_naws && enabled_locally c'.opts opt_naws)
      then send_naws c' c'.cols c'.rows
      else c'

  abbrev asks_type : Bytes → Bool
  asks_type [] = false
  asks_type (x ∷ _) = x == terminal_type_send

  unfoldable pub subnegotiation : Conn → ℕ → Bytes → Conn
  subnegotiation c opt payload =
      if opt == opt_terminal_type && asks_type payload
      then write_raw c (
          iac
          ∷ sb
          ∷ opt_terminal_type
          ∷ terminal_type_is
          ∷ (escape c.terminal_type ++ iac ∷ se ∷ []))
      else c

  -- The payload of a subnegotiation is bounded.
  abbrev pub push_sb : Conn → ℕ → Bytes
  push_sb c b = if ltb (length c.sb_buf) 256 then c.sb_buf ++ b ∷ [] else c.sb_buf

  step_iac : Conn → ℕ → Conn × Option ℕ
  step_iac c b =
      if b == iac
      then (record c { state = state_data }, some iac)
      else if b == will || (b == wont || (b == do_ || b == dont))
      then (record c { command = b; state = state_option }, none)
      else if b == sb
      then (record c { state = state_subneg; sb_option = 0; sb_seen = false; sb_buf = [] }, none)
      else (record c { state = state_data }, none)

  step_subneg : Conn → ℕ → Conn × Option ℕ
  step_subneg c b =
      if b == iac
      then (record c { state = state_subneg_iac }, none)
      else if not c.sb_seen
      then (record c { sb_option = b; sb_seen = true }, none)
      else (record c { sb_buf = push_sb c b }, none)

  step_subneg_iac : Conn → ℕ → Conn × Option ℕ
  step_subneg_iac c b =
      if b == iac
      then (record c { sb_buf = push_sb c iac; state = state_subneg }, none)
      else if b == se
      then (record (subnegotiation c c.sb_option c.sb_buf) { state = state_data }, none)
      else (record c { state = state_data }, none)

  -- One byte through the parser.
  unfoldable pub step : Conn → ℕ → Conn × Option ℕ
  unfolding step_iac step_subneg step_subneg_iac
  step c b = elim c.state [
    | state_data ↦ if b == iac then (record c { state = state_iac }, none) else (c, some b)
    | state_iac ↦ step_iac c b
    | state_option ↦ (record (negotiate c c.command b) { state = state_data }, none)
    | state_subneg ↦ step_subneg c b
    | state_subneg_iac ↦ step_subneg_iac c b
  ]

  abbrev pub keep_data : Option ℕ → Bytes → Bytes
  keep_data none out = out
  keep_data (some d) out = d ∷ out

  -- The loop of `consume`: the connection after the chunk, and the data that it held.
  unfoldable pub parse : Conn → Bytes → Conn × Bytes
  parse c [] = (c, [])
  parse c (b ∷ chunk) =
      let (c', d) = step c b in let (c'', out) = parse c' chunk in (c'', keep_data d out)

  unfoldable pub emit : Conn → Bytes → Conn
  emit c b =
      if c.closed && not (env.pick_data c.channel)
      then c
      else record c { channel = c.channel ++ b ∷ [] }

  abbrev pub emit_data : Conn × Bytes → Conn
  emit_data (c, []) = c
  emit_data (c, d ∷ out) = emit c (d ∷ out)

  unfoldable pub consume : Conn → Bytes → Conn
  consume c chunk = emit_data (parse c chunk)
