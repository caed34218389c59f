-- ===== src/Telnet/Session.antt =====
-- internal/proto/telnetx/conn.go: what the terminal calls, and how a connection is opened.
pub mod Delivery
use secure_crt.Base.{
  ℕ, zero, suc, ◌+◌, ◌-◌, ◌*◌, ◌/◌, ◌%◌, ◌^◌, ◌≤◌, ◌<◌, min, ◌≡◌, refl, sym, ap, ◌∙◌, ◌≢◌, ◌↔◌, ◌⊎◌,
  inl, inr, Bool, true, false, not, ◌&&◌, ◌||◌, Option, none, some, List, [], ◌∷◌, ◌++◌, map,
  append-nil, append_assoc, arith, ltb, leb, ◌==◌, if◌then◌else◌, ltb→lt, lt→ltb, ==_iff,
  Bool-cases, Option-cases, Bytes, codes, bytes_eq, bytes_eq_refl, bytes_eq_sound, length,
  get_elem?, take, drop, length-append, take-append-drop, length-take, length-drop, All, All-append,
}
use secure_crt.Base.Int.{ℤ, positive?}
use secure_crt.Telnet.Protocol.{iac, opt_naws}
use secure_crt.Telnet.Options.{
  Options, Reply, new_options, offer_local, ask_remote, enabled_locally, agreed, want_local,
  want_remote,
}
use secure_crt.Telnet.Conn.{
  Env, Conn, EchoMode, echo_auto, echo_local, echo_remote, NetError, state_data, emit, fail,
  net_write, escape, send_naws, consume,
}

pub record Config : Type 0 where
  pub address : Bytes
  pub terminal_type : Bytes
  pub echo : EchoMode
  pub cols : ℤ
  pub rows : ℤ

abbrev pub default_terminal_type : Bytes
default_terminal_type = codes "xterm-256color"

abbrev pub or_default : Option ℕ → ℕ → ℕ
or_default none d = d
or_default (some n) d = n

abbrev pub or_text : Bytes → Bytes → Bytes
or_text [] d = d
or_text t d = t

-- The offers of `startNegotiation`: the tables after them, and the bytes to write.
abbrev frame_of : Reply → Bytes
frame_of r = if r.send then iac ∷ r.command ∷ r.option ∷ [] else []

unfoldable pub offers : (Options → ℕ → Options × Reply) → Options → List ℕ → Options × Bytes
offers ask o [] = (o, [])
offers ask o (opt ∷ opts) =
    let (o', r) = ask o opt in let (o'', out) = offers ask o' opts in (o'', frame_of r ++ out)

pub data DialResult : Type 0 where
  address_required : DialResult
  unreachable : NetError → DialResult
  negotiation_failed : NetError → DialResult
  connected : Conn → DialResult

pub data WriteResult : Type 0 where
  wrote : ℕ → WriteResult
  write_closed : WriteResult
  write_failed : NetError → WriteResult

pub data ReadResult : Type 0 where
  bytes : Bytes → ReadResult
  end_of_file : ReadResult
  read_failed : NetError → ReadResult
  blocked : ReadResult

module _ (env : Env) where
  unfoldable pub start_negotiation : Conn → Conn × Option NetError
  unfolding offers
  start_negotiation c =
      let (o, local) = offers offer_local c.opts want_local in
      let (o', remote) = offers ask_remote o want_remote in
      elim (local ++ remote) [
        | [] ↦ (record c { opts = o' }, none)
        | x ∷ out ↦ net_write env (record c { opts = o' }) (x ∷ out)
      ]

  abbrev pub fresh : Config → Conn
  fresh cfg = record {
    terminal_type = or_text cfg.terminal_type default_terminal_type;
    echo = cfg.echo;
    opts = new_options;
    channel = [];
    partial = [];
    state = state_data;
    command = 0;
    sb_option = 0;
    sb_seen = false;
    sb_buf = [];
    cols = or_default (positive? cfg.cols) 80;
    rows = or_default (positive? cfg.rows) 24;
    remote_refused_echo = false;
    closed = false;
    failure = none;
    wire = [];
    reader_done = false;
  }

  abbrev opened : Conn × Option NetError → DialResult
  opened (c, none) = connected c
  opened (c, some err) = negotiation_failed err

  -- `reach` is what the dialler returned.
  unfoldable pub dial : Config → Option NetError → DialResult
  dial cfg reach = elim cfg.address [
    | [] ↦ address_required
    | x ∷ addr ↦ elim reach [
      | some err ↦ unreachable err
      | none ↦ opened (start_negotiation (fresh cfg))
    ]
  ]

  -- The rounds of `readLoop`: each read of the socket returns bytes and may return an error.
  abbrev consume_some : Conn → Bytes → Conn
  consume_some c [] = c
  consume_some c (b ∷ chunk) = consume env c (b ∷ chunk)

  unfoldable pub read_loop : Conn → List (Bytes × Option NetError) → Conn
  read_loop c [] = c
  read_loop c ((chunk, none) ∷ rest) = read_loop (consume_some c chunk) rest
  read_loop c ((chunk, some err) ∷ rest) = record (fail (consume_some c chunk) err) {
    reader_done = true;
  }

  -- `copy(p, …)` into a buffer of n bytes.
  abbrev hangup : Option NetError → ReadResult
  hangup none = end_of_file
  hangup (some err) = read_failed err

  abbrev read_channel : Conn → ℕ → List Bytes → Conn × ReadResult
  read_channel c n [] = (c, if c.reader_done then hangup c.failure else blocked)
  read_channel c n (chunk ∷ chunks) =
      (record c { channel = chunks; partial = drop n chunk }, bytes (take n chunk))

  unfoldable pub read : Conn → ℕ → Conn × ReadResult
  read c zero = (c, bytes [])
  read c (suc n) = elim c.partial [
    | [] ↦ read_channel c (suc n) c.channel
    | b ∷ p ↦ (record c { partial = drop (suc n) (b ∷ p) }, bytes (take (suc n) (b ∷ p)))
  ]

  unfoldable pub local_echo : Conn → Bool
  local_echo c = elim c.echo [
    | echo_local ↦ true
    | echo_remote ↦ false
    | echo_auto ↦ c.remote_refused_echo
  ]

  abbrev sent : Bytes → Conn × Option NetError → Conn × WriteResult
  sent p (c, none) = (c, wrote (length p))
  sent p (c, some err) = (fail c err, write_failed err)

  abbrev pub echoed : Conn → Bytes → Conn
  echoed c p = if local_echo c then emit env c p else c

  unfoldable pub write : Conn → Bytes → Conn × WriteResult
  write c [] = (c, wrote 0)
  write c (b ∷ p) =
      if c.closed
      then (c, write_closed)
      else sent (b ∷ p) (net_write env (echoed c (b ∷ p)) (escape (b ∷ p)))

  abbrev size_error : Conn → Option ℕ → Option ℕ → Conn × Bool
  size_error c (some cols) (some rows) =
      let c' = record c { cols = cols; rows = rows } in
      if enabled_locally c.opts opt_naws then (send_naws env c' cols rows, true) else (c', true)
  size_error c _ _ = (c, false)

  -- The flag is false where the source returns an error.
  unfoldable pub resize : Conn → ℤ → ℤ → Conn × Bool
  resize c cols rows = size_error c (positive? cols) (positive? rows)

  unfoldable pub close : Conn → Conn
  close c = record c { closed = true }

  -- `none` for "no options negotiated"; otherwise the parts that are joined by commas.
  unfoldable pub summary : Conn → Option (List Bytes)
  unfolding agreed
  summary c = elim (agreed c.opts) [ [] ↦ none | x ∷ xs ↦ some (x ∷ xs) ]
