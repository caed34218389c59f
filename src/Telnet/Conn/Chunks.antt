-- ===== src/Telnet/Conn/Chunks.antt =====
-- conn.go: `consume` does not depend on where the reads of the socket end.
use secure_crt.Base.{
  Bool-cases, inl, inr, sym, ap, ◌∙◌, ℕ, true, false, not, ◌&&◌, List, [], ◌∷◌, ◌++◌, Bytes, ◌≡◌,
  refl, arith, append_assoc, append-nil,
}
use secure_crt.Telnet.Options.{Options, Reply, receive}
use secure_crt.Telnet.Conn.{
  send_reply, track_echo, send_command, Env, Conn, step, parse, negotiate, subnegotiation,
  send_naws, write_raw, net_write, fail, record_failure, shut, emit, emit_data, consume,
}
use secure_crt.Telnet.Conn.Parser.{parse-append}

-- The connection with another channel to its reader.
abbrev pub with_channel : List Bytes → Conn → Conn
with_channel ch c = record c { channel = ch }

module _ (env : Env) (ch : List Bytes) where
  write_raw-channel :
      (c : Conn) (b : Bytes)
      → write_raw env (with_channel ch c) b ≡ with_channel ch (write_raw env c b)
  unfolding write_raw net_write fail record_failure shut
  write_raw-channel c b = ground arith

  send_reply-channel :
      (c : Conn) (r : Options × Reply)
      → send_reply env (with_channel ch c) r ≡ with_channel ch (send_reply env c r)
  unfolding send_command
  send_reply-channel c (o, r) = elim (Bool-cases r.send) [
    | inl e ↦ rw e (write_raw-channel _ _)
    | inr e ↦ rw e refl
  ]

  send_naws-channel :
      (c : Conn) (cols rows : ℕ)
      → send_naws env (with_channel ch c) cols rows ≡ with_channel ch (send_naws env c cols rows)
  unfolding send_naws
  send_naws-channel c cols rows = grind (arith, write_raw-channel)

  track_echo-channel :
      (c : Conn) (command opt : ℕ)
      → track_echo env (with_channel ch c) command opt
        ≡ with_channel ch (track_echo env c command opt)
  track_echo-channel c command opt = ground arith

  negotiate-channel :
      (c : Conn) (command opt : ℕ)
      → negotiate env (with_channel ch c) command opt
        ≡ with_channel ch (negotiate env c command opt)
  unfolding negotiate
  negotiate-channel c command opt =
      let reply = receive c.opts command opt in
      let c1 = send_reply env c reply in
      rw (send_reply-channel c reply, track_echo-channel c1 command opt)
        (grind (arith, send_naws-channel))

  subnegotiation-channel :
      (c : Conn) (opt : ℕ) (p : Bytes)
      → subnegotiation env (with_channel ch c) opt p ≡ with_channel ch (subnegotiation env c opt p)
  unfolding subnegotiation
  subnegotiation-channel c opt p = grind (arith, write_raw-channel)

  step-channel :
      (c : Conn) (b : ℕ)
      → step env (with_channel ch c) b ≡ (with_channel ch (step env c b).0, (step env c b).1)
  unfolding step
  step-channel c b =
      ground (arith, negotiate-channel c c.command b, subnegotiation-channel c c.sb_option c.sb_buf)

  parse-channel :
      (c : Conn) (bs : Bytes)
      → parse env (with_channel ch c) bs ≡ (with_channel ch (parse env c bs).0, (parse env c bs).1)
  unfolding parse
  parse-channel c [] = refl
  parse-channel c (b ∷ bs) = rw (step-channel c b, parse-channel (step env c b).0 bs) refl

-- The reads of the socket, one after the other.
unfoldable pub consume_all : Env → Conn → List Bytes → Conn
consume_all env c [] = c
consume_all env c (chunk ∷ chunks) = consume_all env (consume env c chunk) chunks

abbrev pub join : List Bytes → Bytes
join [] = []
join (chunk ∷ chunks) = chunk ++ join chunks

join-append : (xs ys : List Bytes) → join (xs ++ ys) ≡ join xs ++ join ys
join-append [] ys = refl
join-append (x ∷ xs) ys = rw (join-append xs ys, append_assoc) refl

module _ (env : Env) where
  parse-kept : (c : Conn) (bs : Bytes) → (parse env c bs).0.channel ≡ c.channel
  parse-kept c bs = ap (λ r. r.0.channel) (parse-channel env c.channel c bs)

  emit_data-join :
      (c : Conn) (out : Bytes)
      → env.pick_data c.channel ≡ true
      → (join (emit_data env (c, out)).channel ≡ join c.channel ++ out)
        × (with_channel [] (emit_data env (c, out)) ≡ with_channel [] c)
  unfolding emit
  emit_data-join c [] picks = (sym (append-nil (join c.channel)), refl)
  emit_data-join c (d ∷ out) picks =
      let taken : (c.closed && not (env.pick_data c.channel)) ≡ false = ground arith in
      rw taken (
        join-append c.channel ((d ∷ out) ∷ [])
            ∙ ap (λ r. join c.channel ++ r) (append-nil (d ∷ out)),
        refl,
      )

  consume-join :
      (c : Conn) (chunk : Bytes)
      → ((q : List Bytes) → env.pick_data q ≡ true)
      → (join (consume env c chunk).channel ≡ join c.channel ++ (parse env c chunk).1)
        × (with_channel [] (consume env c chunk) ≡ with_channel [] (parse env c chunk).0)
  unfolding consume
  consume-join c chunk picks =
      let after = (parse env c chunk).0 in
      let (given, same) = emit_data-join after (parse env c chunk).1 (picks after.channel) in
      (given ∙ ap (λ q. join q ++ (parse env c chunk).1) (parse-kept c chunk), same)

  -- However the stream from the far end is cut into reads, and whatever the parser is in the middle of when
  -- the first one comes, the reader is given the data that the parser finds in the whole stream, after what
  -- it had not yet taken, and all the rest of the connection is as the parser leaves it on the whole stream;
  -- for a reader that takes what it is given (a closed connection may drop data instead).
  pub consume_all_lem :
      (c : Conn) (chunks : List Bytes)
      → ((q : List Bytes) → env.pick_data q ≡ true)
      → (join (consume_all env c chunks).channel ≡ join c.channel ++ (parse env c (join chunks)).1)
        × (with_channel [] (consume_all env c chunks)
            ≡ with_channel [] (parse env c (join chunks)).0)
  unfolding consume_all parse
  consume_all_lem c [] picks = (sym (append-nil (join c.channel)), refl)
  consume_all_lem c (chunk ∷ chunks) picks =
      let next = consume env c chunk in
      let found = parse env c chunk in
      let (given, same) = consume-join c chunk picks in
      let (rest_given, rest_same) = consume_all_lem next chunks picks in
      let apart : next ≡ with_channel next.channel found.0 = ap (with_channel next.channel) same in
      let parsed =
        ap (λ (x : Conn). parse env x (join chunks)) apart
        ∙ parse-channel env next.channel found.0 (join chunks) in
      rw (parse-append env c chunk (join chunks)) (
        rest_given
            ∙ ap (λ r. join next.channel ++ r.1) parsed
            ∙ ap (λ r. r ++ (parse env found.0 (join chunks)).1) given
            ∙ append_assoc (join c.channel) found.1 (parse env found.0 (join chunks)).1,
        rest_same ∙ ap (λ r. with_channel [] r.0) parsed,
      )
