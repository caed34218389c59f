-- ===== src/Telnet/Conn/Framing.antt =====
-- conn.go: what `escape` writes, `step` reads back: data, and the payload of a subnegotiation.
use secure_crt.Base.{
  ℕ, ◌+◌, ◌*◌, ◌≤◌, ◌<◌, ◌≡◌, refl, ◌∙◌, ◌≢◌, inl, inr, true, false, Option, none, some, [], ◌∷◌,
  ◌++◌, append-nil, append_assoc, arith, ◌==◌, if◌then◌else◌, Bool-cases, Bytes, length,
  length-append, All,
}
use secure_crt.Telnet.Protocol.{iac, sb, se, opt_naws}
use secure_crt.Telnet.Conn.{
  Env, Conn, state_data, state_subneg, state_subneg_iac, step, parse, subnegotiation, escape,
  escape_loop, contains_iac, size_bytes, subneg_frame, send_naws, write_raw,
}
use secure_crt.Telnet.Conn.Parser.{parse-append}

escape-eq-loop : (b : Bytes) → escape b ≡ escape_loop b
unfolding escape
escape-eq-loop b = elim (Bool-cases (contains_iac b)) [ inl e ↦ rw e | inr e ↦ rw e (plain b e) ]
  where
    plain : (b : Bytes) → contains_iac b ≡ false → b ≡ escape_loop b
    plain [] h = refl
    plain (x ∷ b) h = ground (arith, plain b)

-- One round of the loop of `escape`.
escaped : ℕ → Bytes
escaped x = if x == iac then x ∷ iac ∷ [] else x ∷ []

escape_loop-cons : (x : ℕ) (p : Bytes) → escape_loop (x ∷ p) ≡ escaped x ++ escape_loop p
unfolding escape_loop escaped
escape_loop-cons x p = ground arith

module _ (env : Env) where
  step_plain :
      (c : Conn) (x : ℕ) → c.state ≡ state_data → (x == iac) ≡ false → step env c x ≡ (c, some x)
  unfolding step
  step_plain c x h e = rw (h, e)

  parse_doubled : (c : Conn) → c.state ≡ state_data → parse env c (iac ∷ iac ∷ []) ≡ (c, iac ∷ [])
  unfolding parse step
  parse_doubled c h = rw (h, step) (ground arith)

  parse-escaped : (c : Conn) (x : ℕ) → c.state ≡ state_data → parse env c (escaped x) ≡ (c, x ∷ [])
  unfolding escaped parse
  parse-escaped c x h = elim (Bool-cases (x == iac)) [
    | inl e ↦ let same : x ≡ iac = ground arith in rw (e, same) (parse_doubled c h)
    | inr e ↦ rw (e, step_plain c x h e)
  ]

  parse-escape_loop :
      (c : Conn) (p : Bytes) → c.state ≡ state_data → parse env c (escape_loop p) ≡ (c, p)
  unfolding escape_loop parse
  parse-escape_loop c [] h = refl
  parse-escape_loop c (x ∷ p) h =
      rw (escape_loop-cons, parse-append, parse-escaped c x h, parse-escape_loop c p h)

  -- What `Write` sends for a text is read back as that text, and leaves the far end's parser as
  -- it was, from a connection that is between commands.
  pub parse-escape : (c : Conn) (p : Bytes) → c.state ≡ state_data → parse env c (escape p) ≡ (c, p)
  parse-escape c p h = rw (escape-eq-loop p) (parse-escape_loop c p h)

  -- A connection inside the payload of option `opt`, of which it has read `buf`.
  abbrev reading : Conn → ℕ → Bytes → Conn
  reading c opt buf = record c {
    state = state_subneg;
    sb_option = opt;
    sb_seen = true;
    sb_buf = buf;
  }

  payload-escaped :
      (c : Conn) (opt x : ℕ) (buf : Bytes)
      → length buf < 256
      → parse env (reading c opt buf) (escaped x) ≡ (reading c opt (buf ++ x ∷ []), [])
  unfolding escaped parse step
  payload-escaped c opt x buf room = ground (arith)

  payload-escape_loop :
      (c : Conn) (opt : ℕ) (buf p : Bytes)
      → length buf + length p ≤ 256
      → parse env (reading c opt buf) (escape_loop p) ≡ (reading c opt (buf ++ p), [])
  unfolding escape_loop parse
  payload-escape_loop c opt buf [] h = rw append-nil
  payload-escape_loop c opt buf (x ∷ p) h = rw (
    escape_loop-cons,
    parse-append,
    payload-escaped c opt x buf (omega arith),
    payload-escape_loop c opt (buf ++ x ∷ []) p (omega (arith, length-append buf (x ∷ []))),
    append_assoc,
  )

  -- The end of a frame hands the payload over.
  frame_end :
      (c : Conn) (opt : ℕ) (buf : Bytes)
      → parse env (reading c opt buf) (iac ∷ se ∷ []) ≡ (
        record (subnegotiation env
            (record (reading c opt buf) { state = state_subneg_iac })
            opt
            buf) { state = state_data },
        [],
      )
  unfolding parse step
  frame_end c opt buf = refl

  frame_start :
      (c : Conn) (opt : ℕ)
      → c.state ≡ state_data
      → opt ≢ iac
      → parse env c (iac ∷ sb ∷ opt ∷ []) ≡ (reading c opt [], [])
  unfolding parse step
  frame_start c opt h ne = ground arith

  -- From a connection that is between commands, a frame for option `opt`, not 255, with a payload
  -- of at most 256 bytes is handed over with exactly that payload, and none of it becomes data.
  pub parse-subneg_frame :
      (c : Conn) (opt : ℕ) (p : Bytes)
      → c.state ≡ state_data
      → opt ≢ iac
      → length p ≤ 256
      → parse env c (subneg_frame env opt p) ≡ (
        record (subnegotiation env (record (reading c opt p) { state = state_subneg_iac }) opt p) {
          state = state_data;
        },
        [],
      )
  parse-subneg_frame c opt p h ne fits = rw (
    escape-eq-loop p,
    parse-append env c (iac ∷ sb ∷ opt ∷ []) (escape_loop p ++ iac ∷ se ∷ []),
    frame_start c opt h ne,
    parse-append env (reading c opt []) (escape_loop p) (iac ∷ se ∷ []),
    payload-escape_loop c opt [] p (omega arith),
    frame_end c opt p,
  )

  -- How RFC 1073 reads the payload: two numbers of two bytes, the high byte first.
  abbrev pub read_size : Bytes → Option (ℕ × ℕ)
  read_size (a ∷ b ∷ x ∷ y ∷ []) = some (a * 256 + b, x * 256 + y)
  read_size _ = none

  -- A window size of at most 65535 columns and rows is sent as one frame. A far end that is between
  -- commands reads option 31 and a payload out of that frame, and no data; the payload is bytes
  -- and stands for the same size.
  pub send_naws-parse :
      (c peer : Conn) (cols rows : ℕ)
      → cols ≤ 0xFFFF
      → rows ≤ 0xFFFF
      → peer.state ≡ state_data
      → (send_naws env c cols rows
          ≡ write_raw env c (subneg_frame env opt_naws (size_bytes env cols rows)))
        × (parse env peer (subneg_frame env opt_naws (size_bytes env cols rows)) ≡ (
          record peer { sb_option = opt_naws; sb_seen = true; sb_buf = size_bytes env cols rows },
          [],
        ))
        × (read_size (size_bytes env cols rows) ≡ some (cols, rows))
        × All (λ b. b < 256) (size_bytes env cols rows)
  unfolding send_naws subnegotiation
  send_naws-parse c peer cols rows hc hr h = (
    ground arith,
    parse-subneg_frame peer opt_naws (size_bytes env cols rows) h (omega arith) (omega arith)
        ∙ ground arith,
    ground arith,
    omega arith,
  )
