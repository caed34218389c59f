-- ===== src/Telnet/Conn/Parser.antt =====
-- conn.go: the parser takes a text in parts, and buffers a bounded payload.
use secure_crt.Base.{
  Bool-cases, inl, inr, ◌∙◌, ℕ, ◌≤◌, [], ◌∷◌, ◌++◌, Bytes, Option, none, some, ◌≡◌, refl, arith,
  length, length-append,
}
use secure_crt.Telnet.Options.{Options, Reply, receive}
use secure_crt.Telnet.Conn.{
  send_reply, track_echo, send_command, Env, Conn, step, parse, keep_data, push_sb, negotiate,
  subnegotiation, send_naws, write_raw, send_command,
}

module _ (env : Env) where
  keep_data-append :
      (d : Option ℕ) (out rest : Bytes)
      → keep_data env d out ++ rest ≡ keep_data env d (out ++ rest)
  keep_data-append none out rest = refl
  keep_data-append (some d) out rest = refl

  pub parse-append :
      (c : Conn) (xs ys : Bytes)
      → parse env c (xs ++ ys) ≡ (
        (parse env (parse env c xs).0 ys).0,
        (parse env c xs).1 ++ (parse env (parse env c xs).0 ys).1,
      )
  unfolding parse
  parse-append c [] ys = refl
  parse-append c (x ∷ xs) ys = rw (parse-append (step env c x).0 xs ys, keep_data-append)

  write_raw-sb_buf : (c : Conn) (b : Bytes) → (write_raw env c b).sb_buf ≡ c.sb_buf
  unfolding write_raw
  write_raw-sb_buf c b = ground arith

  send_reply-sb_buf : (c : Conn) (r : Options × Reply) → (send_reply env c r).sb_buf ≡ c.sb_buf
  unfolding send_command
  send_reply-sb_buf c (o, r) = elim (Bool-cases r.send) [
    | inl e ↦ rw (e, write_raw-sb_buf)
    | inr e ↦ rw e
  ]

  send_naws-sb_buf : (c : Conn) (cols rows : ℕ) → (send_naws env c cols rows).sb_buf ≡ c.sb_buf
  unfolding send_naws
  send_naws-sb_buf c cols rows = grind (arith, write_raw-sb_buf)

  track_echo-sb_buf :
      (c : Conn) (command opt : ℕ) → (track_echo env c command opt).sb_buf ≡ c.sb_buf
  track_echo-sb_buf c command opt = ground arith

  negotiate-sb_buf : (c : Conn) (command opt : ℕ) → (negotiate env c command opt).sb_buf ≡ c.sb_buf
  unfolding negotiate
  negotiate-sb_buf c command opt =
      let c1 = send_reply env c (receive c.opts command opt) in
      let c2 = track_echo env c1 command opt in
      let e = track_echo-sb_buf c1 command opt ∙ send_reply-sb_buf c (receive c.opts command opt) in
      ground (arith, e, send_naws-sb_buf c2 c2.cols c2.rows)

  subnegotiation-sb_buf :
      (c : Conn) (opt : ℕ) (p : Bytes) → (subnegotiation env c opt p).sb_buf ≡ c.sb_buf
  unfolding subnegotiation
  subnegotiation-sb_buf c opt p = grind (arith, write_raw-sb_buf)

  push_sb-le : (c : Conn) (b : ℕ) → length c.sb_buf ≤ 256 → length (push_sb env c b) ≤ 256
  push_sb-le c b h = grind (arith, length-append)

  step-le : (c : Conn) (b : ℕ) → length c.sb_buf ≤ 256 → length (step env c b).0.sb_buf ≤ 256
  unfolding step
  step-le c b h = ground (
    arith,
    negotiate-sb_buf c c.command b,
    subnegotiation-sb_buf c c.sb_option c.sb_buf,
    push_sb-le c b h,
    push_sb-le c 255 h,
  )

  -- Whatever bytes the far end sends, from a payload buffer of at most 256 bytes the buffer never
  -- holds more.
  pub parse-le :
      (c : Conn) (bs : Bytes) → length c.sb_buf ≤ 256 → length (parse env c bs).0.sb_buf ≤ 256
  unfolding parse
  parse-le c [] h = h
  parse-le c (b ∷ bs) h = parse-le (step env c b).0 bs (step-le c b h)
