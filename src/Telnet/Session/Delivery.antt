-- ===== src/Telnet/Session/Delivery.antt =====
-- conn.go: `Read` delivers what the parser found, in order and once; `Write` sends the whole text.
use secure_crt.Base.{
  ℕ, zero, suc, ◌≤◌, ◌≡◌, refl, sym, ap, ◌∙◌, ◌⊎◌, inl, Bool, true, false, not, ◌&&◌, ◌||◌, Option,
  none, some, List, [], ◌∷◌, ◌++◌, append_assoc, arith, if◌then◌else◌, Bytes, length, take, drop,
  take-append-drop, length-take,
}
use secure_crt.Telnet.Conn.{Env, Conn, NetError, emit, fail, net_write, escape}
use secure_crt.Telnet.Session.{
  read, write, ReadResult, bytes, WriteResult, wrote, write_closed, write_failed, local_echo,
}

abbrev pub join : List Bytes → Bytes
join [] = []
join (chunk ∷ chunks) = chunk ++ join chunks

-- The data that has been found and not read yet.
abbrev pub pending : Conn → Bytes
pending c = c.partial ++ join c.channel

-- The bytes that a read returned.
abbrev pub delivered : ReadResult → Bytes
delivered (bytes out) = out
delivered _ = []

-- What is left to say when a read returns no bytes and no error.
abbrev pub is_bytes : ReadResult → Bool
is_bytes (bytes out) = true
is_bytes _ = false

split_at : (n : ℕ) (xs rest : Bytes) → take n xs ++ (drop n xs ++ rest) ≡ xs ++ rest
split_at n xs rest =
    sym (append_assoc (take n xs) (drop n xs) rest)
    ∙ ap (λ (t : Bytes). t ++ rest) (take-append-drop n xs)

module _ (env : Env) where
  -- A read takes at most `n` bytes off the front of the data that has been found and not read yet,
  -- and leaves the rest, in order; it returns an error, the end of the stream or nothing at all
  -- only when no such data is left.
  pub read-pending :
      (c : Conn) (n : ℕ)
      → (pending c ≡ delivered (read env c n).1 ++ pending (read env c n).0)
        × (length (delivered (read env c n).1) ≤ n)
        × ((is_bytes (read env c n).1 ≡ true) ⊎ (pending c ≡ []))
  unfolding read
  read-pending c zero = (refl, omega arith, inl refl)
  read-pending c (suc n) = go c.partial refl c.channel refl
    where
      go :
          (p : Bytes)
          → c.partial ≡ p
          → (q : List Bytes) → c.channel ≡ q
          → (pending c ≡ delivered (read env c (suc n)).1 ++ pending (read env c (suc n)).0)
            × (length (delivered (read env c (suc n)).1) ≤ suc n)
            × ((is_bytes (read env c (suc n)).1 ≡ true) ⊎ (pending c ≡ []))
      go (b ∷ p) e q f =
          rw (e, read)
            (
              sym (split_at (suc n) (b ∷ p) (join c.channel)),
              omega (arith, length-take (suc n) (b ∷ p)),
              inl refl,
            )
      go [] e (x ∷ q) f =
          rw (e, f, read)
            (sym (split_at (suc n) x (join q)), omega (arith, length-take (suc n) x), inl refl)
      go [] e [] f = rw (e, f, read) (ground arith)

  abbrev pub outcome : Option NetError → ℕ → WriteResult
  outcome none n = wrote n
  outcome (some err) n = write_failed err

  abbrev pub fails : Option NetError → Bool
  fails none = false
  fails (some err) = true

  -- `Write` of a text on an open connection makes one write to the socket, of the escaped text, and
  -- hands the text to the reader exactly when the echo is local. It reports the whole length, or
  -- the socket's error, and the connection is closed after it exactly in the second case. On a
  -- closed connection it reports that, writes nothing and echoes nothing.
  pub write_lem :
      (c : Conn) (b : ℕ) (p : Bytes)
      → let socket = env.net_write c.wire (escape (b ∷ p)) in
        let after = write env c (b ∷ p) in
        (after.1 ≡ (if c.closed then write_closed else outcome socket (length (b ∷ p))))
        × (after.0.wire ≡ (if c.closed then c.wire else c.wire ++ escape (b ∷ p) ∷ []))
        × (after.0.channel
            ≡ (if not c.closed && local_echo env c then c.channel ++ (b ∷ p) ∷ [] else c.channel))
        × (after.0.closed ≡ (c.closed || fails socket))
  unfolding write net_write fail emit
  write_lem c b p = ground arith
