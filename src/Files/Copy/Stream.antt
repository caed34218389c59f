-- ===== src/Files/Copy/Stream.antt =====
-- internal/files/transfer.go: `stream` loses and adds no byte.
use secure_crt.Base.{
  ◌≡◌, refl, ap, Option, none, some, List, [], ◌∷◌, ◌++◌, ◌==◌, Bool-cases, inl, inr, Bytes, length,
  take, length-append, arith,
}
use secure_crt.Base.Outcome.{returned}
use secure_crt.Files.Copy.{
  CopyError, short_write, canceled, ReadEnd, read_on, end_of_file, read_error, Turn, Streamed,
  stopped, after_read, after_write, stream,
}

-- What the reader has given, up to where it ended.
abbrev read_after : ReadEnd → Bytes → Bytes
read_after read_on rest = rest
read_after end_of_file rest = []
read_after (read_error e) rest = []

abbrev pub read : List Turn → Bytes
read [] = []
read (t ∷ turns) = t.chunk ++ read_after t.ended (read turns)

abbrev IsDone : Streamed → Type 0
IsDone s = s.ended ≡ some (returned tt)

stopped-undone : (e : CopyError) → ¬ IsDone (stopped e)
stopped-undone e h = cc

-- Everything read was sent and counted, when it ended well.
abbrev Whole : Bytes → Streamed → Type 0
Whole text s = (s.sent ≡ text) × (s.progress ≡ length text)

after_read-Whole :
    (ended : ReadEnd) (text : Bytes) (rest : Streamed)
    → (IsDone rest → Whole text rest)
    → IsDone (after_read ended rest)
    → Whole (read_after ended text) (after_read ended rest)
after_read-Whole read_on text rest ih h = ih h
after_read-Whole end_of_file text rest ih h = (refl, refl)
after_read-Whole (read_error e) text rest ih h = absurd (stopped-undone e h)

-- Nothing read and nothing written.
length-zero : (s : Bytes) → 0 ≡ length s → s ≡ []
length-zero [] h = refl
length-zero (x ∷ s) h = absurd (omega (arith, h))

take-all : (s : Bytes) → take (length s) s ≡ s
take-all [] = refl
take-all (x ∷ s) = ap (◌∷◌ x) (take-all s)

after_write-Whole :
    (t : Turn) (write_error : Option CopyError) (text : Bytes) (rest : Streamed)
    → (IsDone rest → Whole text rest)
    → IsDone (after_write t write_error rest)
    → Whole (t.chunk ++ read_after t.ended text) (after_write t write_error rest)
after_write-Whole t (some e) text rest ih h = absurd (stopped-undone e h)
after_write-Whole t none text rest ih h = elim (Bool-cases (t.accepted == length t.chunk)) [
  | inl full ↦
      let same : t.accepted ≡ length t.chunk = ground (arith, full) in
      let rest_text = read_after t.ended text in
      let (sent, progress) = after_read-Whole t.ended text rest ih (rw full at h) in
      rw full (
        rw (same, take-all t.chunk, sent) refl,
        omega (arith, same, progress, length-append t.chunk rest_text),
      )
  | inr short ↦ absurd (stopped-undone short_write (rw short at h))
]

-- A transfer that ends without an error has sent exactly what the reader gave before its end of file, and has
-- reported as many bytes.
pub stream-Whole :
    (turns : List Turn)
    → (stream turns).ended ≡ some (returned tt)
    → ((stream turns).sent ≡ read turns) × ((stream turns).progress ≡ length (read turns))
unfolding stream
stream-Whole [] h = cc
stream-Whole (t ∷ turns) h = elim (Bool-cases t.cancelled) [
  | inl c ↦ absurd (stopped-undone canceled (rw c at h))
  | inr c ↦ elim (Bool-cases (0 == length t.chunk)) [
    | inl z ↦
        let nothing = length-zero t.chunk (ground (arith, z)) in
        rw (c, z, nothing)
          (after_read-Whole t.ended (read turns) (stream turns) (stream-Whole turns)
            (rw (c, z) at h))
    | inr z ↦
        rw (c, z)
          (after_write-Whole t t.write_error (read turns) (stream turns) (stream-Whole turns)
            (rw (c, z) at h))
  ]
]
