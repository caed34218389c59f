-- ===== src/Terminal/RingBuffer.antt =====
-- internal/terminal/session.go: the ring buffer of a terminal's recent output. The array is a function
-- of the index; the code uses it below `size` only.
pub mod Window
use secure_crt.Base.{
  ℕ, zero, suc, ◌+◌, ◌-◌, ◌*◌, ◌/◌, ◌%◌, ◌^◌, ◌≤◌, ◌<◌, min, ◌≡◌, refl, sym, ap, ◌∙◌, ◌≢◌, ◌↔◌, ◌⊎◌,
  inl, inr, Bool, true, false, not, ◌&&◌, ◌||◌, Option, none, some, List, [], ◌∷◌, ◌++◌, map,
  append-nil, append_assoc, arith, ltb, leb, ◌==◌, if◌then◌else◌, ltb→lt, lt→ltb, ==_iff,
  Bool-cases, Option-cases, if-rule, Bytes, codes, bytes_eq, bytes_eq_refl, bytes_eq_sound,
  bytes_eq_ne, length, get_elem?, take, drop, length-append, take-append-drop, length-take,
  length-drop, All, All-append,
}

pub record RingBuffer : Type 0 where
  pub buf : ℕ → ℕ
  pub size : ℕ
  pub start : ℕ
  pub filled : ℕ

unfoldable pub new_ring_buffer : ℕ → RingBuffer
new_ring_buffer size = record { buf = λ _. 0; size = size; start = 0; filled = 0 }

abbrev pub store : (ℕ → ℕ) → ℕ → ℕ → ℕ → ℕ
store buf i b j = if j == i then b else buf j

-- One round of the loop of `Write`.
unfoldable pub push : RingBuffer → ℕ → RingBuffer
push r b =
    let idx = (r.start + r.filled) % r.size in
    if ltb r.filled r.size
    then record r { buf = store r.buf idx b; filled = suc r.filled }
    else record r { buf = store r.buf idx b; start = (r.start + 1) % r.size }

unfoldable pub push_all : RingBuffer → Bytes → RingBuffer
push_all r [] = r
push_all r (b ∷ p) = push_all (push r b) p

-- copy(r.buf, p)
unfoldable pub copy : (ℕ → ℕ) → ℕ → Bytes → ℕ → ℕ
copy buf i [] = buf
copy buf i (b ∷ p) = copy (store buf i b) (suc i) p

-- `Write`
unfoldable pub write : RingBuffer → Bytes → RingBuffer
write r p =
    if leb r.size (length p)
    then record r { buf = copy r.buf 0 (drop (length p - r.size) p); start = 0; filled = r.size }
    else push_all r p

-- The loop of `Bytes`, from index i on.
module _ (buf : ℕ → ℕ) (start size : ℕ) where
  unfoldable pub collect : ℕ → ℕ → Bytes
  collect zero i = []
  collect (suc n) i = buf ((start + i) % size) ∷ collect n (suc i)

unfoldable pub bytes : RingBuffer → Bytes
bytes r = collect r.buf r.start r.size r.filled 0
