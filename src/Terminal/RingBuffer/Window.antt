-- ===== src/Terminal/RingBuffer/Window.antt =====
-- session.go: the ring buffer holds the end of what was written.
use secure_crt.Base.{
  ℕ, zero, suc, ◌+◌, ◌-◌, ◌%◌, ◌≤◌, ◌<◌, ◌≡◌, refl, sym, ap, ◌∙◌, ◌≢◌, inl, inr, List, [], ◌∷◌,
  ◌++◌, append-nil, append_assoc, arith, ltb, leb, ltb→lt, Bool-cases, if-rule, Bytes, length, drop,
  length-append, length-drop,
}
use mathlib.Core.Path.{ap₂}
use native.Mathlib.Nat.{mod-eq_of_lt, mod-eq-sub-mod, mod-lt, suc-add, mod-add-mod}
use secure_crt.Terminal.RingBuffer.{
  RingBuffer, new_ring_buffer, store, push, push_all, copy, write, collect, bytes,
}

-- The last n elements.
abbrev pub keep : ℕ → Bytes → Bytes
keep n xs = drop (length xs - n) xs

pub record IsValid (r : RingBuffer) : Type 0 where
  pub room : 0 < r.size
  pub start : r.start < r.size
  pub filled : r.filled ≤ r.size

drop_all : (xs : Bytes) → drop (length xs) xs ≡ []
drop_all [] = refl
drop_all (x ∷ xs) = drop_all xs

drop-append : (n : ℕ) (xs ys : Bytes) → n ≤ length xs → drop n (xs ++ ys) ≡ drop n xs ++ ys
drop-append zero xs ys h = refl
drop-append (suc n) [] ys h = absurd (omega arith)
drop-append (suc n) (x ∷ xs) ys h = drop-append n xs ys (omega arith)

drop-nil : (n : ℕ) → drop {A = ℕ} n [] ≡ []
drop-nil zero = refl
drop-nil (suc n) = refl

drop-drop : (m n : ℕ) (xs : Bytes) → drop m (drop n xs) ≡ drop (n + m) xs
drop-drop m zero xs = ap (λ (k : ℕ). drop k xs) (omega arith)
drop-drop m (suc n) [] = drop-nil m ∙ sym (drop-nil (suc n + m))
drop-drop m (suc n) (x ∷ xs) = rw suc-add (drop-drop m n xs)

keep-keep : (n : ℕ) (xs ys : Bytes) → keep n (keep n xs ++ ys) ≡ keep n (xs ++ ys)
keep-keep n xs ys =
    let cut = length xs - n in
    rw (← drop-append cut xs ys (omega arith), drop-drop)
      (ap (λ (k : ℕ). drop k (xs ++ ys))
        (omega (arith, length-append xs ys, length-drop cut (xs ++ ys))))

-- Different places of the window are different places of the array.
places : (s i j n : ℕ) → s < n → i < j → j < n → (s + i) % n ≢ (s + j) % n
places s i j n hs hi hj e = grind (arith, mod-eq_of_lt, mod-eq-sub-mod)

module _ (buf : ℕ → ℕ) (start size : ℕ) where
  length-collect : (n i : ℕ) → length (collect buf start size n i) ≡ n
  unfolding collect
  length-collect zero i = refl
  length-collect (suc n) i = ap suc (length-collect n (suc i))

  collect-snoc :
      (n i : ℕ)
      → collect buf start size (suc n) i
        ≡ collect buf start size n i ++ buf ((start + (i + n)) % size) ∷ []
  unfolding collect
  collect-snoc zero i = ap (λ (k : ℕ). buf ((start + k) % size) ∷ []) (omega arith)
  collect-snoc (suc n) i =
      ap (λ (k : Bytes). buf ((start + i) % size) ∷ k)
        (collect-snoc n (suc i)
          ∙ ap (λ (k : ℕ). collect buf start size n (suc i) ++ buf ((start + k) % size) ∷ [])
              (omega arith))

  -- A window that does not reach the place that is written.
  collect-store :
      (j b n i : ℕ)
      → start < size
      → n + i ≤ j
      → j < size
      → collect (store buf ((start + j) % size) b) start size n i ≡ collect buf start size n i
  unfolding collect
  collect-store j b zero i h le lt = refl
  collect-store j b (suc n) i h le lt =
      let apart = places start i j size h (omega arith) lt in
      ap₂ (λ (x : ℕ) (xs : Bytes). x ∷ xs) (ground arith)
        (collect-store j b n (suc i) h (omega arith) lt)

  -- A window behind the place that is written, where that is the first.
  collect-store_first :
      (b n i : ℕ)
      → start < size
      → 0 < i
      → n + i ≤ size
      → collect (store buf start b) start size n i ≡ collect buf start size n i
  unfolding collect
  collect-store_first b zero i h p le = refl
  collect-store_first b (suc n) i h p le =
      let first : (start + 0) % size ≡ start = grind (arith, mod-eq_of_lt) in
      let apart = places start 0 i size h p (omega arith) in
      ap₂ (λ (x : ℕ) (xs : Bytes). x ∷ xs) (ground arith)
        (collect-store_first b n (suc i) h (omega arith) (omega arith))

  -- The window of a buffer whose start has moved on by one.
  collect-start :
      (n i : ℕ) → collect buf ((start + 1) % size) size n i ≡ collect buf start size n (suc i)
  unfolding collect
  collect-start zero i = refl
  collect-start (suc n) i =
      ap₂ (λ (x : ℕ) (xs : Bytes). x ∷ xs)
        (ap buf (mod-add-mod (start + 1) size i ∙ ap (λ (k : ℕ). k % size) (omega arith)))
        (collect-start n (suc i))

push-IsValid : (r : RingBuffer) (b : ℕ) → IsValid r → IsValid (push r b)
unfolding push
push-IsValid r b v =
    if-rule IsValid (ltb r.filled r.size)
      (λ lt. record { room = v.room; start = v.start; filled = ltb→lt r.filled r.size lt })
      (λ _. record { room = v.room; start = mod-lt (r.start + 1) v.room; filled = v.filled })

-- Room is left: the byte goes behind the others.
bytes_with_room :
    (buf : ℕ → ℕ) (start size filled b : ℕ)
    → start < size
    → filled < size
    → collect (store buf ((start + filled) % size) b) start size (suc filled) 0
      ≡ keep size (collect buf start size filled 0 ++ b ∷ [])
bytes_with_room buf start size filled b h lt =
    let idx = (start + filled) % size in
    let xs = collect buf start size filled 0 in
    let short : length (xs ++ b ∷ []) - size ≡ 0 =
      omega (arith, length-append xs (b ∷ []), length-collect buf start size filled 0) in
    let last : store buf idx b ((start + (0 + filled)) % size) ≡ b = ground arith in
    collect-snoc (store buf idx b) start size filled 0
    ∙ ap₂ (λ (ys : Bytes) (y : ℕ). ys ++ y ∷ [])
        (collect-store buf start size filled b filled 0 h (omega arith) lt) last
    ∙ rw short

-- The buffer is full: the byte takes the place of the oldest.
bytes_when_full :
    (buf : ℕ → ℕ) (start size filled b : ℕ)
    → start < size
    → filled ≡ size
    → collect (store buf ((start + filled) % size) b) ((start + 1) % size) size filled 0
      ≡ keep size (collect buf start size filled 0 ++ b ∷ [])
bytes_when_full buf start zero filled b h e = absurd (omega arith)
bytes_when_full buf start (suc k) filled b h e =
    let size = suc k in
    let idx : (start + size) % size ≡ start = grind (arith, mod-eq_of_lt, mod-eq-sub-mod) in
    let xs = collect buf start size size 0 in
    let long : length (xs ++ b ∷ []) - size ≡ 1 =
      omega (arith, length-append xs (b ∷ []), length-collect buf start size size 0) in
    let last : store buf start b ((start + (1 + k)) % size) ≡ b = ground (arith, idx) in
    rw (e, idx, long, collect-start)
      (collect-snoc (store buf start b) start size k 1
        ∙ ap₂ (λ (ys : Bytes) (y : ℕ). ys ++ y ∷ [])
            (collect-store_first buf start size b k 1 h (omega arith) (omega arith)) last
        ∙ unfold collect in refl)

bytes-push :
    (r : RingBuffer) (b : ℕ) → IsValid r → bytes (push r b) ≡ keep r.size (bytes r ++ b ∷ [])
unfolding push bytes
bytes-push r b v = elim (Bool-cases (ltb r.filled r.size)) [
  | inl lt ↦
      rw lt (bytes_with_room r.buf r.start r.size r.filled b v.start (ltb→lt r.filled r.size lt))
  | inr ge ↦
      let full : r.filled ≡ r.size = ground (arith, v.filled) in
      rw ge (bytes_when_full r.buf r.start r.size r.filled b v.start full)
]

size-push : (r : RingBuffer) (b : ℕ) → (push r b).size ≡ r.size
unfolding push
size-push r b = ground arith

copy-below : (buf : ℕ → ℕ) (i : ℕ) (q : Bytes) (j : ℕ) → j < i → copy buf i q j ≡ buf j
unfolding copy
copy-below buf i [] j h = refl
copy-below buf i (b ∷ q) j h = copy-below (store buf i b) (suc i) q j (omega arith) ∙ ground arith

collect-copy :
    (buf : ℕ → ℕ) (size i : ℕ) (q : Bytes)
    → length q + i ≤ size
    → collect (copy buf i q) 0 size (length q) i ≡ q
unfolding collect copy
collect-copy buf size i [] h = refl
collect-copy buf size i (b ∷ q) h =
    let here : (0 + i) % size ≡ i = grind (arith, mod-eq_of_lt) in
    let kept = copy-below (store buf i b) (suc i) q i (omega arith) in
    ap₂ (λ (x : ℕ) (xs : Bytes). x ∷ xs) (rw here (kept ∙ ground arith))
      (collect-copy (store buf i b) size (suc i) q (omega arith))

-- What a write keeps: the invariant, the size, and the end of the text.
record Wrote (r s : RingBuffer) (p : Bytes) : Type 0 where
  valid : IsValid s
  size : s.size ≡ r.size
  text : bytes s ≡ keep r.size (bytes r ++ p)

keep_short : (r : RingBuffer) → IsValid r → bytes r ≡ keep r.size (bytes r ++ [])
unfolding bytes
keep_short r v =
    let short : length (bytes r) - r.size ≡ 0 =
      omega (arith, v.filled, length-collect r.buf r.start r.size r.filled 0) in
    rw (append-nil, short)

drop_past : (xs ys : Bytes) (m : ℕ) → drop (length xs + m) (xs ++ ys) ≡ drop m ys
drop_past [] ys m = ap (λ (k : ℕ). drop k ys) (omega arith)
drop_past (x ∷ xs) ys m = rw suc-add (drop_past xs ys m)

keep_long : (n : ℕ) (xs ys : Bytes) → n ≤ length ys → keep n (xs ++ ys) ≡ keep n ys
keep_long n xs ys h =
    ap (λ (k : ℕ). drop k (xs ++ ys)) (omega (arith, length-append xs ys))
    ∙ drop_past xs ys (length ys - n)

push_all-Wrote : (r : RingBuffer) (p : Bytes) → IsValid r → Wrote r (push_all r p) p
unfolding push_all
push_all-Wrote r [] v = record { valid = v; size = refl; text = keep_short r v }
push_all-Wrote r (b ∷ p) v =
    let rest = push_all-Wrote (push r b) p (push-IsValid r b v) in
    record {
      valid = rest.valid;
      size = rest.size ∙ size-push r b;
      text = rest.text ∙ rw (bytes-push r b v, size-push r b, keep-keep, append_assoc);
    }

write-Wrote : (r : RingBuffer) (p : Bytes) → IsValid r → Wrote r (write r p) p
unfolding write
write-Wrote r p v = elim (Bool-cases (leb r.size (length p))) [
  | inl big ↦
      let q = drop (length p - r.size) p in
      let fits : length q ≡ r.size = ground (arith, length-drop (length p - r.size) p) in
      let le : r.size ≤ length p = ground arith in
      rw big (record {
        valid = record { room = v.room; start = v.room; filled = omega arith };
        size = refl;
        text =
            unfold bytes in
            (ap (λ (n : ℕ). collect (copy r.buf 0 q) 0 r.size n 0) (sym fits)
              ∙ collect-copy r.buf r.size 0 q (omega (arith, fits))
              ∙ sym (keep_long r.size (collect r.buf r.start r.size r.filled 0) p le));
      })
  | inr small ↦ rw small (push_all-Wrote r p v)
]

pub write_all : RingBuffer → List Bytes → RingBuffer
write_all r [] = r
write_all r (p ∷ ps) = write_all (write r p) ps

abbrev pub join : List Bytes → Bytes
join [] = []
join (p ∷ ps) = p ++ join ps

write_all-Wrote :
    (r : RingBuffer) (ps : List Bytes) → IsValid r → Wrote r (write_all r ps) (join ps)
unfolding write_all
write_all-Wrote r [] v = record { valid = v; size = refl; text = keep_short r v }
write_all-Wrote r (p ∷ ps) v =
    let first = write-Wrote r p v in
    let rest = write_all-Wrote (write r p) ps first.valid in
    record {
      valid = rest.valid;
      size = rest.size ∙ first.size;
      text = rest.text ∙ rw (first.text, first.size, keep-keep, append_assoc);
    }

-- A buffer that was made with a positive size holds, after any writes of any lengths, exactly the
-- last bytes of all that was written, in order: all of it while it fits, and otherwise as many as
-- the size.
pub bytes-write_all :
    (size : ℕ) (ps : List Bytes)
    → 0 < size
    → bytes (write_all (new_ring_buffer size) ps) ≡ keep size (join ps)
bytes-write_all size ps h =
    let fresh : IsValid (new_ring_buffer size) =
      unfold new_ring_buffer in record { room = h; start = h; filled = omega arith } in
    let w = write_all-Wrote (new_ring_buffer size) ps fresh in
    w.text ∙ unfold new_ring_buffer bytes collect in refl
