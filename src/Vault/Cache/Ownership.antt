-- ===== src/Vault/Cache/Ownership.antt =====
-- cache.go: no key is lost.
use secure_crt.Base.{
  ℕ, ◌+◌, ◌≡◌, refl, ◌∙◌, ap, inl, inr, Bool, true, false, Option, none, some, List, [], ◌∷◌, ◌++◌,
  arith, ltb, ◌==◌, Bytes, bytes_eq, Bool-cases, if-rule,
}
use secure_crt.Vault.Cache.{
  Entry, Cache, new_cache, lookup, delete, zero_of, forget, put, refresh, got, get, sweep,
  sweep_all, forget_func, evict_expired, close, Call, call_put, call_get, call_forget,
  call_forget_func, call_evict, call_close, after_call, after_calls,
}

-- How often a key occurs.
abbrev pub one_if : Bool → ℕ
one_if true = 1
one_if false = 0

abbrev pub count : ℕ → List ℕ → ℕ
count k [] = 0
count k (x ∷ xs) = one_if (x == k) + count k xs

abbrev pub held : ℕ → List (Bytes × Entry) → ℕ
held k [] = 0
held k ((id, e) ∷ entries) = one_if (e.key == k) + held k entries

abbrev pub given : ℕ → List Call → ℕ
given k [] = 0
given k (call_put id key now ∷ calls) = one_if (key == k) + given k calls
given k (call_get id now ∷ calls) = given k calls
given k (call_forget id ∷ calls) = given k calls
given k (call_forget_func pred ∷ calls) = given k calls
given k (call_evict now ∷ calls) = given k calls
given k (call_close ∷ calls) = given k calls

count-append : (k : ℕ) (xs ys : List ℕ) → count k (xs ++ ys) ≡ count k xs + count k ys
count-append k [] ys = omega arith
count-append k (x ∷ xs) ys = omega (arith, count-append k xs ys)

held-delete :
    (k : ℕ) (id : Bytes) (entries : List (Bytes × Entry))
    → held k (delete id entries) + count k (zero_of (lookup id entries)) ≡ held k entries
unfolding delete lookup
held-delete k id [] = omega arith
held-delete k id ((j, e) ∷ entries) = elim (Bool-cases (bytes_eq j id)) [
  | inl h ↦ rw h (omega arith)
  | inr h ↦ rw h (omega (arith, held-delete k id entries))
]

held-refresh :
    (k : ℕ) (id : Bytes) (until : ℕ) (entries : List (Bytes × Entry))
    → held k (refresh id until entries) ≡ held k entries
unfolding refresh
held-refresh k id until [] = refl
held-refresh k id until ((j, e) ∷ entries) = elim (Bool-cases (bytes_eq j id)) [
  | inl h ↦ rw h refl
  | inr h ↦ rw h (omega (arith, held-refresh k id until entries))
]

held-sweep :
    (k : ℕ) (doomed : Bytes → Entry → Bool) (entries : List (Bytes × Entry))
    → held k (sweep doomed entries).0 + count k (sweep doomed entries).1 ≡ held k entries
unfolding sweep
held-sweep k doomed [] = refl
held-sweep k doomed ((j, e) ∷ entries) = elim (Bool-cases (doomed j e)) [
  | inl h ↦ rw h (omega (arith, held-sweep k doomed entries))
  | inr h ↦ rw h (omega (arith, held-sweep k doomed entries))
]

-- What the cache accounts for.
abbrev accounted : ℕ → Cache → ℕ
accounted k c = held k c.entries + count k c.zeroed

accounted-forget : (k : ℕ) (c : Cache) (id : Bytes) → accounted k (forget c id) ≡ accounted k c
unfolding forget
accounted-forget k c id =
    omega
      (arith, held-delete k id c.entries, count-append k c.zeroed (zero_of (lookup id c.entries)))

accounted-sweep :
    (k : ℕ) (c : Cache) (doomed : Bytes → Entry → Bool)
    → accounted k (sweep_all c doomed).0 ≡ accounted k c
unfolding sweep_all
accounted-sweep k c doomed =
    omega (arith, held-sweep k doomed c.entries, count-append k c.zeroed (sweep doomed c.entries).1)

accounted-got :
    (k : ℕ) (c : Cache) (id : Bytes) (now : ℕ) (e : Option Entry)
    → accounted k (got c id now e).0 ≡ accounted k c
accounted-got k c id now none = refl
accounted-got k c id now (some e) =
    if-rule (λ (r : Cache × Option ℕ). accounted k r.0 ≡ accounted k c) (ltb e.expires_at now)
      (λ _. accounted-forget k c id) (λ _. omega (arith, held-refresh k id (now + c.ttl) c.entries))

accounted-after_call :
    (k : ℕ) (c : Cache) (call : Call)
    → accounted k (after_call c call) ≡ given k (call ∷ []) + accounted k c
unfolding after_call put get forget_func evict_expired close
accounted-after_call k c (call_put id key now) =
    omega
      (arith, held-delete k id c.entries, count-append k c.zeroed (zero_of (lookup id c.entries)))
accounted-after_call k c (call_get id now) =
    omega (arith, accounted-got k c id now (lookup id c.entries))
accounted-after_call k c (call_forget id) = omega (arith, accounted-forget k c id)
accounted-after_call k c (call_forget_func pred) =
    omega (arith, accounted-sweep k c (λ id e. pred id))
accounted-after_call k c (call_evict now) =
    omega (arith, accounted-sweep k c (λ id e. ltb e.expires_at now))
accounted-after_call k c call_close = omega (arith, accounted-sweep k c (λ id e. true))

given-cons :
    (k : ℕ) (call : Call) (calls : List Call)
    → given k (call ∷ calls) ≡ given k (call ∷ []) + given k calls
given-cons k (call_put id key now) calls = omega arith
given-cons k (call_get id now) calls = omega arith
given-cons k (call_forget id) calls = omega arith
given-cons k (call_forget_func pred) calls = omega arith
given-cons k (call_evict now) calls = omega arith
given-cons k call_close calls = omega arith

accounted-after_calls :
    (k : ℕ) (c : Cache) (calls : List Call)
    → accounted k (after_calls c calls) ≡ given k calls + accounted k c
unfolding after_calls
accounted-after_calls k c [] = omega arith
accounted-after_calls k c (call ∷ calls) = omega (
  arith,
  accounted-after_calls k (after_call c call) calls,
  accounted-after_call k c call,
  given-cons k call calls,
)

-- After any calls on a new cache, in any order and at any instants, each key that it was given is
-- accounted for as often as it was given: it is held by an entry or has been overwritten with zeros,
-- and never both for one gift of it.
pub held-zeroed :
    (ttl k : ℕ) (calls : List Call)
    → let c = after_calls (new_cache ttl) calls in
      held k c.entries + count k c.zeroed ≡ given k calls
held-zeroed ttl k calls =
    accounted-after_calls k (new_cache ttl) calls ∙ unfold new_cache in omega arith

sweep_everything : (entries : List (Bytes × Entry)) → (sweep (λ id e. true) entries).0 ≡ []
unfolding sweep
sweep_everything [] = refl
sweep_everything ((j, e) ∷ entries) = sweep_everything entries

after_calls-append :
    (c : Cache) (calls : List Call) (call : Call)
    → after_calls c (calls ++ call ∷ []) ≡ after_call (after_calls c calls) call
unfolding after_calls
after_calls-append c [] call = refl
after_calls-append c (x ∷ calls) call = after_calls-append (after_call c x) calls call

given-append : (k : ℕ) (calls : List Call) → given k (calls ++ call_close ∷ []) ≡ given k calls
given-append k [] = refl
given-append k (x ∷ calls) =
    given-cons k x (calls ++ call_close ∷ [])
    ∙ (omega (arith, given-append k calls, given-cons k x calls))

-- After `Close`, whatever was called before it, every key that the cache was ever given has been
-- overwritten with zeros, and none is held.
pub close-zeroed :
    (ttl k : ℕ) (calls : List Call)
    → let c = after_calls (new_cache ttl) (calls ++ call_close ∷ []) in
      (c.entries ≡ []) × (count k c.zeroed ≡ given k calls)
close-zeroed ttl k calls =
    let c = after_calls (new_cache ttl) calls in
    let emptied : (after_calls (new_cache ttl) (calls ++ call_close ∷ [])).entries ≡ [] =
      ap (λ (x : Cache). x.entries) (after_calls-append (new_cache ttl) calls call_close)
      ∙ unfold after_call close sweep_all in sweep_everything c.entries in
    let none_held = ap (held k) emptied in
    (
      emptied,
      omega (arith, held-zeroed ttl k (calls ++ call_close ∷ []), none_held, given-append k calls),
    )
