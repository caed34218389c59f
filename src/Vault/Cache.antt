-- ===== src/Vault/Cache.antt =====
-- internal/vault/cache.go: the cache of unwrapped keys. A key is a number that stands for its
-- memory; which keys have been overwritten with zeros, in order, is kept beside the entries. The
-- map is an association list with at most one entry for an id.
pub mod Ownership
pub mod Expiry
use secure_crt.Base.{
  ℕ, ◌+◌, Bool, Option, none, some, List, [], ◌∷◌, ◌++◌, ltb, if◌then◌else◌, Bytes, bytes_eq,
  length,
}

pub record Entry : Type 0 where
  pub key : ℕ
  pub expires_at : ℕ

pub record Cache : Type 0 where
  pub entries : List (Bytes × Entry)
  pub ttl : ℕ
  pub zeroed : List ℕ

unfoldable pub new_cache : ℕ → Cache
new_cache ttl = record { entries = []; ttl = ttl; zeroed = [] }

unfoldable pub lookup : Bytes → List (Bytes × Entry) → Option Entry
lookup id [] = none
lookup id ((j, e) ∷ entries) =
    let rest = lookup id entries in if bytes_eq j id then some e else rest

unfoldable pub delete : Bytes → List (Bytes × Entry) → List (Bytes × Entry)
delete id [] = []
delete id ((j, e) ∷ entries) =
    let rest = delete id entries in if bytes_eq j id then entries else (j, e) ∷ rest

-- `Zero` and `delete` for the entry of an id, if there is one.
abbrev pub zero_of : Option Entry → List ℕ
zero_of none = []
zero_of (some e) = e.key ∷ []

unfoldable pub forget : Cache → Bytes → Cache
forget c id = record c {
  entries = delete id c.entries;
  zeroed = c.zeroed ++ zero_of (lookup id c.entries);
}

unfoldable pub put : Cache → Bytes → ℕ → ℕ → Cache
put c id key now = record c {
  entries = (id, record { key = key; expires_at = now + c.ttl }) ∷ delete id c.entries;
  zeroed = c.zeroed ++ zero_of (lookup id c.entries);
}

unfoldable pub refresh : Bytes → ℕ → List (Bytes × Entry) → List (Bytes × Entry)
refresh id until [] = []
refresh id until ((j, e) ∷ entries) =
    let rest = refresh id until entries in
    if bytes_eq j id then (j, record e { expires_at = until }) ∷ entries else (j, e) ∷ rest

-- `none` is `ErrLocked`.
abbrev pub got : Cache → Bytes → ℕ → Option Entry → Cache × Option ℕ
got c id now none = (c, none)
got c id now (some e) =
    if ltb e.expires_at now
    then (forget c id, none)
    else (record c { entries = refresh id (now + c.ttl) c.entries }, some e.key)

unfoldable pub get : Cache → Bytes → ℕ → Cache × Option ℕ
get c id now = got c id now (lookup id c.entries)

-- The loop of `ForgetFunc`, of `EvictExpired` and of `Close`: the entries that are left, and the keys
-- of the others.
unfoldable pub sweep : (Bytes → Entry → Bool) → List (Bytes × Entry) → List (Bytes × Entry) × List ℕ
sweep doomed [] = ([], [])
sweep doomed ((j, e) ∷ entries) =
    let rest = sweep doomed entries in
    if doomed j e then (rest.0, e.key ∷ rest.1) else ((j, e) ∷ rest.0, rest.1)

unfoldable pub sweep_all : Cache → (Bytes → Entry → Bool) → Cache × ℕ
sweep_all c doomed =
    let swept = sweep doomed c.entries in
    (record c { entries = swept.0; zeroed = c.zeroed ++ swept.1 }, length swept.1)

unfoldable pub forget_func : Cache → (Bytes → Bool) → Cache × ℕ
unfolding sweep_all
forget_func c pred = sweep_all c (λ id e. pred id)

unfoldable pub evict_expired : Cache → ℕ → Cache × ℕ
unfolding sweep_all
evict_expired c now = sweep_all c (λ id e. ltb e.expires_at now)

unfoldable pub close : Cache → Cache
unfolding sweep_all
close c = (sweep_all c (λ id e. Bool.true)).0

-- The calls of the cache's methods, each at its instant.
pub data Call : Type 0 where
  call_put : Bytes → ℕ → ℕ → Call
  call_get : Bytes → ℕ → Call
  call_forget : Bytes → Call
  call_forget_func : (Bytes → Bool) → Call
  call_evict : ℕ → Call
  call_close : Call

unfoldable pub after_call : Cache → Call → Cache
after_call c (call_put id key now) = put c id key now
after_call c (call_get id now) = (get c id now).0
after_call c (call_forget id) = forget c id
after_call c (call_forget_func pred) = (forget_func c pred).0
after_call c (call_evict now) = (evict_expired c now).0
after_call c call_close = close c

unfoldable pub after_calls : Cache → List Call → Cache
after_calls c [] = c
after_calls c (call ∷ calls) = after_calls (after_call c call) calls
