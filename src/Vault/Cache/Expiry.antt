-- ===== src/Vault/Cache/Expiry.antt =====
-- cache.go: no key outlives its expiry.
use secure_crt.Base.{
  ℕ, ◌+◌, ◌≤◌, ◌<◌, ◌≡◌, refl, ap, inl, inr, Bool, true, Option, none, some, List, [], ◌∷◌, arith,
  ltb, Bytes, bytes_eq, bytes_eq_sound, Bool-cases, if-rule, Option-cases, All,
}
use secure_crt.Vault.Cache.{
  Entry, Cache, new_cache, lookup, delete, forget, put, refresh, got, get, sweep, sweep_all,
  forget_func, evict_expired, close, Call, call_put, call_get, call_forget, call_forget_func,
  call_evict, call_close, after_call, after_calls,
}

module _ (id : Bytes) (t : ℕ) where
  -- A call that does not put or get this id, or does it at `t` at the latest.
  abbrev pub IsBy : Call → Type 0
  IsBy (call_put j key now) = bytes_eq j id ≡ true → now ≤ t
  IsBy (call_get j now) = bytes_eq j id ≡ true → now ≤ t
  IsBy call = Unit

module _ (id : Bytes) (limit : ℕ) where
  abbrev Expires : Bytes × Entry → Type 0
  Expires (j, e) = bytes_eq j id ≡ true → e.expires_at ≤ limit

  delete-All :
      (j : Bytes) (entries : List (Bytes × Entry))
      → All Expires entries
      → All Expires (delete j entries)
  unfolding delete
  delete-All j [] h = tt
  delete-All j ((i, e) ∷ entries) (p, h) =
      if-rule (All Expires) (bytes_eq i j) (λ _. h) (λ _. (p, delete-All j entries h))

  refresh-All :
      (j : Bytes) (until : ℕ) (entries : List (Bytes × Entry))
      → (bytes_eq j id ≡ true → until ≤ limit)
      → All Expires entries
      → All Expires (refresh j until entries)
  unfolding refresh
  refresh-All j until [] u h = tt
  refresh-All j until ((i, e) ∷ entries) u (p, h) =
      if-rule (All Expires) (bytes_eq i j)
        (λ same. ((λ m. u (rw (← bytes_eq_sound i j same) m)), h))
        (λ _. (p, refresh-All j until entries u h))

  sweep-All :
      (doomed : Bytes → Entry → Bool) (entries : List (Bytes × Entry))
      → All Expires entries
      → All Expires (sweep doomed entries).0
  unfolding sweep
  sweep-All doomed [] h = tt
  sweep-All doomed ((i, e) ∷ entries) (p, h) =
      if-rule (λ (r : List (Bytes × Entry) × List ℕ). All Expires r.0) (doomed i e)
        (λ _. sweep-All doomed entries h) (λ _. (p, sweep-All doomed entries h))

  lookup-le :
      (entries : List (Bytes × Entry)) {e : Entry}
      → All Expires entries
      → lookup id entries ≡ some e
      → e.expires_at ≤ limit
  unfolding lookup
  lookup-le [] h m = cc
  lookup-le ((i, e) ∷ entries) (p, h) m = elim (Bool-cases (bytes_eq i id)) [
    | inl same ↦ omega (arith, p same, ap expiry (rw same at m))
    | inr other ↦ lookup-le entries h (rw other at m)
  ]
    where
      expiry : Option Entry → ℕ
      expiry none = 0
      expiry (some x) = x.expires_at

module _ (id : Bytes) (t ttl : ℕ) where
  record IsOld (c : Cache) : Type 0 where
    ttl_eq : c.ttl ≡ ttl
    expires : All (Expires id (t + ttl)) c.entries

  got-IsOld :
      (c : Cache) (j : Bytes) (now : ℕ) (e : Option Entry)
      → (bytes_eq j id ≡ true → now ≤ t)
      → IsOld c
      → IsOld (got c j now e).0
  got-IsOld c j now none b o = o
  got-IsOld c j now (some e) b o =
      if-rule (λ (r : Cache × Option ℕ). IsOld r.0) (ltb e.expires_at now)
        (λ _.
          unfold forget in
          record { ttl_eq = o.ttl_eq; expires = delete-All id (t + ttl) j c.entries o.expires })
        (λ _. record {
          ttl_eq = o.ttl_eq;
          expires =
              refresh-All id (t + ttl) j (now + c.ttl) c.entries (λ m. omega (arith, b m, o.ttl_eq))
                o.expires;
        })

  sweep_all-IsOld :
      (c : Cache) (doomed : Bytes → Entry → Bool) → IsOld c → IsOld (sweep_all c doomed).0
  unfolding sweep_all
  sweep_all-IsOld c doomed o = record {
    ttl_eq = o.ttl_eq;
    expires = sweep-All id (t + ttl) doomed c.entries o.expires;
  }

  after_call-IsOld :
      (c : Cache) (call : Call) → IsBy id t call → IsOld c → IsOld (after_call c call)
  unfolding after_call put get forget forget_func evict_expired close
  after_call-IsOld c (call_put j key now) b o = record {
    ttl_eq = o.ttl_eq;
    expires = ((λ m. omega (arith, b m, o.ttl_eq)), delete-All id (t + ttl) j c.entries o.expires);
  }
  after_call-IsOld c (call_get j now) b o = got-IsOld c j now (lookup j c.entries) b o
  after_call-IsOld c (call_forget j) b o = record {
    ttl_eq = o.ttl_eq;
    expires = delete-All id (t + ttl) j c.entries o.expires;
  }
  after_call-IsOld c (call_forget_func pred) b o = sweep_all-IsOld c (λ i e. pred i) o
  after_call-IsOld c (call_evict now) b o = sweep_all-IsOld c (λ i e. ltb e.expires_at now) o
  after_call-IsOld c call_close b o = sweep_all-IsOld c (λ i e. true) o

  after_calls-IsOld :
      (c : Cache) (calls : List Call)
      → All (IsBy id t) calls
      → IsOld c
      → IsOld (after_calls c calls)
  unfolding after_calls
  after_calls-IsOld c [] b o = o
  after_calls-IsOld c (call ∷ calls) (p, b) o =
      after_calls-IsOld (after_call c call) calls b (after_call-IsOld c call p o)

-- However a new cache has been used, with every put and get of one session at `t` or before: `Get`
-- of that session, at any instant later than `t` by more than the time to live, finds it locked,
-- whether or not expired entries have been evicted.
pub get-idle :
    (ttl t now : ℕ) (id : Bytes) (calls : List Call)
    → All (IsBy id t) calls
    → t + ttl < now
    → (get (after_calls (new_cache ttl) calls) id now).1 ≡ none
get-idle ttl t now id calls b late =
    let c = after_calls (new_cache ttl) calls in
    let o =
      after_calls-IsOld id t ttl (new_cache ttl) calls b
        (unfold new_cache in record { ttl_eq = refl; expires = tt }) in
    elim (Option-cases (lookup id c.entries)) [
      | inl absent ↦ unfold get in rw absent refl
      | inr present ↦
          let (e, m) = present in
          let gone : ltb e.expires_at now ≡ true =
            ground (arith, lookup-le id (t + ttl) c.entries o.expires m) in
          unfold get in rw (m, gone) refl
    ]
