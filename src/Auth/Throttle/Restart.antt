-- ===== src/Auth/Throttle/Restart.antt =====
-- ratelimit.go: a process that has just started has no cache, and the table still has the failures.
use secure_crt.Base.{
  ℕ, ◌+◌, ◌-◌, ◌<◌, ◌≡◌, Bool, true, Option, none, some, [], ◌∷◌, ◌++◌, arith, ltb, if-rule, Bytes,
  bytes_eq_refl,
}
use secure_crt.Auth.Throttle.{
  AttemptKind, cache_key, Throttle, allowed, scan_cached, count_failures, limit_of, check,
  record_failure, or_nil, put,
}

module _ (format_time : ℕ → Bytes) (parse_time : Bytes → Option ℕ) where
  one_cached :
      (u : Throttle) (db_ok : Bool) (kind : AttemptKind) (identifier : Bytes) (then_ now : ℕ)
      → u.recent (cache_key kind identifier) ≡ some (then_ ∷ [])
      → 1 < limit_of format_time parse_time u.cfg kind
      → now < then_ + u.cfg.window
      → 0 < then_
      → check format_time parse_time u db_ok kind identifier now ≡ allowed
  unfolding check count_failures scan_cached
  one_cached u db_ok kind identifier then_ now e h w p =
      let inside : ltb (now - u.cfg.window) then_ ≡ true = ground arith in
      rw (e, inside) (ground arith)

  -- A process that has nothing cached for an identifier, however many failures the table holds:
  -- once one more failure is recorded, with or without the database, every check of that identifier
  -- inside the window of that failure lets the attempt proceed, wherever the limit is above one.
  pub restart_forgets :
      (t : Throttle) (ok db_ok : Bool) (kind : AttemptKind) (c : ℕ) (identifier : Bytes)
      (then_ now : ℕ)
      → t.recent (cache_key kind (c ∷ identifier)) ≡ none
      → 1 < limit_of format_time parse_time t.cfg kind
      → now < then_ + t.cfg.window
      → 0 < then_
      → check format_time parse_time
          (record_failure format_time parse_time t ok kind (c ∷ identifier) then_).0
          db_ok
          kind
          (c ∷ identifier)
          now
        ≡ allowed
  unfolding record_failure
  restart_forgets t ok db_ok kind c identifier then_ now e h w p =
      let key = cache_key kind (c ∷ identifier) in
      let found : put t.recent key (some (or_nil (t.recent key) ++ then_ ∷ [])) key
          ≡ some (then_ ∷ []) =
        rw (bytes_eq_refl key, e) in
      if-rule
        (λ (u : Throttle × Bool).
          check format_time parse_time u.0 db_ok kind (c ∷ identifier) now ≡ allowed)
        ok (λ _. one_cached _ db_ok kind (c ∷ identifier) then_ now found h w p)
        (λ _. one_cached _ db_ok kind (c ∷ identifier) then_ now found h w p)
