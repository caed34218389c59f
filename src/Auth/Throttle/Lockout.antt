-- ===== src/Auth/Throttle/Lockout.antt =====
-- ratelimit.go: who is locked out, for how long, and what ends it.
use secure_crt.Base.{
  ℕ, suc, ◌+◌, ◌-◌, ◌≤◌, ◌≡◌, refl, sym, ◌≢◌, inl, inr, Bool, true, false, ◌&&◌, ◌||◌, Option, none,
  some, List, [], ◌∷◌, ◌++◌, arith, ltb, leb, if◌then◌else◌, Bool-cases, if-rule, Bytes, bytes_eq,
  bytes_eq_refl, bytes_eq_sound, bytes_eq_ne, length,
}
use mathlib.Core.Path.{ap₂}
use secure_crt.Auth.Throttle.{
  AttemptKind, attempt_account, attempt_address, kind_text, cache_key, Attempt, Throttle, allowed,
  rate_limited, older, scan_cached, is_failure_of, select_failures, delete_failures, keep_after,
  count_failures, count_rows, limit_of, scope_of, since_zero, check, row_of, record_failure,
  record_success, is_empty,
}

-- The earliest of some instants.
abbrev pub earliest : List ℕ → Option ℕ → Option ℕ
earliest [] o = o
earliest (at ∷ times) o = earliest times (older o at)

scan_cached_lem :
    (cutoff : ℕ) (times : List ℕ) (n : ℕ) (o : Option ℕ)
    → scan_cached cutoff times n o
      ≡ (n + length (keep_after cutoff times), earliest (keep_after cutoff times) o)
unfolding scan_cached keep_after
scan_cached_lem cutoff [] n o = ground arith
scan_cached_lem cutoff (at ∷ times) n o =
    ground
      (arith, scan_cached_lem cutoff times n o, scan_cached_lem cutoff times (suc n) (older o at))

-- Keys of different attempts differ.
pub cache_key-injective :
    (k l : AttemptKind) (i j : Bytes) → cache_key k i ≡ cache_key l j → (k ≡ l) × (i ≡ j)
unfolding cache_key
cache_key-injective attempt_account attempt_account i j e = (refl, cc)
cache_key-injective attempt_account attempt_address i j e = absurd (cc)
cache_key-injective attempt_address attempt_account i j e = absurd (cc)
cache_key-injective attempt_address attempt_address i j e = (refl, cc)

select-append-other :
    (kind : AttemptKind) (identifier cutoff : Bytes) (rows : List Attempt) (row : Attempt)
    → is_failure_of kind identifier row ≡ false
    → select_failures kind identifier cutoff (rows ++ row ∷ [])
      ≡ select_failures kind identifier cutoff rows
unfolding select_failures
select-append-other kind identifier cutoff [] row h = rw h
select-append-other kind identifier cutoff (r ∷ rows) row h =
    rw (select-append-other kind identifier cutoff rows row h)

select-delete :
    (kind : AttemptKind) (identifier cutoff : Bytes) (rows : List Attempt)
    → select_failures kind identifier cutoff (delete_failures kind identifier rows) ≡ (0, [])
unfolding select_failures delete_failures
select-delete kind identifier cutoff [] = refl
select-delete kind identifier cutoff (row ∷ rows) =
    elim (Bool-cases (is_failure_of kind identifier row)) [
      | inl e ↦ rw e (select-delete kind identifier cutoff rows)
      | inr e ↦ rw (e, e) (select-delete kind identifier cutoff rows)
    ]

never_failed : (a b : Bool) → (a && (b && false)) ≡ false
never_failed a b = ground arith

other_failed :
    (format_time : ℕ → Bytes) (parse_time : Bytes → Option ℕ) (kind other_kind : AttemptKind)
    (identifier other : Bytes) (at : ℕ)
    → cache_key other_kind other ≢ cache_key kind identifier
    → is_failure_of other_kind other (row_of format_time parse_time kind identifier at true) ≡ false
unfolding cache_key
other_failed format_time parse_time kind other_kind identifier other at h =
    elim (Bool-cases (bytes_eq identifier other)) [
      | inr e ↦ rw e
      | inl e ↦ elim (Bool-cases (bytes_eq (kind_text kind) (kind_text other_kind))) [
        | inr f ↦ rw (e, f)
        | inl f ↦ absurd (
            h (
              ap₂ (λ (k i : Bytes). k ++ 0 ∷ i)
                (sym (bytes_eq_sound (kind_text kind) (kind_text other_kind) f))
                (sym (bytes_eq_sound identifier other e))))
      ]
    ]

module _ (format_time : ℕ → Bytes) (parse_time : Bytes → Option ℕ) where
  -- An identifier with cached failures, at least one of them inside the window: the check counts
  -- exactly those inside the window. Below the limit the attempt may proceed; otherwise it is
  -- refused until the lockout, counted from the earliest of them, is over.
  pub check_cached :
      (t : Throttle) (db_ok : Bool) (kind : AttemptKind) (c : ℕ) (identifier : Bytes) (now : ℕ)
      (times : List ℕ) (first : ℕ) (rest : List ℕ)
      → t.recent (cache_key kind (c ∷ identifier)) ≡ some times
      → keep_after (now - t.cfg.window) times ≡ first ∷ rest
      → let until =
          since_zero format_time parse_time (earliest (first ∷ rest) none)
          + t.cfg.lockout_duration in
        check format_time parse_time t db_ok kind (c ∷ identifier) now ≡ (
          if ltb (length (first ∷ rest)) (limit_of format_time parse_time t.cfg kind)
            || leb until now
          then allowed
          else rate_limited (until - now) (scope_of format_time parse_time kind))
  unfolding check count_failures
  check_cached t db_ok kind c identifier now times first rest e k =
      rw (e, scan_cached_lem, k) (ground arith)

  -- After a successful attempt has been recorded, the next check lets the identifier in, whatever
  -- had failed before and whenever it is made.
  pub check-record_success :
      (t : Throttle) (kind : AttemptKind) (identifier : Bytes) (then_ now : ℕ)
      → 1 ≤ limit_of format_time parse_time t.cfg kind
      → check format_time parse_time
          (record_success format_time parse_time t true kind identifier then_).0
          true
          kind
          identifier
          now
        ≡ allowed
  unfolding check count_failures record_success count_rows
  check-record_success t kind [] then_ now h = refl
  check-record_success t kind (c ∷ identifier) then_ now h =
      rw
        (
          bytes_eq_refl (cache_key kind (c ∷ identifier)),
          select-append-other kind (c ∷ identifier) (format_time (now - t.cfg.window))
              (delete_failures kind (c ∷ identifier) t.rows)
              (row_of format_time parse_time kind (c ∷ identifier) then_ false)
              (never_failed (bytes_eq (c ∷ identifier) (c ∷ identifier))
                (bytes_eq (kind_text kind) (kind_text kind))),
          select-delete,
        )
        (ground arith)

  -- A failed attempt of one identifier, of one kind, changes no check of another identifier or of
  -- the other kind.
  pub check-record_failure_ne :
      (t : Throttle) (ok db_ok : Bool) (kind other_kind : AttemptKind) (identifier other : Bytes)
      (then_ now : ℕ)
      → (other_kind ≡ kind → other ≢ identifier)
      → check format_time parse_time
          (record_failure format_time parse_time t ok kind identifier then_).0
          db_ok
          other_kind
          other
          now
        ≡ check format_time parse_time t db_ok other_kind other now
  unfolding check count_failures record_failure count_rows
  check-record_failure_ne t ok db_ok kind other_kind identifier other then_ now h =
      let apart : cache_key other_kind other ≢ cache_key kind identifier =
        λ e. let (k, i) = cache_key-injective other_kind kind other identifier e in h k i in
      let diff = bytes_eq_ne (cache_key other_kind other) (cache_key kind identifier) apart in
      let kept =
        select-append-other other_kind other (format_time (now - t.cfg.window)) t.rows
          (row_of format_time parse_time kind identifier then_ true)
          (other_failed format_time parse_time kind other_kind identifier other then_ apart) in
      if-rule
        (λ (u : Throttle × Bool).
          check format_time parse_time u.0 db_ok other_kind other now
          ≡ check format_time parse_time t db_ok other_kind other now)
        (is_empty identifier) (λ _. refl)
        (λ _.
          if-rule
            (λ (u : Throttle × Bool).
              check format_time parse_time u.0 db_ok other_kind other now
              ≡ check format_time parse_time t db_ok other_kind other now)
            ok (λ _. rw (diff, kept)) (λ _. rw diff))
