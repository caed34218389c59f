-- ===== src/Auth/Throttle.antt =====
-- internal/auth/ratelimit.go: the throttle on authentication attempts. Instants are nanoseconds from
-- Go's zero time. How the database's text of an instant is written and read is a parameter
-- (`formatTime` and `parseTime` call Go's `time`), and each statement may fail.
pub mod Config
pub mod Lockout
pub mod Restart
use secure_crt.Base.{
  ℕ, zero, suc, ◌+◌, ◌-◌, ◌*◌, ◌/◌, ◌%◌, ◌^◌, ◌≤◌, ◌<◌, min, ◌≡◌, refl, sym, ap, ◌∙◌, ◌≢◌, ◌↔◌, ◌⊎◌,
  inl, inr, Bool, true, false, not, ◌&&◌, ◌||◌, Option, none, some, List, [], ◌∷◌, ◌++◌, map,
  append-nil, append_assoc, arith, ltb, leb, ◌==◌, if◌then◌else◌, ltb→lt, lt→ltb, ==_iff,
  Bool-cases, Option-cases, if-rule, Bytes, codes, bytes_eq, bytes_eq_refl, bytes_eq_sound, length,
  get_elem?, take, drop, length-append, take-append-drop, length-take, length-drop, All, All-append,
}
use Config.{ThrottleConfig, Limits}

pub data AttemptKind : Type 0 where
  attempt_account attempt_address : AttemptKind

abbrev pub kind_text : AttemptKind → Bytes
kind_text attempt_account = codes "account"
kind_text attempt_address = codes "ip"

unfoldable pub cache_key : AttemptKind → Bytes → Bytes
cache_key kind identifier = kind_text kind ++ 0 ∷ identifier

-- A row of `login_attempts`.
pub record Attempt : Type 0 where
  pub identifier : Bytes
  pub kind : Bytes
  pub attempted_at : Bytes
  pub failed : Bool

-- `recent` is the cache in front of the table.
pub record Throttle : Type 0 where
  pub cfg : Limits
  pub recent : Bytes → Option (List ℕ)
  pub rows : List Attempt

pub data CheckResult : Type 0 where
  allowed : CheckResult
  rate_limited : ℕ → Bytes → CheckResult
  database_error bad_timestamp : CheckResult

abbrev pub is_empty : Bytes → Bool
is_empty [] = true
is_empty _ = false

-- The order of texts in the database, byte by byte.
unfoldable pub text_lt : Bytes → Bytes → Bool
text_lt xs [] = false
text_lt [] (y ∷ ys) = true
text_lt (x ∷ xs) (y ∷ ys) = ltb x y || (x == y && text_lt xs ys)

-- The loop over the cached failures: how many are inside the window, and the oldest of them.
abbrev pub older : Option ℕ → ℕ → Option ℕ
older none at = some at
older (some o) at = if ltb at o then some at else some o

unfoldable pub scan_cached : ℕ → List ℕ → ℕ → Option ℕ → ℕ × Option ℕ
scan_cached cutoff [] n oldest = (n, oldest)
scan_cached cutoff (at ∷ times) n oldest =
    if ltb cutoff at
    then scan_cached cutoff times (suc n) (older oldest at)
    else scan_cached cutoff times n oldest

abbrev pub put : (Bytes → Option (List ℕ)) → Bytes → Option (List ℕ) → Bytes → Option (List ℕ)
put m key v j = if bytes_eq j key then v else m j

abbrev pub or_nil : Option (List ℕ) → List ℕ
or_nil none = []
or_nil (some ts) = ts

-- `WHERE identifier = ? AND kind = ? AND outcome = 'failure'`
abbrev pub is_failure_of : AttemptKind → Bytes → Attempt → Bool
is_failure_of kind identifier row =
    bytes_eq row.identifier identifier && (bytes_eq row.kind (kind_text kind) && row.failed)

-- `AND attempted_at > ?`, counted, with the least text.
abbrev pub least : Bytes → Bytes → Bytes
least [] t = t
least (c ∷ m) t = if text_lt t (c ∷ m) then t else c ∷ m

unfoldable pub select_failures : AttemptKind → Bytes → Bytes → List Attempt → ℕ × Bytes
select_failures kind identifier cutoff [] = (0, [])
select_failures kind identifier cutoff (row ∷ rows) =
    let (n, oldest) = select_failures kind identifier cutoff rows in
    if is_failure_of kind identifier row && text_lt cutoff row.attempted_at
    then (suc n, least oldest row.attempted_at)
    else (n, oldest)

unfoldable pub delete_failures : AttemptKind → Bytes → List Attempt → List Attempt
delete_failures kind identifier [] = []
delete_failures kind identifier (row ∷ rows) =
    let rest = delete_failures kind identifier rows in
    if is_failure_of kind identifier row then rest else row ∷ rest

unfoldable pub keep_since : Bytes → List Attempt → List Attempt
keep_since cutoff [] = []
keep_since cutoff (row ∷ rows) =
    let rest = keep_since cutoff rows in
    if text_lt row.attempted_at cutoff then rest else row ∷ rest

unfoldable pub keep_after : ℕ → List ℕ → List ℕ
keep_after cutoff [] = []
keep_after cutoff (at ∷ times) =
    let rest = keep_after cutoff times in if ltb cutoff at then at ∷ rest else rest

-- The failures that `countFailures` returns, or its error.
pub data Count : Type 0 where
  counted : ℕ → Option ℕ → Count
  count_failed timestamp_failed : Count

abbrev pub pruned : List ℕ → Option (List ℕ)
pruned [] = none
pruned (at ∷ times) = some (at ∷ times)

module _ (format_time : ℕ → Bytes) (parse_time : Bytes → Option ℕ) where
  abbrev pub from_text : ℕ → Option ℕ → Count
  from_text n none = timestamp_failed
  from_text n (some at) = counted n (some at)

  abbrev pub from_rows : ℕ × Bytes → Count
  from_rows (zero, oldest) = counted 0 none
  from_rows (suc n, []) = counted 0 none
  from_rows (suc n, c ∷ oldest) = from_text (suc n) (parse_time (c ∷ oldest))

  unfoldable pub count_rows : Throttle → Bool → AttemptKind → Bytes → ℕ → Count
  count_rows t db_ok kind identifier cutoff =
      if not db_ok
      then count_failed
      else from_rows (select_failures kind identifier (format_time cutoff) t.rows)

  -- What the cache says, if it has a failure inside the window.
  abbrev pub from_cache : ℕ × Option ℕ → Count → Count
  from_cache (zero, oldest) rest = rest
  from_cache (suc n, oldest) rest = counted (suc n) oldest

  abbrev pub from_recent : Option (List ℕ) → ℕ → Count → Count
  from_recent none cutoff rest = rest
  from_recent (some cached) cutoff rest = from_cache (scan_cached cutoff cached 0 none) rest

  unfoldable pub count_failures : Throttle → Bool → AttemptKind → Bytes → ℕ → Count
  count_failures t db_ok kind identifier now =
      let cutoff = now - t.cfg.window in
      from_recent (t.recent (cache_key kind identifier)) cutoff
        (count_rows t db_ok kind identifier cutoff)

  abbrev pub limit_of : Limits → AttemptKind → ℕ
  limit_of cfg attempt_account = cfg.max_per_account
  limit_of cfg attempt_address = cfg.max_per_address

  abbrev pub scope_of : AttemptKind → Bytes
  scope_of attempt_account = codes "account"
  scope_of attempt_address = codes "address"

  -- The wait from the oldest failure; the zero time is long ago.
  abbrev pub since_zero : Option ℕ → ℕ
  since_zero none = 0
  since_zero (some at) = at

  abbrev pub decide : Limits → AttemptKind → ℕ → Count → CheckResult
  decide cfg kind now count_failed = database_error
  decide cfg kind now timestamp_failed = bad_timestamp
  decide cfg kind now (counted failures oldest) =
      if ltb failures (limit_of cfg kind)
      then allowed
      else if leb (since_zero oldest + cfg.lockout_duration) now
      then allowed
      else rate_limited (since_zero oldest + cfg.lockout_duration - now) (scope_of kind)

  unfoldable pub check : Throttle → Bool → AttemptKind → Bytes → ℕ → CheckResult
  check t db_ok kind identifier now =
      if is_empty identifier
      then allowed
      else decide t.cfg kind now (count_failures t db_ok kind identifier now)

  abbrev pub row_of : AttemptKind → Bytes → ℕ → Bool → Attempt
  row_of kind identifier now failed = record {
    identifier = identifier;
    kind = kind_text kind;
    attempted_at = format_time now;
    failed = failed;
  }

  -- The flag is false where the source returns an error. The cache is written first.
  unfoldable pub record_failure : Throttle → Bool → AttemptKind → Bytes → ℕ → Throttle × Bool
  record_failure t db_ok kind identifier now =
      let key = cache_key kind identifier in
      let cached = record t {
        recent = put t.recent key (some (or_nil (t.recent key) ++ now ∷ []));
      } in
      if is_empty identifier
      then (t, true)
      else if db_ok
      then (record cached { rows = t.rows ++ row_of kind identifier now true ∷ [] }, true)
      else (cached, false)

  -- Both statements run in one transaction.
  unfoldable pub record_success : Throttle → Bool → AttemptKind → Bytes → ℕ → Throttle × Bool
  record_success t db_ok kind identifier now =
      let cleared = record t { recent = put t.recent (cache_key kind identifier) none } in
      if is_empty identifier
      then (t, true)
      else if db_ok
      then (
        record cleared {
          rows = delete_failures kind identifier t.rows ++ row_of kind identifier now false ∷ [];
        },
        true,
      )
      else (cleared, false)

  unfoldable pub purge : Throttle → Bool → ℕ → ℕ → Throttle × Bool
  purge t db_ok retain now =
      let cutoff = now - retain in
      let kept = record t {
        recent = λ key. elim (t.recent key) [
          | none ↦ none
          | some times ↦ pruned (keep_after cutoff times)
        ];
      } in
      if db_ok
      then (record kept { rows = keep_since (format_time cutoff) t.rows }, true)
      else (kept, false)
