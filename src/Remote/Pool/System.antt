-- ===== src/Remote/Pool/System.antt =====
-- pool.go: the callers of the pool, in any interleaving of its critical sections.
use secure_crt.Base.{ℕ, suc, ◌-◌, ◌≡◌, ◌<◌, Bool, true, false, [], ◌==◌, if◌then◌else◌}
use secure_crt.Remote.Pool.{
  Key, Pool, Next, pool_closed, waits_for, dials, acquire, Dialled, connected, dial_failed,
  finish_dial, release, connection_ended, close_pool, entry_of,
}

-- How many callers are dialling an entry, wait for its dial, or hold a lease on it that they have
-- not released; and whether the goroutine that watches its connection still runs.
pub record Users : Type 0 where
  pub dialling : ℕ
  pub waiting : ℕ
  pub leased : ℕ
  pub watched : Bool

abbrev pub nobody : Users
nobody = record { dialling = 0; waiting = 0; leased = 0; watched = false }

pub record System : Type 0 where
  pub pool : Pool
  pub users : ℕ → Users

abbrev pub with_users : (ℕ → Users) → ℕ → Users → ℕ → Users
with_users users i u j = if j == i then u else users j

abbrev pub start : Key → System
start any = record {
  pool = record { entries = λ i. entry_of any; next = 0; conns = []; closed = false; effects = [] };
  users = λ i. nobody;
}

-- The caller of `Acquire` after its first critical section.
unfoldable pub join_users : (ℕ → Users) → Next → ℕ → Users
join_users users pool_closed = users
join_users users (waits_for i) =
    with_users users i (record (users i) { waiting = suc (users i).waiting })
join_users users (dials i) =
    with_users users i (record (users i) { dialling = suc (users i).dialling })

unfoldable pub acquires : System → Key → System
acquires s key = record {
  pool = (acquire s.pool key).0;
  users = join_users s.users (acquire s.pool key).1;
}

abbrev pub dialler_after : Users → Dialled → Users
dialler_after u (connected has_release) = record u {
  dialling = u.dialling - 1;
  leased = suc u.leased;
  watched = true;
}
dialler_after u (dial_failed has_release) = record u { dialling = u.dialling - 1 }

unfoldable pub dial_ends : System → ℕ → Dialled → System
dial_ends s i d = record {
  pool = finish_dial s.pool i d;
  users = with_users s.users i (dialler_after (s.users i) d);
}

-- `wait`, when the dial has finished: an error gives no lease, and gives no reference back.
abbrev pub waiter_after : Users → Bool → Users
waiter_after u true = record u { waiting = u.waiting - 1 }
waiter_after u false = record u { waiting = u.waiting - 1; leased = suc u.leased }

unfoldable pub wait_ends : System → ℕ → System
wait_ends s i = record s {
  users = with_users s.users i (waiter_after (s.users i) (s.pool.entries i).failed);
}

-- `wait`, when the caller's context ends.
unfoldable pub wait_cancelled : System → ℕ → System
wait_cancelled s i = record {
  pool = release s.pool i;
  users = with_users s.users i (record (s.users i) { waiting = (s.users i).waiting - 1 });
}

unfoldable pub lease_released : System → ℕ → System
lease_released s i = record {
  pool = release s.pool i;
  users = with_users s.users i (record (s.users i) { leased = (s.users i).leased - 1 });
}

unfoldable pub watch_ends : System → ℕ → System
watch_ends s i = record {
  pool = connection_ended s.pool i;
  users = with_users s.users i (record (s.users i) { watched = false });
}

unfoldable pub pool_closes : System → System
pool_closes s = record s { pool = close_pool s.pool }

-- One critical section of one caller.
pub data Step (s : System) : System → Type 0 where
  acquiring : (key : Key) → Step s (acquires s key)
  dialled : (i : ℕ) (d : Dialled) → 0 < (s.users i).dialling → Step s (dial_ends s i d)
  waited :
      (i : ℕ) → 0 < (s.users i).waiting → (s.pool.entries i).ready ≡ true → Step s (wait_ends s i)
  cancelled : (i : ℕ) → 0 < (s.users i).waiting → Step s (wait_cancelled s i)
  releasing : (i : ℕ) → 0 < (s.users i).leased → Step s (lease_released s i)
  ended : (i : ℕ) → (s.users i).watched ≡ true → Step s (watch_ends s i)
  closing : Step s (pool_closes s)

-- What can be reached from an empty pool.
pub data Reach : System → Type 0 where
  empty : (any : Key) → Reach (start any)
  then_ : {s t : System} → Reach s → Step s t → Reach t
