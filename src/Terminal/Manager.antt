-- ===== src/Terminal/Manager.antt =====
-- internal/terminal/session.go: the manager that holds the live terminals. What has been taken out of its
-- map is kept, so that what became of it can be said.
pub mod Tidy
pub mod Accounted
pub mod Owned
pub mod Reaped
use secure_crt.Base.{
  ℕ, suc, ◌-◌, ◌*◌, Bool, true, false, not, ◌&&◌, Option, none, some, List, [], ◌∷◌, ◌++◌, ltb,
  if◌then◌else◌, Bytes, bytes_eq, codes,
}
use secure_crt.Terminal.Session.{
  OpenParams, Terminal, open_terminal, close, Cause, deliberate, Call, after_call,
}

-- Minutes in nanoseconds, as Go's durations are.
abbrev pub detached_grace : ℕ
detached_grace = 15 * (60 * (1000 * (1000 * 1000)))

-- A terminal under its identifier.
pub record Held : Type 0 where
  pub id : Bytes
  pub terminal : Terminal

pub record Manager : Type 0 where
  pub terminals : List Held
  pub closed : List Held
  pub draining : Bool

abbrev pub new_manager : Manager
new_manager = record { terminals = []; closed = []; draining = false }

-- The map from identifiers to terminals.
unfoldable pub find : Bytes → List Held → Option Terminal
find id [] = none
find id (h ∷ hs) = if bytes_eq h.id id then some h.terminal else find id hs

unfoldable pub remove : Bytes → List Held → List Held
remove id [] = []
remove id (h ∷ hs) = let rest = remove id hs in if bytes_eq h.id id then rest else h ∷ rest

-- `Open`. The identifier comes from a package that makes each one once; of a terminal under one that is in the map
-- the assignment to the map would keep nothing, as it does here.
unfoldable pub open_ : Manager → Bytes → OpenParams → Manager
open_ m id p = record m {
  terminals = record { id = id; terminal = open_terminal p } ∷ remove id m.terminals;
}

pub data ManagerError : Type 0 where
  terminal_not_found : ManagerError

-- The owner's check of `Get`.
unfoldable pub owned_by : Bytes → Option Terminal → Option Terminal
owned_by user_id none = none
owned_by user_id (some t) = if bytes_eq t.user_id user_id then some t else none

-- `Get`, which has one error for a missing terminal and for somebody else's.
unfoldable pub get : Manager → Bytes → Bytes → Option Terminal
get m user_id id = owned_by user_id (find id m.terminals)

-- A terminal is taken out of the map and closed.
unfoldable pub take_out : Manager → Bytes → Bytes → Option Terminal → Manager × Option ManagerError
take_out m id why none = (m, some terminal_not_found)
take_out m id why (some t) = (
  record m {
    terminals = remove id m.terminals;
    closed = record { id = id; terminal = close t (deliberate why) } ∷ m.closed;
  },
  none,
)

unfoldable pub close_terminal : Manager → Bytes → Bytes → Manager × Option ManagerError
close_terminal m user_id id =
    take_out m id (codes "terminal: closed by the user") (get m user_id id)

-- `CloseAny`, which asks for no owner.
unfoldable pub close_any : Manager → Bytes → Manager × Option ManagerError
close_any m id = take_out m id (codes "terminal: ended by an administrator") (find id m.terminals)

-- The test of `reapOnce`: no browser, and detached for longer than the grace.
abbrev pub is_none : Option ℕ → Bool
is_none none = true
is_none (some i) = false

abbrev pub overdue : ℕ → Option ℕ → Bool
overdue now none = false
overdue now (some since) = ltb detached_grace (now - since)

unfoldable pub expired : ℕ → Terminal → Bool
expired now t = is_none t.attached && overdue now t.detached_at

unfoldable pub abandoned : ℕ → List Held → List Held
abandoned now [] = []
abandoned now (h ∷ hs) =
    let rest = abandoned now hs in if expired now h.terminal then h ∷ rest else rest

unfoldable pub kept : ℕ → List Held → List Held
kept now [] = []
kept now (h ∷ hs) = let rest = kept now hs in if expired now h.terminal then rest else h ∷ rest

unfoldable pub close_all : Bytes → List Held → List Held
close_all why [] = []
close_all why (h ∷ hs) =
    record h { terminal = close h.terminal (deliberate why) } ∷ close_all why hs

unfoldable pub reap_once : Manager → ℕ → Manager
reap_once m now = record m {
  terminals = kept now m.terminals;
  closed = close_all (codes "terminal: abandoned") (abandoned now m.terminals) ++ m.closed;
}

-- `Close`, at shutdown.
unfoldable pub shut_down : Manager → Manager
shut_down m = record m {
  terminals = [];
  closed = close_all (codes "terminal: server shutting down") m.terminals ++ m.closed;
}

-- A call of one of a terminal's own methods, by whoever holds it.
unfoldable pub change : Bytes → Call → List Held → List Held
change id call [] = []
change id call (h ∷ hs) =
    let rest = change id call hs in
    if bytes_eq h.id id then record h { terminal = after_call h.terminal call } ∷ rest else h ∷ rest

unfoldable pub set_draining : Manager → Bool → Manager
set_draining m on = record m { draining = on }

-- `CountForUser` and `OpenCount`.
unfoldable pub count_for_user : Bytes → List Held → ℕ
count_for_user user_id [] = 0
count_for_user user_id (h ∷ hs) =
    let rest = count_for_user user_id hs in
    if bytes_eq h.terminal.user_id user_id then suc rest else rest

unfoldable pub open_count : List Held → ℕ
open_count [] = 0
open_count (h ∷ hs) = let rest = open_count hs in if h.terminal.closed then rest else suc rest

-- What happens to a manager, in any order.
pub data ManagerCall : Type 0 where
  opens : Bytes → OpenParams → ManagerCall
  user_closes : Bytes → Bytes → ManagerCall
  administrator_closes : Bytes → ManagerCall
  reaps : ℕ → ManagerCall
  terminal_called : Bytes → Call → ManagerCall
  shuts_down : ManagerCall

unfoldable pub after_manager_call : Manager → ManagerCall → Manager
after_manager_call m (opens id p) = open_ m id p
after_manager_call m (user_closes user_id id) = (close_terminal m user_id id).0
after_manager_call m (administrator_closes id) = (close_any m id).0
after_manager_call m (reaps now) = reap_once m now
after_manager_call m (terminal_called id call) = record m {
  terminals = change id call m.terminals;
  closed = change id call m.closed;
}
after_manager_call m shuts_down = shut_down m

unfoldable pub after_manager_calls : Manager → List ManagerCall → Manager
after_manager_calls m [] = m
after_manager_calls m (call ∷ calls) = after_manager_calls (after_manager_call m call) calls
