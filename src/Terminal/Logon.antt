-- ===== src/Terminal/Logon.antt =====
-- internal/terminal/logon.go: a login sequence, run on the output that passes through a shell. An
-- instant is a number, and whether a write to the far end succeeds is a parameter. The keystrokes of
-- the user come between chunks, and not while the answers to a chunk are being written.
pub mod Script
use secure_crt.Base.{
  ℕ, suc, ◌+◌, ◌-◌, Bool, true, false, Option, none, some, List, [], ◌∷◌, ◌++◌, ltb, if◌then◌else◌,
  Bytes, length, drop,
}
use secure_crt.Sessions.Rules.{is_empty}
use secure_crt.Sessions.Template.{expand_send}
use secure_crt.Sessions.Logon.{LogonStep, matches}

-- Nanoseconds.
abbrev pub logon_timeout : ℕ
logon_timeout = 90_000_000_000

abbrev pub logon_window : ℕ
logon_window = 128

-- `writes` is what the wrapper has written, the write that failed included.
pub record LogonShell : Type 0 where
  pub steps : List LogonStep
  pub username : Bytes
  pub password : Bytes
  pub window : Bytes
  pub deadline : ℕ
  pub done : Bool
  pub sent : ℕ
  pub writes : List Bytes

-- `none` stands for the shell itself, with no wrapper.
unfoldable pub with_logon : List LogonStep → Bytes → Bytes → ℕ → Option LogonShell
with_logon [] username password now = none
with_logon (s ∷ steps) username password now = some (record {
  steps = s ∷ steps;
  username = username;
  password = password;
  window = [];
  deadline = now + logon_timeout;
  done = false;
  sent = 0;
  writes = [];
})

-- What one step types, if anything.
unfoldable pub typed_by : Bytes → Bytes → LogonStep → List Bytes
typed_by username password s =
    if is_empty s.send then [] else expand_send s.send username password ∷ []

unfoldable pub last_bytes : Bytes → Bytes
last_bytes w = if ltb logon_window (length w) then drop (length w - logon_window) w else w

abbrev pub no_steps : List LogonStep → Bool
no_steps [] = true
no_steps (s ∷ steps) = false

-- A chunk that is read at an instant, or keystrokes of the user.
pub data LogonEvent : Type 0 where
  reads : Bytes → ℕ → LogonEvent
  keystrokes : Bytes → LogonEvent

-- What the loop over the steps leaves.
pub record Fired : Type 0 where
  pub steps : List LogonStep
  pub window : Bytes
  pub sent : ℕ
  pub to_send : List Bytes

module _ (to_lower : Bytes → Bytes) where
  unfoldable pub fire : Bytes → Bytes → List LogonStep → Bytes → Fired
  fire username password [] window = record { steps = []; window = window; sent = 0; to_send = [] }
  fire username password (s ∷ steps) window =
      let rest = fire username password steps [] in
      if matches to_lower s window
      then record rest {
        sent = suc rest.sent;
        to_send = typed_by username password s ++ rest.to_send;
      }
      else record { steps = s ∷ steps; window = window; sent = 0; to_send = [] }

  module _ (write_ok : List Bytes → Bytes → Bool) where
    -- The writes, in order, until one fails; the flag is whether one did.
    unfoldable pub write_out : List Bytes → List Bytes → List Bytes × Bool
    write_out written [] = (written, false)
    write_out written (out ∷ outs) =
        let rest = write_out (written ++ out ∷ []) outs in
        if write_ok written out then rest else (written ++ out ∷ [], true)

    abbrev pub carry_out : LogonShell → Fired → LogonShell
    carry_out l f =
        let wrote = write_out l.writes f.to_send in
        record l {
          steps = f.steps;
          window = f.window;
          sent = l.sent + f.sent;
          done = if wrote.1 then true else no_steps f.steps;
          writes = wrote.0;
        }

    unfoldable pub observe : LogonShell → Bytes → ℕ → LogonShell
    observe l chunk now =
        if l.done
        then l
        else if ltb l.deadline now
        then record l { done = true }
        else carry_out l (fire l.username l.password l.steps (last_bytes (l.window ++ chunk)))

    -- `Read` and `Write`, as far as the sequence goes.
    unfoldable pub after_event : LogonShell → LogonEvent → LogonShell
    after_event l (reads chunk now) = if is_empty chunk then l else observe l chunk now
    after_event l (keystrokes p) = if is_empty p then l else record l { done = true }

    unfoldable pub after_events : LogonShell → List LogonEvent → LogonShell
    after_events l [] = l
    after_events l (e ∷ events) = after_events (after_event l e) events
