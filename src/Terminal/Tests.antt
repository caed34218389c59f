-- ===== src/Terminal/Tests.antt =====
-- Runs of the trigger shell, of the login sequence and of the ring buffer at concrete inputs. The patterns of these runs
-- are texts that a line has to contain.
use secure_crt.Base.{
  ◌≤◌, ◌+◌, ◌++◌, ◌<◌, ◌≡◌, refl, true, false, some, [], ◌∷◌, arith, codes, Bytes, List, Bool,
  length, All,
}
use secure_crt.Base.Int.{ℤ}
use secure_crt.Base.Text.{contains}
use secure_crt.Sessions.Rules.{Trigger, trigger_send, trigger_notify, fires}
use secure_crt.Terminal.Triggers.{
  observe, Regexp, Effect, TriggerShell, compile, with_triggers, observe_all, trigger_line_limit,
}
use secure_crt.Terminal.Triggers.Bounded.{Within, count_writes, budget, observe_all-bounded}
use secure_crt.Terminal.Triggers.Lines.{observe_all-OnceMore}
use secure_crt.Terminal.Triggers.Potential.{OnceMore}
use secure_crt.Sessions.Logon.{default_logon_steps}
use secure_crt.Terminal.Logon.{LogonShell, with_logon, LogonEvent, reads, keystrokes, after_events}
use secure_crt.Terminal.Logon.Script.{script, after_events-script}
use secure_crt.Terminal.RingBuffer.{new_ring_buffer, bytes}
use secure_crt.Terminal.RingBuffer.Window.{keep, join, write_all, bytes-write_all}
use secure_crt.Base.{none, ◌⊎◌, bytes_eq, bytes_eq_apart}
use secure_crt.Sessions.Jump.{protocol_ssh}
use secure_crt.Terminal.Session.{
  OpenParams, Terminal, open_terminal, attach, detach, Call, call_attach, call_detach, call_pump,
  call_close, after_call, after_calls,
}
use secure_crt.Terminal.Session.Lifecycle.{after_calls-IsSound}
use secure_crt.Terminal.Session.Sound.{IsSound}
use secure_crt.Terminal.Session.Displaced.{displaced_detaches}
use secure_crt.Terminal.Manager.{
  Manager, new_manager, find, remove, open_, close_terminal, terminal_not_found, ManagerCall, opens,
  terminal_called, after_manager_call, after_manager_calls, change, reap_once,
}
use secure_crt.Terminal.Manager.Owned.{close_terminal-isolated}
use secure_crt.Terminal.Manager.Reaped.{Overdue, reap_once-Overdue}
use secure_crt.Terminal.Manager.Tidy.{IsTidy}
use secure_crt.Terminal.Manager.Accounted.{times, after_manager_calls_lem}

abbrev texts : Regexp
texts = record {
  compiles = λ p. true;
  match_string = λ p line. contains line p;
  submatch = λ p line. p ∷ [];
}

abbrev always : List Effect → Bytes → Bool
always done p = true

abbrev answer_prompt : Trigger
answer_prompt = record {
  name = codes "answer";
  pattern = codes ">";
  action = trigger_send;
  send = codes "show\\r";
  colour = [];
  max_fires = ℤ.pos 2;
  disabled = false;
}

abbrev tell_alarm : Trigger
tell_alarm = record {
  name = codes "tell";
  pattern = codes "up";
  action = trigger_notify;
  send = [];
  colour = [];
  max_fires = ℤ.pos 0;
  disabled = false;
}

abbrev answering : TriggerShell
answering = record {
  username = codes "op";
  password = codes "pw";
  has_sink = true;
  triggers = record { rule = answer_prompt; fired = 0; fired_this_line = false } ∷ [];
  line = [];
  stopped = false;
  line_ended = false;
  effects = [];
}

answering_lem :
    with_triggers texts (answer_prompt ∷ []) (codes "op") (codes "pw") true ≡ some answering
unfolding with_triggers compile
answering_lem = refl

observe_all-bounded_example :
    let u = observe_all texts always answering (codes "R1>" ∷ codes "\nR1>" ∷ codes "\nR1>" ∷ []) in
    All Within u.triggers
    × (count_writes u.effects ≤ budget (compile texts (answer_prompt ∷ [])))
    × (length u.line < trigger_line_limit)
observe_all-bounded_example =
    observe_all-bounded texts always (answer_prompt ∷ []) (codes "op") (codes "pw") true answering
      (codes "R1>" ∷ codes "\nR1>" ∷ codes "\nR1>" ∷ []) answering_lem

-- The line ended; the prompt is asked for in two pieces, and in the second its rule has fired.
abbrev line_over : TriggerShell
line_over = observe texts always answering (codes "\n")

observe_all-OnceMore_example :
    OnceMore line_over.triggers
      (observe_all texts always line_over (codes "R1>" ∷ codes "en>" ∷ [])).triggers
unfolding observe secure_crt.Terminal.Triggers.match_lines secure_crt.Terminal.Triggers.take_lines
    secure_crt.Terminal.Triggers.take_byte
observe_all-OnceMore_example =
    observe_all-OnceMore texts always line_over (codes "R1>" ∷ codes "en>" ∷ [])
      ((refl, (refl, (refl, tt))), ((refl, (refl, (refl, tt))), tt)) (omega arith)

two_fires : 1 < fires tell_alarm
unfolding fires
two_fires = omega arith

bytes-write_all_example :
    bytes (write_all (new_ring_buffer 4) (codes "abc" ∷ codes "defghi" ∷ codes "jk" ∷ []))
    ≡ keep 4 (join (codes "abc" ∷ codes "defghi" ∷ codes "jk" ∷ []))
bytes-write_all_example =
    bytes-write_all 4 (codes "abc" ∷ codes "defghi" ∷ codes "jk" ∷ []) (omega arith)

abbrev same_text : Bytes → Bytes
same_text s = s

abbrev all_written : List Bytes → Bytes → Bool
all_written written out = true

abbrev signing_in : LogonShell
signing_in = record {
  steps = default_logon_steps;
  username = codes "op";
  password = codes "pw";
  window = [];
  deadline = 90_000_000_000;
  done = false;
  sent = 0;
  writes = [];
}

signing_in_lem : with_logon default_logon_steps (codes "op") (codes "pw") 0 ≡ some signing_in
unfolding with_logon
signing_in_lem = refl

abbrev dialogue : List LogonEvent
dialogue =
    reads (codes "R1 login: ") 5
    ∷ reads (codes "Pass") 6
    ∷ reads (codes "word: ") 7
    ∷ keystrokes (codes "x")
    ∷ []

after_events-script_example :
    let l' = after_events same_text all_written signing_in dialogue in
    ((left : List Bytes) × (l'.writes ++ left
        ≡ script (codes "op") (codes "pw") default_logon_steps)
      × (l'.done ≡ false → left ≡ script (codes "op") (codes "pw") l'.steps))
    × (l'.sent + length l'.steps ≡ length default_logon_steps)
after_events-script_example =
    after_events-script same_text all_written default_logon_steps (codes "op") (codes "pw") 0
      signing_in dialogue signing_in_lem

abbrev opened : OpenParams
opened = record {
  user_id = codes "u";
  protocol = protocol_ssh;
  cols = ℤ.pos 80;
  rows = ℤ.pos 24;
  has_holder = true;
  recording = none;
  recorded = false;
  record_forced = false;
}

abbrev a_day : List Call
a_day =
    call_attach
    ∷ call_pump (codes "$ ")
    ∷ call_attach
    ∷ call_detach 5
    ∷ call_close (codes "done")
    ∷ call_attach
    ∷ []

after_calls-IsSound_example : IsSound (after_calls (open_terminal opened) a_day)
after_calls-IsSound_example = after_calls-IsSound opened a_day

displaced_detaches_example :
    let u = detach (attach (attach (open_terminal opened)).0).0 7 in
    (u.attached ≡ none) × ((u.channels 1).open_ ≡ false) × (u.detached_at ≡ some 7)
unfolding open_terminal after_calls
displaced_detaches_example =
    displaced_detaches (open_terminal opened) 7 (after_calls-IsSound opened []) refl

abbrev two_users : List ManagerCall
two_users =
    opens (codes "1") opened
    ∷ opens (codes "2") (record opened { user_id = codes "v" })
    ∷ terminal_called (codes "1") call_attach
    ∷ terminal_called (codes "1") (call_detach 9)
    ∷ []

abbrev shared : Manager
shared = after_manager_calls new_manager two_users

after_manager_calls_lem_example :
    IsTidy shared × (times (codes "1") shared.terminals + times (codes "1") shared.closed ≡ 1)
unfolding bytes_eq
after_manager_calls_lem_example = after_manager_calls_lem two_users (codes "1") (omega arith)

abbrev of_other : Terminal
of_other = open_terminal (record opened { user_id = codes "v" })

close_terminal-isolated_example :
    (find (codes "2") (close_terminal shared (codes "u") (codes "1")).0.terminals ≡ some of_other)
    × (close_terminal shared (codes "u") (codes "2") ≡ (shared, some terminal_not_found))
unfolding after_manager_calls after_manager_call open_ find remove change bytes_eq open_terminal
close_terminal-isolated_example =
    close_terminal-isolated shared (codes "u") (codes "1") (codes "2") of_other refl
      (bytes_eq_apart (codes "v") (codes "u") refl)

abbrev of_user : Terminal
of_user = after_call (after_call (open_terminal opened) call_attach) (call_detach 9)

reap_once-Overdue_example :
    (Overdue 10 of_user × (find (codes "1") (reap_once shared 10).terminals ≡ none))
    ⊎ ((¬ Overdue 10 of_user) × (find (codes "1") (reap_once shared 10).terminals ≡ some of_user))
unfolding after_manager_calls after_manager_call open_ find remove change bytes_eq
reap_once-Overdue_example = reap_once-Overdue two_users 10 (codes "1") of_user refl
