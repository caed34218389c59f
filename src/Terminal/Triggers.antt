-- ===== src/Terminal/Triggers.antt =====
-- internal/terminal/triggers.go: the trigger rules at work on a session's output. The regular
-- expressions are a parameter (Go's `regexp`), and so is whether a write to the far end succeeds.
pub mod Bounded
pub mod Lines
pub mod Potential
pub mod Refire
use secure_crt.Base.{
  ℕ, zero, suc, ◌+◌, ◌-◌, ◌*◌, ◌/◌, ◌%◌, ◌^◌, ◌≤◌, ◌<◌, min, ◌≡◌, refl, sym, ap, ◌∙◌, ◌≢◌, ◌↔◌, ◌⊎◌,
  inl, inr, Bool, true, false, not, ◌&&◌, ◌||◌, Option, none, some, List, [], ◌∷◌, ◌++◌, map,
  append-nil, append_assoc, arith, ltb, leb, ◌==◌, if◌then◌else◌, ltb→lt, lt→ltb, ==_iff,
  Bool-cases, Option-cases, Bytes, codes, bytes_eq, bytes_eq_refl, bytes_eq_sound, length,
  get_elem?, take, drop, length-append, take-append-drop, length-take, length-drop, All, All-append,
}
use mathlib.Core.List.{reverse}
use secure_crt.Base.Text.{trim_space}
use secure_crt.Sessions.Rules.{
  Trigger, TriggerAction, trigger_send, trigger_stop, runs_on_the_server, fires, is_empty,
}
use secure_crt.Sessions.Template.{expand}

abbrev pub trigger_line_limit : ℕ
trigger_line_limit = 8192

-- Patterns: which compile, which match a line, and the groups that they capture.
pub record Regexp : Type 0 where
  pub compiles : Bytes → Bool
  pub match_string : Bytes → Bytes → Bool
  pub submatch : Bytes → Bytes → List Bytes

pub record TriggerEvent : Type 0 where
  pub name : Bytes
  pub action : TriggerAction
  pub line : Bytes
  pub colour : Bytes

pub record CompiledTrigger : Type 0 where
  pub rule : Trigger
  pub fired : ℕ
  pub fired_this_line : Bool

-- What the shell wrapper does outside itself.
pub data Effect : Type 0 where
  notifies : TriggerEvent → Effect
  writes : Bytes → Effect
  closes : Effect

pub record TriggerShell : Type 0 where
  pub username : Bytes
  pub password : Bytes
  pub has_sink : Bool
  pub triggers : List CompiledTrigger
  pub line : Bytes
  pub stopped : Bool
  pub line_ended : Bool
  pub effects : List Effect

pub record Highlight : Type 0 where
  pub name : Bytes
  pub pattern : Bytes
  pub colour : Bytes

unfoldable pub highlights_from : List Trigger → List Highlight
highlights_from [] = []
highlights_from (rule ∷ rules) =
    let rest = highlights_from rules in
    if runs_on_the_server rule.action
    then rest
    else record { name = rule.name; pattern = rule.pattern; colour = rule.colour } ∷ rest

unfoldable pub trim_line : Bytes → Bytes
unfolding trim_space
trim_line line =
    let t = trim_space line in
    if ltb 200 (length t) then take 200 t ++ (0xE2 ∷ 0x80 ∷ 0xA6 ∷ []) else t

unfoldable pub rearm : List CompiledTrigger → List CompiledTrigger
rearm [] = []
rearm (t ∷ ts) = record t { fired_this_line = false } ∷ rearm ts

abbrev pub is_break : ℕ → Bool
is_break b = b == 10 || b == 13

-- One round of the loop of `observe`: the shell after the byte, and the line that it finished.
unfoldable pub take_byte : TriggerShell → ℕ → TriggerShell × List Bytes
take_byte t b =
    let ended = record t { line = []; line_ended = true } in
    let armed = if t.line_ended then rearm t.triggers else t.triggers in
    let longer = t.line ++ b ∷ [] in
    if is_break b
    then (ended, if is_empty t.line then [] else t.line ∷ [])
    else if leb trigger_line_limit (length longer)
    then (record t { triggers = armed; line = []; line_ended = true }, longer ∷ [])
    else (record t { triggers = armed; line = longer; line_ended = false }, [])

-- The whole loop.
unfoldable pub take_lines : TriggerShell → Bytes → TriggerShell × List Bytes
take_lines t [] = (t, [])
take_lines t (b ∷ chunk) =
    let (t', finished) = take_byte t b in
    let (t'', lines) = take_lines t' chunk in (t'', finished ++ lines)

-- And the unfinished line.
abbrev pub with_partial : TriggerShell × List Bytes → TriggerShell × List Bytes
with_partial (t, lines) = (t, if is_empty t.line then lines else lines ++ t.line ∷ [])

pub record Pending : Type 0 where
  pub event : TriggerEvent
  pub send : Bytes
  pub stop : Bool

module _ (re : Regexp) where
  -- `WithTriggers`: `none` stands for the shell itself, with no wrapper.
  unfoldable pub compile : List Trigger → List CompiledTrigger
  compile [] = []
  compile (rule ∷ rules) =
      let rest = compile rules in
      if not (runs_on_the_server rule.action)
      then rest
      else if not (re.compiles rule.pattern)
      then rest
      else record { rule = rule; fired = 0; fired_this_line = false } ∷ rest

  abbrev pub wrap : Bytes → Bytes → Bool → List CompiledTrigger → Option TriggerShell
  wrap username password has_sink [] = none
  wrap username password has_sink (t ∷ ts) = some (record {
    username = username;
    password = password;
    has_sink = has_sink;
    triggers = t ∷ ts;
    line = [];
    stopped = false;
    line_ended = false;
    effects = [];
  })

  unfoldable pub with_triggers : List Trigger → Bytes → Bytes → Bool → Option TriggerShell
  with_triggers rules username password has_sink = wrap username password has_sink (compile rules)

  -- Whether `match` passes a rule over.
  unfoldable pub skips : CompiledTrigger → Bytes → Bool
  skips t line =
      (t.fired_this_line || leb (fires t.rule) t.fired) || not (re.match_string t.rule.pattern line)

  unfoldable pub event_of : CompiledTrigger → Bytes → TriggerEvent
  event_of t line = record {
    name = t.rule.name;
    action = t.rule.action;
    line = trim_line line;
    colour = t.rule.colour;
  }

  -- What a rule that fires is to do.
  abbrev pub action_of : TriggerShell → CompiledTrigger → Bytes → Pending
  action_of t c line = elim c.rule.action [
    | trigger_send ↦ record {
      event = event_of c line;
      send = expand c.rule.send t.username t.password (re.submatch c.rule.pattern line);
      stop = false;
    }
    | trigger_stop ↦ record { event = event_of c line; send = []; stop = true }
    | _ ↦ record { event = event_of c line; send = []; stop = false }
  ]

  -- The loop of `match`: the rules after it, and what is to be done.
  unfoldable pub run_rules :
      TriggerShell → Bytes → List CompiledTrigger → List CompiledTrigger × List Pending
  run_rules t line [] = ([], [])
  run_rules t line (c ∷ cs) =
      let rest = run_rules t line cs in
      if skips c line then (c ∷ rest.0, rest.1) else (
        record c { fired = suc c.fired; fired_this_line = true } ∷ rest.0,
        action_of t c line ∷ rest.1,
      )

  unfoldable pub any_stop : List Pending → Bool
  any_stop [] = false
  any_stop (p ∷ ps) = p.stop || any_stop ps

  module _ (write_ok : List Effect → Bytes → Bool) where
    -- The event and the write of one action, behind the effects so far.
    abbrev pub noted : Bool → List Effect → Pending → List Effect
    noted has_sink done p = if has_sink then done ++ notifies p.event ∷ [] else done

    abbrev pub carried_out : Bool → List Effect → Pending → List Effect
    carried_out has_sink done p =
        if is_empty p.send
        then noted has_sink done p
        else noted has_sink done p ++ writes p.send ∷ []

    abbrev pub write_fails : Bool → List Effect → Pending → Bool
    write_fails has_sink done p =
        not (is_empty p.send) && not (write_ok (noted has_sink done p) p.send)

    -- The actions, in order, until a write fails or the session is stopped. The effects so far are
    -- an argument.
    unfoldable pub perform : Bool → List Effect → List Pending → List Effect
    perform has_sink done [] = done
    perform has_sink done (p ∷ ps) =
        let rest = perform has_sink (carried_out has_sink done p) ps in
        if write_fails has_sink done p
        then carried_out has_sink done p
        else if p.stop
        then carried_out has_sink done p ++ closes ∷ []
        else rest

    -- `match`
    unfoldable pub match_line : TriggerShell → Bytes → TriggerShell
    match_line t line =
        let ran = run_rules t line t.triggers in
        record t {
          triggers = ran.0;
          stopped = t.stopped || any_stop ran.1;
          effects = perform t.has_sink t.effects ran.1;
        }

    unfoldable pub match_lines : TriggerShell → List Bytes → TriggerShell
    match_lines t [] = t
    match_lines t (line ∷ lines) = match_lines (match_line t line) lines

    abbrev pub match_all : TriggerShell × List Bytes → TriggerShell
    match_all (t, lines) = match_lines t lines

    unfoldable pub observe : TriggerShell → Bytes → TriggerShell
    observe t chunk = if t.stopped then t else match_all (with_partial (take_lines t chunk))

    -- The chunks of a session, one after the other; `Read` observes no empty one.
    unfoldable pub observe_all : TriggerShell → List Bytes → TriggerShell
    observe_all t [] = t
    observe_all t (chunk ∷ chunks) =
        observe_all (if is_empty chunk then t else observe t chunk) chunks
