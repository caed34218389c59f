-- ===== src/Sessions/Rules.antt =====
-- internal/sessions/triggers.go: the rules that watch a session's output, and their validation.
-- Whether a pattern compiles is a parameter, Go's `regexp`.
use secure_crt.Base.{
  ℕ, Bool, true, false, not, ◌&&◌, ◌||◌, Option, none, some, List, [], ◌∷◌, ltb, if◌then◌else◌,
  Bytes, bytes_eq, length,
}
use secure_crt.Base.Int.{ℤ, positive?}
use secure_crt.Base.Text.{trim_space}

pub data TriggerAction : Type 0 where
  trigger_send trigger_notify trigger_highlight trigger_stop : TriggerAction
  unknown_action : Bytes → TriggerAction

abbrev pub max_triggers : ℕ
max_triggers = 16

abbrev pub default_trigger_fires : ℕ
default_trigger_fires = 25

pub record Trigger : Type 0 where
  pub name : Bytes
  pub pattern : Bytes
  pub action : TriggerAction
  pub send : Bytes
  pub colour : Bytes
  pub max_fires : ℤ
  pub disabled : Bool

abbrev pub is_known : TriggerAction → Bool
is_known (unknown_action a) = false
is_known _ = true

abbrev pub runs_on_the_server : TriggerAction → Bool
runs_on_the_server trigger_highlight = false
runs_on_the_server _ = true

abbrev pub is_send : TriggerAction → Bool
is_send trigger_send = true
is_send _ = false

pub data RuleError : Type 0 where
  needs_name name_too_long no_pattern pattern_too_long bad_action nothing_to_send : RuleError
  send_too_long too_many_fires invalid_pattern too_many_triggers duplicate_name : RuleError

abbrev pub is_empty : Bytes → Bool
is_empty [] = true
is_empty _ = false

-- `MaxFires < 0 || MaxFires > 1000`
abbrev pub fires_out_of_range : ℤ → Bool
fires_out_of_range (ℤ.pos n) = ltb 1000 n
fires_out_of_range (ℤ.negsuc n) = true

-- How many times a rule may fire.
abbrev pub or_default : Option ℕ → ℕ
or_default none = default_trigger_fires
or_default (some n) = n

unfoldable pub fires : Trigger → ℕ
fires t = or_default (positive? t.max_fires)

module _ (compiles : Bytes → Bool) where
  -- `none` is no error.
  unfoldable pub validate : Trigger → Option RuleError
  unfolding trim_space
  validate t =
      if is_empty (trim_space t.name)
      then some needs_name
      else if ltb 64 (length t.name)
      then some name_too_long
      else if is_empty (trim_space t.pattern)
      then some no_pattern
      else if ltb 512 (length t.pattern)
      then some pattern_too_long
      else if not (is_known t.action)
      then some bad_action
      else if is_send t.action && is_empty t.send
      then some nothing_to_send
      else if ltb 512 (length t.send)
      then some send_too_long
      else if fires_out_of_range t.max_fires
      then some too_many_fires
      else if not (compiles t.pattern)
      then some invalid_pattern
      else none

  unfoldable pub seen : Bytes → List Bytes → Bool
  seen n [] = false
  seen n (m ∷ ms) = bytes_eq m n || seen n ms

  unfoldable pub validate_each : List Bytes → List Trigger → Option RuleError
  unfolding seen
  validate_each names [] = none
  validate_each names (t ∷ ts) =
      let rest = validate_each (t.name ∷ names) ts in
      elim (validate t) [
        | some e ↦ some e
        | none ↦ if seen t.name names then some duplicate_name else rest
      ]

  unfoldable pub validate_triggers : List Trigger → Option RuleError
  unfolding validate_each
  validate_triggers ts =
      if ltb max_triggers (length ts) then some too_many_triggers else validate_each [] ts
