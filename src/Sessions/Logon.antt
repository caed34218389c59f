-- ===== src/Sessions/Logon.antt =====
-- internal/sessions/logon.go: the steps of a login sequence. Lower case is a parameter, Go's
-- `strings.ToLower`.
use secure_crt.Base.{
  ℕ, Bool, true, false, not, ◌&&◌, ◌||◌, Option, none, some, List, [], ◌∷◌, ◌++◌, ltb, ◌==◌,
  if◌then◌else◌, Bytes, codes, length,
}
use secure_crt.Base.Text.{contains, trim_space}
use secure_crt.Sessions.Rules.{is_empty}
use secure_crt.Sessions.Template.{placeholder_username, placeholder_password}

abbrev pub max_logon_steps : ℕ
max_logon_steps = 8

pub record LogonStep : Type 0 where
  pub expect : Bytes
  pub send : Bytes

pub data StepError : Type 0 where
  expect_too_long step_send_too_long empty_step too_many_steps : StepError

unfoldable pub validate_step : LogonStep → Option StepError
validate_step s =
    if ltb 128 (length s.expect)
    then some expect_too_long
    else if ltb 512 (length s.send)
    then some step_send_too_long
    else if is_empty s.expect && is_empty s.send
    then some empty_step
    else none

abbrev pub first_error : Option StepError → Option StepError → Option StepError
first_error none later = later
first_error (some e) later = some e

unfoldable pub validate_all : List LogonStep → Option StepError
unfolding validate_step
validate_all [] = none
validate_all (s ∷ steps) = first_error (validate_step s) (validate_all steps)

unfoldable pub validate_logon_steps : List LogonStep → Option StepError
unfolding validate_all
validate_logon_steps steps =
    if ltb max_logon_steps (length steps) then some too_many_steps else validate_all steps

abbrev pub default_logon_steps : List LogonStep
default_logon_steps =
    record { expect = codes "ogin:|sername:"; send = placeholder_username ++ codes "\\r" }
    ∷ record { expect = codes "assword:"; send = placeholder_password ++ codes "\\r" }
    ∷ []

-- strings.Split
abbrev pub onto_first : ℕ → List Bytes → List Bytes
onto_first c [] = (c ∷ []) ∷ []
onto_first c (p ∷ ps) = (c ∷ p) ∷ ps

unfoldable pub split : ℕ → Bytes → List Bytes
split sep [] = [] ∷ []
split sep (c ∷ s) = let rest = split sep s in if c == sep then [] ∷ rest else onto_first c rest

module _ (to_lower : Bytes → Bytes) where
  unfoldable pub any_matches : Bytes → List Bytes → Bool
  unfolding contains trim_space
  any_matches lower [] = false
  any_matches lower (a ∷ alternatives) =
      (not (is_empty (trim_space a)) && contains lower (to_lower (trim_space a)))
      || any_matches lower alternatives

  unfoldable pub matches : LogonStep → Bytes → Bool
  matches s recent =
      if is_empty s.expect then true else any_matches (to_lower recent) (split b'|' s.expect)

unfoldable pub sends_password : LogonStep → Bool
unfolding contains
sends_password s = contains s.send placeholder_password
