-- ===== src/Telnet/Options.antt =====
-- internal/proto/telnetx/negotiate.go: the two tables of option states and their transitions.
-- A Go map from byte with the zero value `stateNo` is a function.
pub mod Quiet
pub mod Exchange
use secure_crt.Base.{
  ℕ, Bool, true, false, List, [], ◌∷◌, ◌++◌, Bytes, codes, ◌==◌, ◌||◌, ◌&&◌, if◌then◌else◌,
}
use secure_crt.Telnet.Protocol.{
  will, wont, do_, dont, opt_binary, opt_echo, opt_suppress_ga, opt_terminal_type,
  opt_end_of_record, opt_naws, option_name,
}

pub data OptionState : Type 0 where
  state_no state_yes state_want_no state_want_yes : OptionState

pub record Options : Type 0 where
  pub us : ℕ → OptionState
  pub him : ℕ → OptionState

pub new_options : Options
new_options = record { us = λ _. state_no; him = λ _. state_no }

abbrev pub put : (ℕ → OptionState) → ℕ → OptionState → ℕ → OptionState
put table opt s j = if j == opt then s else table j

abbrev pub is_yes : OptionState → Bool
is_yes state_yes = true
is_yes _ = false

unfoldable pub enabled_locally : Options → ℕ → Bool
enabled_locally o opt = is_yes (o.us opt)

unfoldable pub enabled_remotely : Options → ℕ → Bool
enabled_remotely o opt = is_yes (o.him opt)

pub record Reply : Type 0 where
  pub send : Bool
  pub command : ℕ
  pub option : ℕ

-- `reply{}`
abbrev pub silent : Reply
silent = record { send = false; command = 0; option = 0 }

abbrev pub answer : ℕ → ℕ → Reply
answer command opt = record { send = true; command = command; option = opt }

abbrev pub want_local : List ℕ
want_local = opt_suppress_ga ∷ opt_terminal_type ∷ opt_naws ∷ opt_binary ∷ []

abbrev pub want_remote : List ℕ
want_remote = opt_suppress_ga ∷ opt_echo ∷ opt_binary ∷ []

unfoldable pub supported_local : ℕ → Bool
supported_local opt =
    opt == opt_suppress_ga || (opt == opt_terminal_type || (opt == opt_naws || opt == opt_binary))

unfoldable pub supported_remote : ℕ → Bool
supported_remote opt =
    opt == opt_suppress_ga || (opt == opt_echo || (opt == opt_binary || opt == opt_end_of_record))

abbrev set_us : Options → ℕ → OptionState → Options
set_us o opt s = record o { us = put o.us opt s }

abbrev set_him : Options → ℕ → OptionState → Options
set_him o opt s = record o { him = put o.him opt s }

unfoldable pub offer_local : Options → ℕ → Options × Reply
offer_local o opt = elim (o.us opt) [
  | state_no ↦ (set_us o opt state_want_yes, answer will opt)
  | _ ↦ (o, silent)
]

unfoldable pub ask_remote : Options → ℕ → Options × Reply
ask_remote o opt = elim (o.him opt) [
  | state_no ↦ (set_him o opt state_want_yes, answer do_ opt)
  | _ ↦ (o, silent)
]

unfoldable pub receive_will : Options → ℕ → Options × Reply
unfolding supported_remote
receive_will o opt = elim (o.him opt) [
  | state_no ↦
      if supported_remote opt
      then (set_him o opt state_yes, answer do_ opt)
      else (o, answer dont opt)
  | state_yes ↦ (o, silent)
  | state_want_no ↦ (set_him o opt state_no, silent)
  | state_want_yes ↦ (set_him o opt state_yes, silent)
]

unfoldable pub receive_wont : Options → ℕ → Options × Reply
receive_wont o opt = elim (o.him opt) [
  | state_no ↦ (o, silent)
  | state_yes ↦ (set_him o opt state_no, answer dont opt)
  | state_want_no ↦ (set_him o opt state_no, silent)
  | state_want_yes ↦ (set_him o opt state_no, silent)
]

unfoldable pub receive_do : Options → ℕ → Options × Reply
unfolding supported_local
receive_do o opt = elim (o.us opt) [
  | state_no ↦
      if supported_local opt
      then (set_us o opt state_yes, answer will opt)
      else (o, answer wont opt)
  | state_yes ↦ (o, silent)
  | state_want_no ↦ (set_us o opt state_no, silent)
  | state_want_yes ↦ (set_us o opt state_yes, silent)
]

unfoldable pub receive_dont : Options → ℕ → Options × Reply
receive_dont o opt = elim (o.us opt) [
  | state_no ↦ (o, silent)
  | state_yes ↦ (set_us o opt state_no, answer wont opt)
  | state_want_no ↦ (set_us o opt state_no, silent)
  | state_want_yes ↦ (set_us o opt state_no, silent)
]

-- The switch of `negotiate`: the zero reply for any other command.
unfoldable pub receive : Options → ℕ → ℕ → Options × Reply
unfolding receive_will receive_wont receive_do receive_dont
receive o command opt =
    if command == will
    then receive_will o opt
    else if command == wont
    then receive_wont o opt
    else if command == do_
    then receive_do o opt
    else if command == dont
    then receive_dont o opt
    else (o, silent)

agreed_one : Options → ℕ → List Bytes
unfolding option_name
agreed_one o opt =
    if is_yes (o.us opt) && is_yes (o.him opt)
    then option_name opt ∷ []
    else if is_yes (o.him opt)
    then (option_name opt ++ codes "(remote)") ∷ []
    else if is_yes (o.us opt)
    then (option_name opt ++ codes "(local)") ∷ []
    else []

agreed_from : Options → List ℕ → List Bytes
unfolding agreed_one
agreed_from o [] = []
agreed_from o (opt ∷ opts) = agreed_one o opt ++ agreed_from o opts

unfoldable pub agreed : Options → List Bytes
unfolding agreed_from
agreed o =
    agreed_from o (opt_binary ∷ opt_echo ∷ opt_suppress_ga ∷ opt_terminal_type ∷ opt_naws ∷ [])
