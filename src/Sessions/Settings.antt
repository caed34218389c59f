-- ===== src/Sessions/Settings.antt =====
-- internal/sessions/sessions.go: the settings of a saved connection or a folder, which a child fills from
-- its parent. Absent values are `none`; the JSON that they are stored as is not modelled.
use secure_crt.Base.{ℕ, Bool, true, false, Option, none, some, List, [], ◌∷◌, if◌then◌else◌, Bytes}
use secure_crt.Base.Int.{ℤ}
use secure_crt.Sessions.Rules.{Trigger}
use secure_crt.Sessions.Logon.{LogonStep, default_logon_steps}
use secure_crt.Sessions.Jump.{Protocol, protocol_telnet}

pub record Settings : Type 0 where
  pub username : Option Bytes
  pub port : Option ℤ
  pub credential_id : Option Bytes
  pub colour_scheme : Option Bytes
  pub font_size : Option ℤ
  pub scrollback : Option ℤ
  pub keep_alive_seconds : Option ℤ
  pub log_session : Option Bool
  pub agent_forward_credentials : Option (List Bytes)
  pub logon_steps : Option (List LogonStep)
  pub serial_baud : Option ℤ
  pub serial_data_bits : Option ℤ
  pub serial_stop_bits : Option ℤ
  pub serial_parity : Option Bytes
  pub serial_flow : Option Bytes
  pub triggers : Option (List Trigger)

-- `if out.X == nil { out.X = parent.X }`
abbrev pub or_parent {ℓ} : {A : Type ℓ} → Option A → Option A → Option A
or_parent (some own) parent = some own
or_parent none parent = parent

unfoldable pub merge : Settings → Settings → Settings
merge s parent = record s {
  username = or_parent s.username parent.username;
  port = or_parent s.port parent.port;
  credential_id = or_parent s.credential_id parent.credential_id;
  colour_scheme = or_parent s.colour_scheme parent.colour_scheme;
  font_size = or_parent s.font_size parent.font_size;
  scrollback = or_parent s.scrollback parent.scrollback;
  keep_alive_seconds = or_parent s.keep_alive_seconds parent.keep_alive_seconds;
  log_session = or_parent s.log_session parent.log_session;
  logon_steps = or_parent s.logon_steps parent.logon_steps;
  serial_baud = or_parent s.serial_baud parent.serial_baud;
  serial_data_bits = or_parent s.serial_data_bits parent.serial_data_bits;
  serial_stop_bits = or_parent s.serial_stop_bits parent.serial_stop_bits;
  serial_parity = or_parent s.serial_parity parent.serial_parity;
  serial_flow = or_parent s.serial_flow parent.serial_flow;
  triggers = or_parent s.triggers parent.triggers;
}

unfoldable pub enabled : List Trigger → List Trigger
enabled [] = []
enabled (t ∷ triggers) = let rest = enabled triggers in if t.disabled then rest else t ∷ rest

unfoldable pub effective_triggers : Option (List Trigger) → List Trigger
effective_triggers none = []
effective_triggers (some triggers) = enabled triggers

unfoldable pub effective_logon_steps : Option (List LogonStep) → Bool → List LogonStep
effective_logon_steps (some steps) has_password = steps
effective_logon_steps none has_password = if has_password then default_logon_steps else []

unfoldable pub agent_credentials : Option (List Bytes) → List Bytes
agent_credentials none = []
agent_credentials (some credentials) = credentials

unfoldable pub forwards_agent : Option (List Bytes) → Bool
forwards_agent none = false
forwards_agent (some []) = false
forwards_agent (some (c ∷ credentials)) = true

abbrev pub default_port : Protocol → ℕ
default_port protocol_telnet = 23
default_port _ = 22
