-- ===== src/Sessions/Resolve.antt =====
-- internal/sessions/connections.go: a saved connection with what its folders give it. The look-up of a
-- folder by its identifier is a parameter, as it is in the source.
pub mod Nearest
use secure_crt.Base.{
  ℕ, zero, suc, Bool, true, false, not, ◌&&◌, Option, none, some, List, [], ◌∷◌, if◌then◌else◌,
  Bytes,
}
use secure_crt.Base.Int.{ℤ}
use secure_crt.Base.Outcome.{Outcome, failed, returned, ◌>>=◌}
use secure_crt.Sessions.Rules.{is_empty}
use secure_crt.Sessions.Jump.{Protocol}
use secure_crt.Sessions.Settings.{Settings, merge, default_port}
use secure_crt.Sessions.Folders.{Folder, TreeError, max_depth, too_deep, given}

pub record Session : Type 0 where
  pub id : Bytes
  pub owner_id : Bytes
  pub is_team : Bool
  pub folder_id : Bytes
  pub name : Bytes
  pub protocol : Protocol
  pub hostname : Bytes
  pub port : ℤ
  pub username : Bytes
  pub credential_id : Bytes
  pub jump_chain : List Bytes
  pub settings : Settings
  pub sort_order : ℤ

pub record Resolved : Type 0 where
  pub session : Session
  pub effective_username : Bytes
  pub effective_port : ℤ
  pub effective_credential_id : Bytes
  pub inherited_from : List Bytes

-- `if effective == "" && inherited != nil`, for a text and for a port.
abbrev pub or_inherited : Bytes → Option Bytes → Bytes
or_inherited own inherited = if is_empty own then given inherited own else own

abbrev pub or_inherited_port : ℤ → Option ℤ → ℤ
or_inherited_port (ℤ.pos zero) inherited = given inherited (ℤ.pos 0)
or_inherited_port own inherited = own

abbrev pub or_default_port : ℤ → Protocol → ℤ
or_default_port (ℤ.pos zero) protocol = ℤ.pos (default_port protocol)
or_default_port port protocol = port

-- What the loop hands on: the settings so far, and the names of the folders, the outermost first.
unfoldable pub resolved : Session → Settings → List Bytes → Resolved
resolved s effective inherited_from = record {
  session = record s { settings = effective };
  effective_username = or_inherited s.username effective.username;
  effective_port = or_default_port (or_inherited_port s.port effective.port) s.protocol;
  effective_credential_id = or_inherited s.credential_id effective.credential_id;
  inherited_from = inherited_from;
}

abbrev pub or_break :
    Option Folder → (Folder → Outcome TreeError Resolved) → Resolved → Outcome TreeError Resolved
or_break none continue broken = returned broken
or_break (some f) continue broken = continue f

module _ (lookup : Bytes → Option Folder) (s : Session) where
  -- The loop, by the rounds that it has left.
  unfoldable pub resolve_walk : ℕ → Bytes → Settings → List Bytes → Outcome TreeError Resolved
  resolve_walk zero current effective names =
      if is_empty current then returned (resolved s effective names) else failed too_deep
  resolve_walk (suc rounds) current effective names =
      if is_empty current
      then returned (resolved s effective names)
      else or_break (lookup current)
          (λ f. resolve_walk rounds f.parent_id (merge effective f.defaults) (f.name ∷ names))
          (resolved s effective names)

  unfoldable pub resolve_with : Outcome TreeError Resolved
  resolve_with = resolve_walk (suc max_depth) s.folder_id s.settings []
