-- ===== src/Sessions/Tests.antt =====
-- Runs of the send templates and of the jump chains at concrete inputs.
use secure_crt.Base.{
  ◌≡◌, ◌↔◌, refl, inl, inr, List, [], ◌∷◌, Bytes, codes, bytes_eq, bytes_eq_sound, Bool-cases,
  if◌then◌else◌,
}
use secure_crt.Base.Outcome.{Outcome, returned, failed, failed-ne-returned}
use secure_crt.Sessions.Jump.{
  Hop, protocol_ssh, StoreError, not_found, Store, expand_jump_chain, validate_jump_chain,
  check_hops, walk_chain, walk_hops, arrive,
}
use secure_crt.Sessions.Jump.Stored.{IsRoute, expand_jump_chain_lem, validate_jump_chain-expand}
use secure_crt.Sessions.Template.{expand, expand_send}
use secure_crt.Sessions.Template.SinglePass.{pieces, fill, expand-fill}
use secure_crt.Base.{◌⊎◌, ◌≤◌, ◌<◌, false, Option, none, some, map}
use secure_crt.Base.Text.{trim_space}
use secure_crt.Base.Int.{ℤ}
use secure_crt.Sessions.Settings.{Settings}
use secure_crt.Sessions.Folders.{
  Folder, Faults, CreateFolderParams, UpdateFolderParams, FolderCall, creates, updates,
  after_folder_calls, too_deep, table_after, update_folder, update_checked, after_folder_call,
  create_folder, check_parent, get_folder, find, own, moved, check_move, move_walk, renamed,
  replace, write_row, insert, depth_of, depth_walk,
}
use secure_crt.Sessions.Folders.Rows.{IsForest}
use secure_crt.Sessions.Folders.Forest.{after_folder_calls-IsForest}
use secure_crt.Sessions.Resolve.{Session, resolve_with}
use secure_crt.Sessions.Resolve.Nearest.{
  expected, nearest, names_onto, top, under, resolve_with_lem,
}

-- A password that looks like a template is typed as it stands.
expand_once :
    expand_send (codes "%PASSWORD%\\r") (codes "op") (codes "a%USERNAME%$1")
    ≡ codes "a%USERNAME%$1\r"
unfolding expand_send secure_crt.Base.Text.has_prefix
expand_once = refl

expand-fill_example :
    expand
      (codes "login %USERNAME% $1\\r")
      (codes "op")
      (codes "$1")
      (codes "x" ∷ codes "%PASSWORD%" ∷ [])
    ≡ fill
        (codes "op")
        (codes "$1")
        (codes "x" ∷ codes "%PASSWORD%" ∷ [])
        (pieces 0 (codes "login %USERNAME% $1\\r"))
expand-fill_example =
    expand-fill (codes "login %USERNAME% $1\\r") (codes "op") (codes "$1")
      (codes "x" ∷ codes "%PASSWORD%" ∷ [])

-- A store of three connections: `a`; `b`, which is reached through `a`; and `c`, through `b`.
abbrev hop_a : Hop
hop_a = record { id = codes "a"; protocol = protocol_ssh; jump_chain = [] }

abbrev hop_b : Hop
hop_b = record { id = codes "b"; protocol = protocol_ssh; jump_chain = codes "a" ∷ [] }

abbrev hop_c : Hop
hop_c = record { id = codes "c"; protocol = protocol_ssh; jump_chain = codes "b" ∷ [] }

abbrev look_up : Bytes → Outcome StoreError Hop
look_up id =
    if bytes_eq id (codes "a")
    then returned hop_a
    else if bytes_eq id (codes "b")
    then returned hop_b
    else if bytes_eq id (codes "c")
    then returned hop_c
    else failed not_found

id-look_up : (hop : Bytes) {r : Hop} → look_up hop ≡ returned r → r.id ≡ hop
id-look_up hop e = elim (Bool-cases (bytes_eq hop (codes "a"))) [
  | inl h ↦ cc (rw h at e, bytes_eq_sound hop (codes "a") h)
  | inr na ↦ elim (Bool-cases (bytes_eq hop (codes "b"))) [
    | inl h ↦ cc (rw (na, h) at e, bytes_eq_sound hop (codes "b") h)
    | inr nb ↦ elim (Bool-cases (bytes_eq hop (codes "c"))) [
      | inl h ↦ cc (rw (na, nb, h) at e, bytes_eq_sound hop (codes "c") h)
      | inr nc ↦ absurd (failed-ne-returned (rw (na, nb, nc) at e))
    ]
  ]
]

abbrev three : Store
three = record { get_session = look_up; resolve = look_up; id-resolve = id-look_up }

expand_jump_chain_example :
    (expand_jump_chain three (codes "c") ≡ returned (hop_a ∷ hop_b ∷ []))
    ↔ IsRoute three (codes "c") (codes "b" ∷ []) (hop_a ∷ hop_b ∷ [])
unfolding bytes_eq
expand_jump_chain_example = expand_jump_chain_lem three (codes "c") hop_c (hop_a ∷ hop_b ∷ []) refl

validate_jump_chain-expand_example :
    (route : List Hop) × (expand_jump_chain three (codes "c") ≡ returned route)
unfolding validate_jump_chain check_hops walk_chain walk_hops arrive bytes_eq
validate_jump_chain-expand_example =
    validate_jump_chain-expand three three 99 [] hop_c refl refl (λ hop h. refl)

abbrev no_faults : Faults
no_faults = record { reading = false; walking = λ i. false; counting = false; writing = false }

abbrev no_settings : Settings
no_settings = record {
  username = none;
  port = none;
  credential_id = none;
  colour_scheme = none;
  font_size = none;
  scrollback = none;
  keep_alive_seconds = none;
  log_session = none;
  agent_forward_credentials = none;
  logon_steps = none;
  serial_baud = none;
  serial_data_bits = none;
  serial_stop_bits = none;
  serial_parity = none;
  serial_flow = none;
  triggers = none;
}

abbrev in_folder : Bytes → CreateFolderParams
in_folder parent_id = record {
  owner_id = codes "u";
  is_team = false;
  parent_id = parent_id;
  name = codes "lab";
  defaults = record no_settings { username = some (codes "admin") };
}

abbrev to_parent : Bytes → UpdateFolderParams
to_parent parent_id = record {
  name = none;
  parent_id = some parent_id;
  sort_order = none;
  defaults = none;
}

-- Two folders, one in the other, and the outer one is to be moved into the inner one.
abbrev round_trip : List (Faults × FolderCall)
round_trip =
    (no_faults, creates 1 [] (in_folder []))
    ∷ (no_faults, creates 2 [] (in_folder (1 ∷ [])))
    ∷ (no_faults, updates (codes "u") (1 ∷ []) (to_parent (2 ∷ [])))
    ∷ []

after_folder_calls-IsForest_example : IsForest (after_folder_calls [] round_trip)
after_folder_calls-IsForest_example = after_folder_calls-IsForest round_trip

-- Two folders of which each is moved into the other, by calls that both look before either writes: each is its
-- own ancestor then.
abbrev side_by_side : List Folder
side_by_side =
    after_folder_calls []
      ((no_faults, creates 1 [] (in_folder [])) ∷ (no_faults, creates 2 [] (in_folder [])) ∷ [])

abbrev first_moved : List Folder
first_moved =
    table_after side_by_side
      (update_folder no_faults side_by_side side_by_side (codes "u") (1 ∷ []) (to_parent (2 ∷ [])))

abbrev both_moved : List Folder
both_moved =
    table_after first_moved
      (update_folder no_faults side_by_side first_moved (codes "u") (2 ∷ []) (to_parent (1 ∷ [])))

overlapping_moves :
    map {B = Bytes × Bytes} (λ (f : Folder). (f.id, f.parent_id)) both_moved
    ≡ (2 ∷ [], 1 ∷ []) ∷ (1 ∷ [], 2 ∷ []) ∷ []
unfolding after_folder_calls after_folder_call create_folder check_parent update_folder
    update_checked get_folder find own moved check_move move_walk renamed replace write_row bytes_eq
    trim_space insert depth_of depth_walk
overlapping_moves = refl

abbrev saved : Session
saved = record {
  id = codes "s";
  owner_id = codes "u";
  is_team = false;
  folder_id = 2 ∷ [];
  name = codes "switch";
  protocol = protocol_ssh;
  hostname = codes "h";
  port = ℤ.pos 0;
  username = [];
  credential_id = [];
  jump_chain = [];
  settings = no_settings;
  sort_order = ℤ.pos 0;
}

abbrev outer : Folder
outer = record {
  id = 1 ∷ [];
  owner_id = codes "u";
  is_team = false;
  parent_id = [];
  name = codes "site";
  defaults = record no_settings { username = some (codes "admin") };
  sort_order = ℤ.pos 0;
}

abbrev inner : Folder
inner = record outer { id = 2 ∷ []; parent_id = 1 ∷ []; name = codes "lab"; defaults = no_settings }

abbrev look_in : Bytes → Option Folder
look_in id =
    if bytes_eq id (1 ∷ []) then some outer else if bytes_eq id (2 ∷ []) then some inner else none

resolve_with_lem_example :
    ((2 ≤ 33)
      × (resolve_with look_in saved
          ≡ returned (
              expected saved
                (nearest no_settings (no_settings ∷ outer.defaults ∷ []))
                (codes "site" ∷ codes "lab" ∷ []))))
    ⊎ ((33 < 2) × (resolve_with look_in saved ≡ failed too_deep))
unfolding bytes_eq names_onto
resolve_with_lem_example =
    resolve_with_lem look_in saved (inner ∷ outer ∷ []) 2
      (under inner refl refl (under outer refl refl top))
